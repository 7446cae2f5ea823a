-- ===== src/Directory/Serve/Overflow.antt =====
-- The overflow entry of the directory's output ports (MemSys/directory.c and MemSys/route.c).
use rsim.Prelude.{ℕ, ◌≡◌, true, false, none, some, is_some, arith}
use rsim.Prelude.Result.{ok, fatal}
use rsim.PortQueue.{Port, check_q, add_q}
use rsim.Directory.{Dir}
use rsim.Directory.Buffer.{routing_dir, has_room, add_out}
use rsim.Directory.Serve.{dir_send_req, dir_outbound}

check_q-full :
    {A : Type 0} (q : Port A) → q.q_size ≡ q.q_sz_tot → q.ov_req ≡ none → is_some (check_q q) ≡ true
unfolding check_q
check_q-full q full free = ground (arith, full, free)

add_q-full :
    {A : Type 0} (prio : A → ℕ) (q : Port A) (r : A)
    → q.q_size ≡ q.q_sz_tot
    → q.ov_req ≡ none
    → add_q prio q r ≡ ok (false, record q { ov_req = some r })
unfolding add_q
add_q-full prio q r full free = ground (arith, full, free)

-- When the queue of a message's output port is full and its overflow entry is free, the directory's
-- test finds room, and DIRSENDREQ and DIROUTBOUND end the simulation.
pub overflow_fatal :
    (p : ℕ) (d : Dir)
    → (d.out_ports (routing_dir (d.reqs p).kind)).q_size
      ≡ (d.out_ports (routing_dir (d.reqs p).kind)).q_sz_tot
    → (d.out_ports (routing_dir (d.reqs p).kind)).ov_req ≡ none
    → (has_room d p ≡ true) × (dir_send_req p d ≡ fatal) × (dir_outbound p d ≡ fatal)
unfolding has_room dir_send_req dir_outbound add_out
overflow_fatal p d full free =
    let i : ℕ = routing_dir (d.reqs p).kind in
    let e = add_q-full (λ (q : ℕ). (d.reqs q).priority) (d.out_ports i) p full free in
    (check_q-full (d.out_ports i) full free, rw e, rw e)
