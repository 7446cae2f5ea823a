-- ===== src/Directory/Buffer.antt =====
-- The pending buffer and the queues of requests of the directory (MemSys/directory.c), with the small
-- functions on a request that its cases call.
pub mod Effect
pub mod Revive
use rsim.Prelude.{
  ℕ, ◌+◌, ◌-◌, Bool, true, false, not, ◌&&◌, ◌||◌, Option, none, some, List, [], ◌∷◌, ◌++◌, ltb,
  ◌==◌, if◌then◌else◌, update, is_some,
}
use rsim.Prelude.Result.{Result, ok, fatal, ◌>>=◌}
use rsim.Req.{ReqType}
use rsim.PortQueue.{Port, rm_q, add_q, check_q, head_of, tail_of}
use rsim.Directory.{
  Req, Dir, Kind, cohe, Handled, req_unknown, dir_lh_nocohe, dir_lh_rcohe, dir_rh_nocohe,
  dir_rh_lcohe, dir_rh_rcohe, set_req,
}

-- `DirAddBuf`
unfoldable pub dir_add_buf : Dir → ℕ → Result Dir
dir_add_buf d p =
    if ((d.buftotsz == d.bufmaxsz) && not d.was_pending) || ltb d.bufmaxsz d.buftotsz
    then fatal
    else ok (record d {
      buf = d.buf ++ (p ∷ []);
      buftotsz = if d.was_pending then d.buftotsz else d.buftotsz + 1;
    })

-- the loop of `DirCheckBuf` over the buffer: the requests with another tag stay in it
unfoldable pub check_buf_loop : ℕ → List ℕ → Dir → Dir
check_buf_loop tag [] d = d
check_buf_loop tag (p ∷ ps) d = check_buf_loop tag ps (
    if (d.reqs p).tag == tag
    then record d { bufsz_rdy = d.bufsz_rdy + 1; ready_reqs = d.ready_reqs ++ (p ∷ []) }
    else record d { buf = d.buf ++ (p ∷ []) })

-- `DirCheckBuf`
unfoldable pub dir_check_buf : ℕ → Dir → Dir
dir_check_buf tag d = check_buf_loop tag d.buf (record d { buf = [] })

-- `DirQueueAdd`, `DirQueuePeek` and `DirQueueRm`
unfoldable pub dir_queue_add : List ℕ → ℕ → List ℕ
dir_queue_add q p = q ++ (p ∷ [])

unfoldable pub dir_queue_peek : List ℕ → Option ℕ
dir_queue_peek q = head_of q

unfoldable pub dir_queue_rm : List ℕ → Option ℕ × List ℕ
dir_queue_rm q = (head_of q, tail_of q)

-- `FixForwardRARs` on the type of the request
unfoldable pub fix_forward_rars : ReqType → Result ReqType
fix_forward_rars ReqType.copyback = ok ReqType.read_sh
fix_forward_rars ReqType.copyback_shdy = ok ReqType.read_sh
fix_forward_rars ReqType.copyback_invl = ok ReqType.read_own
fix_forward_rars _ = fatal

-- `ReqSetHandled`, for a coherence type of 0, 1 or more
unfoldable pub handled_by : Req → (remotehome : Bool) → (coheness : ℕ) → Handled → Result Req
handled_by r remotehome coheness req_unknown =
    if remotehome
    then (if coheness == 0
        then ok (record r { remote_miss = true; handled = dir_rh_nocohe })
        else if coheness == 1
        then ok (record r { remote_miss = true; handled = dir_rh_lcohe })
        else if coheness == 2
        then ok (record r { remote_miss = true; handled = dir_rh_rcohe })
        else fatal)
    else if coheness == 0
    then ok (record r { remote_miss = false; handled = dir_lh_nocohe })
    else ok (record r { remote_miss = true; handled = dir_lh_rcohe })
handled_by r remotehome coheness _ = ok r

unfoldable pub req_set_handled : Req → (remotehome : Bool) → (coheness : ℕ) → Result Req
req_set_handled r remotehome coheness = handled_by r remotehome coheness r.handled

-- `commit_req` (route.c) of a request that must be the next one of its port. The handshake function
-- of the module at the other side is not called.
unfoldable pub commit_is : ℕ → Option ℕ → Dir → Result Dir
commit_is p none d = fatal
commit_is p (some q) d = if p == q then ok d else fatal

unfoldable pub commit_req : ℕ → Dir → Result Dir
commit_req p d =
    let i : ℕ = (d.reqs p).in_port_num in
    let got = rm_q (d.in_ports i) in
    commit_is p got.0 (record d { in_ports = update d.in_ports i got.2 })

-- `dir_commit_req`, and the check after it
unfoldable pub dir_commit_req : ℕ → Dir → Result Dir
dir_commit_req p d =
    if d.was_pending
    then commit_is p (dir_queue_rm d.ready_reqs).0
        (record d { bufsz_rdy = d.bufsz_rdy - 1; ready_reqs = (dir_queue_rm d.ready_reqs).1 })
    else commit_req p d

-- `routing_dir` (route.c): a COHE goes out at port 1, all else at port 0
unfoldable pub routing_dir : Kind → ℕ
routing_dir cohe = 1
routing_dir _ = 0

-- whether `checkQ` of the request's output port is not -1
unfoldable pub has_room : Dir → ℕ → Bool
has_room d p = is_some (check_q (d.out_ports (routing_dir (d.reqs p).kind)))

-- `add_req` to the request's output port, in the cases that end the simulation when it gives 0. The
-- module at the other side is woken.
abbrev pub put_port : Dir → ℕ → Bool × Port ℕ → Result Dir
put_port d i (true, port) = ok (record d { out_ports = update d.out_ports i port })
put_port d i (false, port) = fatal

unfoldable pub add_out : ℕ → Dir → Result Dir
add_out p d =
    let i : ℕ = routing_dir (d.reqs p).kind in
    add_q (λ (q : ℕ). (d.reqs q).priority) (d.out_ports i) p >>= put_port d i
