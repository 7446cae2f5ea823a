-- ===== src/Directory/Run.antt =====
-- `DirSim` (MemSys/directory.c) from the choice of the next work on, and the directory's runs: its
-- steps, between which other modules change its requests and ports.
use rsim.Prelude.{
  ℕ, zero, suc, ◌+◌, ◌-◌, ◌≡◌, sym, arith, Bool, true, false, not, ◌&&◌, Option, none, some, ◌==◌,
  if◌then◌else◌, if_elim,
}
use mathlib.Core.Path.{subst}
use rsim.Directory.Sharers.Count.{IsValid}
use rsim.Prelude.Result.{Result, ok, fatal, OnOk, OnOk-eq, OnOk-bind}
use rsim.PortQueue.{peek_q}
use rsim.Directory.{Kind, request, cohe_reply, Dir, DirLine, Params}
use rsim.Directory.Buffer.{dir_queue_peek, dir_queue_rm, dir_queue_add, has_room}
use rsim.Directory.Buffer.Effect.{add_out-OnOk}
use rsim.Directory.Pending.{is_wrb}
use rsim.Directory.Cohe.Invariant.{AllValid}
use rsim.Directory.Serve.{Next, dir_req, dir_send_req, dir_send_cohe, dir_outbound}
use rsim.Directory.Serve.Kept.{NextValid, dir_req-Valid, dir_send_cohe-Valid}
use rsim.Directory.Reply.{dir_cohe_rep, dir_wrb}
use rsim.Directory.Reply.Kept.{dir_cohe_rep-Valid, dir_wrb-Valid}

-- What DIRSTART finds to do: a message for DIROUTBOUND, a request whose messages are partly sent, or a
-- message to serve.
pub data Work : Type 0 where
  outbound partial serve : ℕ → Work

-- `++next_port`, around the end
unfoldable pub advance : Dir → Dir
advance d = record d { next_port = if d.next_port + 1 == d.num_ports then 0 else d.next_port + 1 }

-- the message of the port whose turn it is. Port 0 is that of the REQUESTs, at which a request that is
-- partly done and those that are ready go first.
abbrev pub serve_at : Dir → Option ℕ → Option (Work × Dir)
serve_at d none = none
serve_at d (some p) = some (
  serve p,
  record d {
    reqs = λ q. if q == p then record (d.reqs p) { in_port_num = d.next_port } else d.reqs q;
  },
)

unfoldable pub request_turn : Dir → Option ℕ → Option (Work × Dir)
request_turn d (some p) = some (partial p, d)
request_turn d none =
    if d.bufsz_rdy == 0
    then serve_at (record d { was_pending = false }) (peek_q (d.in_ports d.next_port))
    else serve_at (record d { was_pending = true }) (dir_queue_peek d.ready_reqs)

unfoldable pub turn : Dir → Option (Work × Dir)
turn d =
    if d.next_port == 0
    then request_turn d d.req_partial
    else serve_at (record d { was_pending = false }) (peek_q (d.in_ports d.next_port))

-- the walk over the ports, as many as are left of `num_ports`: the work, or `none` when the directory
-- goes to sleep
abbrev pub taken : Option (Work × Dir) → Option Work × Dir → Option Work × Dir
taken none rest = rest
taken (some (w, e)) rest = (some w, e)

unfoldable pub look : ℕ → Dir → Option Work × Dir
look zero d = (none, d)
look (suc n) d = taken (turn d) (look n (advance d))

-- DIRSTART: the first message of OutboundReqs that its port has room for, once in an activation, or
-- the next work of the ports
unfoldable pub first_outbound : Dir → Option ℕ → Option Work × Dir
first_outbound d none = look d.num_ports d
first_outbound d (some p) =
    let rest = (dir_queue_rm d.outbound_reqs).1 in
    if has_room d p
    then (some (outbound p), record d { outbound_reqs = rest; outboundsz = d.outboundsz - 1 })
    else look d.num_ports (record d { outbound_reqs = dir_queue_add rest p })

unfoldable pub dir_start : (checked_outbound : Bool) → Dir → Option Work × Dir
dir_start checked_outbound d =
    let e = record d { was_pending = false } in
    if not (e.outboundsz == 0) && not checked_outbound
    then first_outbound e (dir_queue_rm e.outbound_reqs).0
    else look e.num_ports e

-- DIRSERV: the case for a message, by `s.type`
unfoldable pub serve_kind : Params → ℕ → Kind → Dir → Result (Next × Dir)
serve_kind pm p request d = dir_req pm p d
serve_kind pm p cohe_reply d =
    if is_wrb (d.reqs p).req_type then dir_wrb pm p d else dir_cohe_rep p d
serve_kind pm p _ d = fatal

unfoldable pub dir_serv : Params → ℕ → Dir → Result (Next × Dir)
dir_serv pm p d = serve_kind pm p (d.reqs p).kind d

dir_serv-Valid : (pm : Params) (p : ℕ) (d : Dir) → AllValid d → OnOk NextValid (dir_serv pm p d)
unfolding dir_serv serve_kind
dir_serv-Valid pm p d v = by_kind (d.reqs p).kind
  where
    by_kind : (k : Kind) → OnOk NextValid (serve_kind pm p k d)
    by_kind request = dir_req-Valid pm p d v
    by_kind cohe_reply =
        if_elim (OnOk NextValid) (is_wrb (d.reqs p).req_type) (λ _. dir_wrb-Valid pm p d v)
          (λ _. dir_cohe_rep-Valid p d v)
    by_kind Kind.reply = tt
    by_kind Kind.cohe = tt

dir_send_req-Valid : (p : ℕ) (d : Dir) → AllValid d → OnOk NextValid (dir_send_req p d)
unfolding dir_send_req
dir_send_req-Valid p d v =
    OnOk-bind NextValid AllValid _ _
      (add_out-OnOk AllValid p d (λ ports. record { roomy = v.roomy; valid = v.valid })) (λ e w. w)

dir_outbound-Valid : (p : ℕ) (d : Dir) → AllValid d → OnOk AllValid (dir_outbound p d)
unfolding dir_outbound
dir_outbound-Valid p d v =
    OnOk-bind AllValid AllValid _ _
      (add_out-OnOk AllValid p d (λ ports. record { roomy = v.roomy; valid = v.valid }))
      (λ e w. record { roomy = w.roomy; valid = w.valid })

-- The directories that one comes to: a case of `DirSim` that does not end the simulation is a step, and
-- so is all that leaves the lines as they are, as other modules and DIRSTART do.
pub data Reach (pm : Params) (d : Dir) : Dir → Type 0 where
  here : Reach pm d d
  serves :
      (e f : Dir) (p : ℕ) (n : Next) → Reach pm d e → dir_serv pm p e ≡ ok (n, f) → Reach pm d f
  sends :
      (e f : Dir) (p : ℕ) (n : Next) → Reach pm d e → dir_send_req p e ≡ ok (n, f) → Reach pm d f
  sends_cohe :
      (e f : Dir) (p : ℕ) (n : Next)
      → Reach pm d e
      → dir_send_cohe pm p e ≡ ok (n, f)
      → Reach pm d f
  sends_outbound : (e f : Dir) (p : ℕ) → Reach pm d e → dir_outbound p e ≡ ok f → Reach pm d f
  elsewhere :
      (e f : Dir)
      → Reach pm d e
      → f.num_nodes ≡ e.num_nodes
      → f.vec_index ≡ e.vec_index
      → f.lines ≡ e.lines
      → Reach pm d f

-- From a directory whose lines are valid, no run of the cases of `DirSim` leads to one with a line that
-- is not: `numsharers` is always the number of bits set, an uncached line has no sharer, a private one
-- exactly one and a shared one some.
pub Reach-AllValid : (pm : Params) (d e : Dir) → Reach pm d e → AllValid d → AllValid e
Reach-AllValid pm d e here v = v
Reach-AllValid pm d _ (serves e f p n r eq) v =
    OnOk-eq NextValid (dir_serv pm p e) (n, f) eq
      (dir_serv-Valid pm p e (Reach-AllValid pm d e r v))
Reach-AllValid pm d _ (sends e f p n r eq) v =
    OnOk-eq NextValid (dir_send_req p e) (n, f) eq
      (dir_send_req-Valid p e (Reach-AllValid pm d e r v))
Reach-AllValid pm d _ (sends_cohe e f p n r eq) v =
    OnOk-eq NextValid (dir_send_cohe pm p e) (n, f) eq
      (dir_send_cohe-Valid pm p e (Reach-AllValid pm d e r v))
Reach-AllValid pm d _ (sends_outbound e f p r eq) v =
    OnOk-eq AllValid (dir_outbound p e) f eq (dir_outbound-Valid p e (Reach-AllValid pm d e r v))
Reach-AllValid pm d _ (elsewhere e f r nodes words lines) v =
    let w = Reach-AllValid pm d e r v in
    record {
      roomy = omega (arith, w.roomy, nodes, words);
      valid = λ a.
          subst (λ (k : ℕ). IsValid k (f.lines a)) (sym words)
            (subst (λ (ls : ℕ → DirLine). IsValid e.vec_index (ls a)) (sym lines) (w.valid a));
    }
