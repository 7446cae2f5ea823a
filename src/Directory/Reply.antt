-- ===== src/Directory/Reply.antt =====
-- The cases DIRCOHEREP and DIRWRB of `DirSim` (MemSys/directory.c): the replies to coherence messages,
-- and write-backs. A reply to a line whose counter is 0, which can only be a NACK, is fatal: the code
-- goes on with a counter of -1.
pub mod Kept
pub mod Refused
pub mod Forwarded
use rsim.Prelude.{
  ℕ, ◌+◌, ◌-◌, Bool, true, false, not, ◌&&◌, ◌||◌, Option, none, some, is_some, ◌==◌, if◌then◌else◌,
  update,
}
use rsim.Prelude.Result.{Result, ok, fatal, ◌>>=◌}
use rsim.Directory.{
  Response, visit_mem, dir_reply, special_reply, ack_reply, dir_private, Kind, request, reply, cohe,
  Answer, no_reply, positive, rar, nack, nack_pend, req_fwd, req_bwd, NackSt, nack_ok, nack_nok,
  Req, DirEp, DirLine, Dir, Params, set_req, set_line,
}
use rsim.Directory.Sharers.{rm_all_add_fm}
use rsim.Directory.Buffer.{dir_check_buf, dir_queue_add, fix_forward_rars, commit_req, has_room}
use rsim.Directory.Cohe.{dir_cohe}
use rsim.Directory.Pending.{same_node}
use rsim.Directory.Serve.{Next, start_over, send_req}

-- the line without a transaction: `pend` and `extra` are cleared
abbrev pub settle : ℕ → Dir → Dir
settle a d = set_line d a (record (d.lines a) { pend = false; extra = none })

-- A message that has a buffer already: it leaves if its port has room, and waits in OutboundReqs if not.
unfoldable pub send_or_queue : (frees : Bool) → ℕ → Dir → Next × Dir
send_or_queue frees p d =
    if has_room d p
    then (send_req p, record d { buftotsz = if frees then d.buftotsz - 1 else d.buftotsz })
    else (
      start_over,
      record d { outboundsz = d.outboundsz + 1; outbound_reqs = dir_queue_add d.outbound_reqs p },
    )

-- the request as it was before it was forwarded
unfoldable pub unforwarded : Req → Option ℕ → Result Req
unforwarded r none = ok r
unforwarded r (some n) =
    fix_forward_rars r.req_type
    >>= (λ t. ok (record r { src_node = n; forward_to = none; req_type = t }))

-- A NACK with no write-back: the line is the owner's again, and the request goes back for a retry.
unfoldable pub race_rar : ℕ → ℕ → Dir → Result (Next × Dir)
race_rar p a d =
    let r = record (d.reqs p) { reply = rar; kind = reply; dir = req_bwd } in
    rm_all_add_fm d (d.lines a) r.src_node r >>= (λ (c : DirLine × Req).
      unforwarded c.1 c.1.forward_to >>= (λ (s : Req).
        let e = set_req (settle a (set_line d a (record (c.0) { state = dir_private }))) p s in
        ok (send_or_queue true p (dir_check_buf s.tag e))))

-- A NACK after the write-back has come: the request is ready to be processed again.
unfoldable pub again : ℕ → ℕ → Dir → Option ℕ → Result (Next × Dir)
again p a d none = fatal
again p a d (some n) =
    let r = record (d.reqs p) {
      reply = no_reply;
      dirdone = false;
      dir = req_fwd;
      kind = request;
    } in
    unforwarded r (some n) >>= (λ (s : Req).
      let e = set_req (settle a d) p s in
      ok (
        start_over,
        dir_check_buf s.tag
            (record e { bufsz_rdy = e.bufsz_rdy + 1; ready_reqs = dir_queue_add e.ready_reqs p }),
      ))

-- a NACK_PEND with no write-back: the message is sent once more
unfoldable pub resend : ℕ → Dir → Next × Dir
resend p d =
    let r = d.reqs p in
    send_or_queue false p (
      set_req d p
        (record r { dir = req_fwd; kind = cohe; src_node = r.dest_node; dest_node = r.src_node }))

-- the reply that the last coherence message has been waited for: `pend` is cleared at the line of that
-- message, and `extra` at the line of the request
unfoldable pub reply_for : (a q : ℕ) → Dir → Option ℕ → Result (Next × Dir)
reply_for a q d none = fatal
reply_for a q d (some b) =
    let c = dir_check_buf (d.reqs q).tag d in
    let u = set_line c a (record (c.lines a) { pend = false }) in
    let e = set_line u b (record (u.lines b) { extra = none }) in
    let r = record (e.reqs q) {
      reply = positive;
      kind = reply;
      dir = req_bwd;
      size_st = (e.reqs q).size_req;
    } in
    ok (send_or_queue true q (set_req e q r))

unfoldable pub late_reply : (a q : ℕ) → Dir → Result (Next × Dir)
late_reply a q d = reply_for a q d (d.reqs q).dir_item

unfoldable pub with_req : Option ℕ → (ℕ → Result (Next × Dir)) → Result (Next × Dir)
with_req none f = fatal
with_req (some q) f = f q

-- the last reply, by what the transaction waits for
unfoldable pub complete : Response → ℕ → ℕ → DirEp → Dir → Result (Next × Dir)
complete dir_reply p a x d = with_req x.pend_req (λ (q : ℕ). late_reply a q d)
complete visit_mem p a x d = with_req x.pend_req (λ (q : ℕ). late_reply a q d)
complete special_reply p a x d = with_req x.pend_req (λ (q : ℕ). late_reply a q d)
complete ack_reply p a x d =
    if same_node x.pend_req p
    then fatal
    else let e = settle a (dir_check_buf (d.reqs p).tag d) in
      ok (start_over, record e { buftotsz = e.buftotsz - 1 })
complete _ p a x d = fatal

abbrev pub is_ack : Response → Bool
is_ack ack_reply = true
is_ack _ = false

-- a reply that counts
unfoldable pub count_reply : ℕ → ℕ → DirEp → Dir → Result (Next × Dir)
count_reply p a x d =
    let y = record x { counter = x.counter - 1 } in
    let e = set_line d a (record (d.lines a) { extra = some y }) in
    if (is_some (d.reqs p).forward_to && not (is_ack x.ret_st)) || (x.counter == 0)
    then fatal
    else if y.counter == 0
    then complete y.ret_st p a y (record e { wait_cntsz = e.wait_cntsz - 1 })
    else ok (start_over, e)

-- a NACK, by what the message asked for
unfoldable pub on_nack : NackSt → ℕ → ℕ → DirEp → Dir → Result (Next × Dir)
on_nack nack_ok p a x d = count_reply p a x d
on_nack nack_nok p a x d =
    if same_node x.was_here (d.reqs p).src_node
    then again p a d (d.reqs p).forward_to
    else if same_node x.pend_req p
    then race_rar p a d
    else fatal

unfoldable pub on_nack_pend : NackSt → ℕ → ℕ → DirEp → Dir → Result (Next × Dir)
on_nack_pend nack_ok p a x d = fatal
on_nack_pend nack_nok p a x d =
    if same_node x.was_here (d.reqs p).src_node
    then again p a d (d.reqs p).forward_to
    else ok (resend p d)

-- the switch on `s.reply`, after the test of the counter
unfoldable pub by_reply : Answer → ℕ → ℕ → DirEp → Dir → Result (Next × Dir)
by_reply nack p a x d = on_nack x.nack_st p a x d
by_reply nack_pend p a x d = if x.counter == 0 then fatal else on_nack_pend x.nack_st p a x d
by_reply positive p a x d = if x.counter == 0 then fatal else count_reply p a x d
by_reply _ p a x d = fatal

unfoldable pub with_extra : Option DirEp → (DirEp → Result (Next × Dir)) → Result (Next × Dir)
with_extra none f = fatal
with_extra (some x) f = f x

-- DIRCOHEREP
unfoldable pub dir_cohe_rep : ℕ → Dir → Result (Next × Dir)
dir_cohe_rep p d = with_req (d.reqs p).dir_item (λ (a : ℕ). commit_req p d >>= (λ (e : Dir).
    with_extra (e.lines a).extra (λ (x : DirEp). by_reply (e.reqs p).reply p a x e)))

-- what a write-back means for the transaction of its line
unfoldable pub after_wrb : ℕ → ℕ → Option DirEp → Dir → Result (Next × Dir)
after_wrb p a none d =
    ok (
      start_over,
      dir_check_buf (d.reqs p).tag (set_line d a (record (d.lines a) { pend = false })),
    )
after_wrb p a (some x) d =
    if same_node x.pend_req p
    then fatal
    else if x.waiting
    then ok (start_over, dir_check_buf (d.reqs p).tag (settle a d))
    else ok (start_over, d)

-- DIRWRB
unfoldable pub dir_wrb : Params → ℕ → Dir → Result (Next × Dir)
dir_wrb pm p d = commit_req p d >>= (λ (e : Dir).
    dir_cohe pm p e >>= (λ (c : Response × ℕ × Dir). after_wrb p c.1 (c.2.lines c.1).extra c.2))
