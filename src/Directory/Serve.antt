-- ===== src/Directory/Serve.antt =====
-- The cases DIRREQ, DIRSENDREQ, DIROUTBOUND and DIRSENDCOHE of `DirSim` (MemSys/directory.c). What
-- `DirSim` does after a case is its next case with the request there, or that it waits for a time.
pub mod Kept
pub mod Overflow
pub mod Room
use rsim.Prelude.{
  ℕ, zero, suc, ◌+◌, ◌-◌, Bool, true, false, not, ◌&&◌, ◌||◌, Option, none, some, ltb, ◌==◌,
  if◌then◌else◌, update,
}
use rsim.Prelude.Result.{Result, ok, fatal, ◌>>=◌}
use rsim.Directory.{
  Response, wait_cnt, wait_pend, visit_mem, dir_reply, forward_request, wait_for_wrb, Kind, request,
  reply, cohe, Answer, no_reply, positive, rar, req_fwd, req_bwd, Req, DirEp, DirLine, Params, Dir,
  new_extra, set_req, set_line, req_unknown,
}
use rsim.Directory.Buffer.{
  dir_add_buf, req_set_handled, dir_commit_req, commit_req, has_room, add_out,
}
use rsim.Directory.Cohe.{dir_cohe}

-- DIRSTARTOVER, DIRSENDREQ and DIRSENDCOHE, or the end of this activation: `sleep` until the time of a
-- packet has passed, to go on with DIRSENDCOHE
pub data Next : Type 0 where
  start_over : Next
  send_req send_cohe sleep : ℕ → Next

abbrev pub is_cohe : Kind → Bool
is_cohe cohe = true
is_cohe _ = false

-- a request that cannot be answered now: it stays in its port, a REQUEST again
abbrev pub put_off : ℕ → Dir → Dir
put_off p d = set_req d p (record (d.reqs p) { dir = req_fwd; kind = request })

-- A reply that leaves at once if its port has room: the request is committed only then.
unfoldable pub answer_at_once : ℕ → Dir → Result (Next × Dir)
answer_at_once p d =
    if has_room d p
    then dir_commit_req p d
      >>= (λ (e : Dir). ok (send_req p, set_req e p (record (e.reqs p) { dir = req_bwd })))
    else ok (start_over, put_off p d)

-- a message as a reply, before it is routed
abbrev pub as_reply : Answer → Req → Req
as_reply a r = record r { reply = a; kind = reply }

-- DIR_REPLY and VISIT_MEM: no coherence messages are needed. `GlobalPerform`, which makes a write
-- visible to the processor's simulator, is left out.
unfoldable pub give_reply : ℕ → ℕ → Dir → Result (Next × Dir)
give_reply p a d =
    let r = d.reqs p in
    req_set_handled r (not (r.src_node == r.dest_node)) 0 >>= (λ (h : Req).
      let e =
        set_req (set_line d a (record (d.lines a) { extra = none })) p
          (record (as_reply positive h) { size_st = h.size_req }) in
      if has_room e p
      then dir_commit_req p e >>= (λ (f : Dir). ok (
        send_req p,
        record (set_req f p (record (f.reqs p) { dir = req_bwd })) {
          buftotsz = if f.was_pending then f.buftotsz - 1 else f.buftotsz;
        },
      ))
      else ok (start_over, put_off p e))

-- whether one of the first nodes of the array, as many as given, is another node
unfoldable pub any_remote : (ℕ → ℕ) → ℕ → ℕ → Bool
any_remote ary node_num zero = false
any_remote ary node_num (suc n) = not (ary n == node_num) || any_remote ary node_num n

-- the delay for the creation of a packet, or DIRSENDCOHE at once
abbrev pub pause : ℕ → ℕ → Dir → Next × Dir
pause delay p d =
    if delay == 0 then (send_cohe p, d) else (sleep p, record d { req_partial = some p })

-- the line of a transaction that starts, and the module's next structure
abbrev pub start_cohe : ℕ → ℕ → Dir → Dir
start_cohe p a d =
    record (set_line d a (record (d.lines a) {
      pend = true;
      extra = some (record (d.extra) { pend_req = some p; num_left = d.extra.counter });
    })) {
      buftotsz = if d.was_pending then d.buftotsz else d.buftotsz + 1;
      wait_cntsz = d.wait_cntsz + 1;
      extra = new_extra;
    }

-- WAIT_CNT: the sharers are to be told
unfoldable pub tell_sharers : Params → ℕ → ℕ → Dir → Result (Next × Dir)
tell_sharers pm p a d =
    let r = d.reqs p in
    let remote = pm.memsim_stat_on && any_remote d.extra.node_ary d.node_num d.extra.counter in
    dir_commit_req p d >>= (λ (e : Dir).
      req_set_handled (e.reqs p) (not (r.src_node == d.node_num)) (if remote then 2 else 1)
      >>= (λ (h : Req). ok (
          pause pm.pkt_create_time p
            (set_req (start_cohe p a e) p (record h { dir_item = some a })))))

-- the request as the message to the owner
abbrev pub forwarded : Params → Dir → ℕ → Req → Req
forwarded pm d a r = record r {
  dir_item = some a;
  forward_to = some r.src_node;
  src_node = d.node_num;
  dest_node = d.extra.node_ary 0;
  req_type = d.extra.next_req_type;
  reply = no_reply;
  kind = cohe;
  nack_st = d.extra.nack_st;
  dir = req_fwd;
  dirdone = false;
  size_st = pm.req_sz;
}

-- FORWARD_REQUEST: the request itself goes to the owner
unfoldable pub forward : Params → ℕ → ℕ → Dir → Result (Next × Dir)
forward pm p a d = dir_commit_req p d >>= (λ (e : Dir).
    ok (pause pm.pkt_create_time p (set_req (start_cohe p a e) p (forwarded pm e a (e.reqs p)))))

-- the request after Dir_Cohe, by its answer
unfoldable pub respond : Params → Response → ℕ → ℕ → Dir → Result (Next × Dir)
respond pm dir_reply p a d = give_reply p a d
respond pm visit_mem p a d = give_reply p a d
respond pm wait_for_wrb p a d = dir_commit_req p d >>= (λ (e : Dir). ok (start_over, e))
respond pm wait_pend p a d =
    dir_commit_req p d >>= (λ (e : Dir). dir_add_buf e p >>= (λ (f : Dir). ok (start_over, f)))
respond pm wait_cnt p a d = tell_sharers pm p a d
respond pm forward_request p a d = forward pm p a d
respond pm _ p a d = fatal

-- DIRREQ. A request with `dirdone` set is fatal: the code goes on with a line that it has not set.
unfoldable pub dir_req : Params → ℕ → Dir → Result (Next × Dir)
dir_req pm p d =
    let r = d.reqs p in
    if r.preprocessed
    then (if d.was_pending then fatal else answer_at_once p (set_req d p (as_reply positive r)))
    else if r.dirdone
    then fatal
    else if ltb d.buftotsz d.bufmaxsz || ((d.buftotsz == d.bufmaxsz) && d.was_pending)
    then dir_cohe pm p d >>= (λ (c : Response × ℕ × Dir). respond pm c.0 p c.1 c.2)
    else answer_at_once p (set_req d p (as_reply rar r))

-- DIRSENDREQ
unfoldable pub dir_send_req : ℕ → Dir → Result (Next × Dir)
dir_send_req p d = add_out p d >>= (λ (e : Dir). ok (start_over, e))

-- DIROUTBOUND, which goes on with DIRSTART
abbrev pub frees_buffer : Kind → Answer → Bool
frees_buffer reply positive = true
frees_buffer reply rar = true
frees_buffer _ _ = false

unfoldable pub dir_outbound : ℕ → Dir → Result Dir
dir_outbound p d = add_out p d >>= (λ (e : Dir). ok (record e {
  buftotsz = if frees_buffer (e.reqs p).kind (e.reqs p).reply then e.buftotsz - 1 else e.buftotsz;
}))

-- the message to a sharer, in an object that YS__ReqPool has zeroed but for `forward_to`
unfoldable pub cohe_message : Dir → Req → DirEp → (n : ℕ) → Req
cohe_message d r x n = record {
  tag = r.tag;
  req_type = x.next_req_type;
  priority = 0;
  src_node = d.node_num;
  dest_node = x.node_ary n;
  forward_to = none;
  size_st = x.size_st;
  size_req = x.size_req;
  kind = cohe;
  reply = no_reply;
  dir = req_fwd;
  nack_st = x.nack_st;
  dirdone = false;
  preprocessed = false;
  in_port_num = 0;
  dir_item = r.dir_item;
  line_cold = false;
  handled = req_unknown;
  remote_miss = false;
}

-- the message to the sharer at an index of the array
unfoldable pub send_one : Params → ℕ → ℕ → DirEp → (n : ℕ) → Dir → Result (Next × Dir)
send_one pm p a x n d =
    let made = record (set_req d d.next_req (cohe_message d (d.reqs p) x n)) {
      next_req = d.next_req + 1;
    } in
    if has_room made d.next_req
    then add_out d.next_req made >>= (λ (e : Dir).
      let sent = set_line e a (record (e.lines a) { extra = some (record x { num_left = n }) }) in
      if n == 0
      then ok (start_over, record sent { req_partial = none })
      else ok (pause pm.addtl_pkt_crtime p sent))
    else ok (start_over, record d { req_partial = some p })

unfoldable pub send_next : Params → ℕ → ℕ → DirEp → (num_left : ℕ) → Dir → Result (Next × Dir)
send_next pm p a x zero d = fatal
send_next pm p a x (suc n) d = send_one pm p a x n d

unfoldable pub send_from : Params → ℕ → ℕ → Option DirEp → Dir → Result (Next × Dir)
send_from pm p a none d = fatal
send_from pm p a (some x) d = send_next pm p a x x.num_left d

unfoldable pub send_line : Params → ℕ → Option ℕ → Dir → Result (Next × Dir)
send_line pm p none d = fatal
send_line pm p (some a) d = send_from pm p a (d.lines a).extra d

-- DIRSENDCOHE: a forwarded request, or the next message of WAIT_CNT. The stub for remote writes, which
-- Dir_Cohe refuses, is left out.
unfoldable pub dir_send_cohe : Params → ℕ → Dir → Result (Next × Dir)
dir_send_cohe pm p d =
    if is_cohe (d.reqs p).kind
    then (if has_room d p
        then ok (send_req p, record d { req_partial = none })
        else ok (start_over, record d { req_partial = some p }))
    else send_line pm p (d.reqs p).dir_item d
