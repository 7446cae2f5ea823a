-- ===== src/Directory/Pending.antt =====
-- Requests that wait at a line of the directory for a write-back, in `Dir_Cohe` (MemSys/directory.c).
use rsim.Prelude.{
  ℕ, ◌+◌, ◌-◌, Bool, true, false, not, Option, none, some, ◌==◌, if◌then◌else◌, update,
}
use rsim.Prelude.Result.{Result, ok, fatal}
use rsim.Req.{ReqType}
use rsim.Directory.{
  Response, wait_for_wrb, request, no_reply, req_fwd, Req, DirEp, DirLine, Dir, new_extra, set_req,
  set_line,
}
use rsim.Directory.Buffer.{dir_queue_add}

-- WRB and REPL
abbrev pub is_wrb : ReqType → Bool
is_wrb ReqType.wrb = true
is_wrb ReqType.repl = true
is_wrb _ = false

abbrev pub same_node : Option ℕ → ℕ → Bool
same_node none n = false
same_node (some m) n = m == n

-- the line and the request at once
abbrev pub put_both : Dir → ℕ → DirLine → ℕ → Req → Dir
put_both d a l p r = set_req (set_line d a l) p r

abbrev pub set_extra : Dir → DirEp → Dir
set_extra d x = record d { extra = x }

-- the original request, made a REQUEST again if it had been forwarded
unfoldable pub revived_by : Req → Bool → Option ℕ → Req
revived_by t dirdone none = record t { dirdone = dirdone }
revived_by t dirdone (some n) = record t {
  src_node = n;
  reply = no_reply;
  kind = request;
  dirdone = false;
  dir = req_fwd;
}

unfoldable pub revived : Req → Bool → Req
revived t dirdone = revived_by t dirdone t.forward_to

-- the request that a write-back has been waited for becomes ready
unfoldable pub revive_req : ℕ → ℕ → DirEp → Dir → Option ℕ → Result Dir
revive_req p a x d none = fatal
revive_req p a x d (some t) =
    let l = d.lines a in
    let dirdone = not ((d.reqs p).src_node == (d.reqs t).src_node) in
    if x.counter == 1
    then ok
        (record (set_line d a
          (record l { extra = some (record x { waiting_for = none; counter = 0 }) })) {
            wait_cntsz = d.wait_cntsz - 1;
            reqs = update d.reqs t (revived (d.reqs t) dirdone);
            bufsz_rdy = d.bufsz_rdy + 1;
            ready_reqs = dir_queue_add d.ready_reqs t;
          })
    else fatal

-- a write-back to a line with a transaction in flight
unfoldable pub met_pending : ℕ → ℕ → DirEp → Dir → Result Dir
met_pending p a x d =
    let src : ℕ = (d.reqs p).src_node in
    if x.waiting
    then (if same_node x.waiting_for src then revive_req p a x d x.pend_req else fatal)
    else ok (set_line d a (record (d.lines a) { extra = some (record x { was_here = some src }) }))

-- The request has overtaken the write-back of its own node: the line waits for that (WAITFORWRB).
abbrev pub waiting_line : ℕ → ℕ → Dir → DirLine
waiting_line p a d = record (d.lines a) {
  pend = true;
  extra = some (record (d.extra) {
    counter = 1;
    waiting_for = some (d.reqs p).src_node;
    waiting = true;
    pend_req = some p;
  });
}

unfoldable pub wait_wrb : ℕ → ℕ → Dir → Response × Dir
wait_wrb p a d = (
  wait_for_wrb,
  record (set_line d a (waiting_line p a d)) {
    wait_cntsz = d.wait_cntsz + 1;
    buftotsz = if d.was_pending then d.buftotsz else d.buftotsz + 1;
    extra = new_extra;
  },
)
