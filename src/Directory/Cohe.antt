-- ===== src/Directory/Cohe.antt =====
-- The coherence routine of the directory, `Dir_Cohe` (MemSys/directory.c): what a request or a
-- write-back does to its line, and how the directory goes on. The type of directory is always the full
-- map, and `copy` is left out, which nothing reads.
pub mod Lines
pub mod Invariant
pub mod Valid
pub mod Waiting
pub mod Owner
use rsim.Prelude.{
  ℕ, ◌+◌, ◌-◌, Bool, true, false, not, ◌&&◌, ◌||◌, Option, none, some, ◌++◌, [], ◌∷◌, ltb, ◌==◌,
  if◌then◌else◌, update,
}
use rsim.Prelude.Result.{Result, ok, fatal, ◌>>=◌}
use rsim.Req.{ReqType, Protocol, mesi, msi}
use rsim.Directory.{
  LineState, uncached, dir_shared, dir_private, Response, wait_cnt, wait_pend, visit_mem, dir_reply,
  special_reply, forward_request, ack_reply, wait_for_wrb, request, no_reply, req_fwd, nack_ok,
  nack_nok, Req, DirEp, DirLine, Params, Dir, new_extra, set_req, set_line,
}
use rsim.Directory.Sharers.{add_fm, rm_all_add_fm, rm_all_fm, Search, find_fm}
use rsim.Directory.Table.{hash_lookup_fm}
use rsim.Directory.Buffer.{dir_queue_add}
use rsim.Directory.Pending.{
  is_wrb, same_node, put_both, set_extra, revived_by, revived, revive_req, met_pending,
  waiting_line, wait_wrb,
}

abbrev pub not_msi : Protocol → Bool
not_msi msi = false
not_msi mesi = true

-- what the directory sets up for the messages to the sharers or to the owner
abbrev pub to_owner : Params → DirEp → ReqType → (size_req : ℕ) → DirEp
to_owner pm x t size_req = record x {
  counter = 1;
  next_req_type = t;
  size_st = pm.req_sz;
  size_req = size_req;
  nack_st = nack_nok;
  ret_st = ack_reply;
}

abbrev pub to_sharers : Params → DirEp → Response → DirEp
to_sharers pm x ret = record x {
  next_req_type = ReqType.invl;
  size_st = pm.req_sz;
  size_req = pm.req_sz;
  nack_st = nack_ok;
  ret_st = ret;
}

-- a line that is given out for reading, alone or shared
abbrev pub granted : Bool → DirLine → DirLine
granted excl l = record l { state = if excl then dir_private else dir_shared }

abbrev pub grant_reply : Bool → ReqType
grant_reply excl = if excl then ReqType.reply_excl else ReqType.reply_sh

-- READ_SH, by the state of the line
unfoldable pub read_sh : Params → LineState → ℕ → ℕ → Dir → Result (Response × Dir)
read_sh pm uncached p a d =
    add_fm d (d.lines a) (d.reqs p).src_node (d.reqs p) >>= (λ (c : Bool × DirLine × Req).
      let excl = not_msi pm.cc_protocol in
      ok (
        visit_mem,
        put_both (set_extra d (record (d.extra) { counter = 0 })) a (granted excl c.1) p
            (record (c.2) { req_type = grant_reply excl }),
      ))
read_sh pm dir_shared p a d =
    add_fm d (d.lines a) (d.reqs p).src_node (d.reqs p) >>= (λ (c : Bool × DirLine × Req).
      let excl = c.0 && not_msi pm.cc_protocol in
      ok (
        visit_mem,
        put_both (set_extra d (record (d.extra) { counter = 0 })) a (granted excl c.1) p
            (record (c.2) { req_type = grant_reply excl }),
      ))
read_sh pm dir_private p a d =
    let s = find_fm d (d.lines a) (some d.extra.node_ary) (d.reqs p).src_node in
    let x = record (d.extra) { node_ary = s.node_ary } in
    if not (s.find == 1)
    then fatal
    else if s.node_copy
    then ok (wait_wrb p a (set_extra d x))
    else add_fm d (d.lines a) (d.reqs p).src_node (d.reqs p) >>= (λ (c : Bool × DirLine × Req). ok (
      forward_request,
      put_both (set_extra d (to_owner pm x ReqType.copyback (pm.req_sz + pm.linesz))) a
          (record (c.1) { state = dir_shared }) p c.2,
    ))

-- READ_OWN, by the state of the line
unfoldable pub read_own : Params → LineState → ℕ → ℕ → Dir → Result (Response × Dir)
read_own pm uncached p a d =
    add_fm d (d.lines a) (d.reqs p).src_node (d.reqs p) >>= (λ (c : Bool × DirLine × Req). ok (
      visit_mem,
      put_both (set_extra d (record (d.extra) { counter = 0 })) a
          (record (c.1) { state = dir_private }) p (record (c.2) { req_type = ReqType.reply_excl }),
    ))
read_own pm dir_shared p a d =
    let s = find_fm d (d.lines a) (some d.extra.node_ary) (d.reqs p).src_node in
    let others : ℕ = if s.node_copy then s.find - 1 else s.find in
    let x = record (d.extra) { node_ary = s.node_ary; counter = others } in
    if s.find == 0
    then fatal
    else rm_all_add_fm d (d.lines a) (d.reqs p).src_node (d.reqs p) >>= (λ (c : DirLine × Req).
      let e = λ (y : DirEp).
        put_both (set_extra d y) a (record (c.0) { state = dir_private }) p
          (record (c.1) { req_type = ReqType.reply_excl }) in
      if others == 0 then ok (visit_mem, e x) else ok (wait_cnt, e (to_sharers pm x special_reply)))
read_own pm dir_private p a d =
    let s = find_fm d (d.lines a) (some d.extra.node_ary) (d.reqs p).src_node in
    let x = record (d.extra) { node_ary = s.node_ary } in
    if not (s.find == 1)
    then fatal
    else if s.node_copy
    then ok (wait_wrb p a (set_extra d x))
    else rm_all_add_fm d (d.lines a) (d.reqs p).src_node (d.reqs p) >>= (λ (c : DirLine × Req). ok (
      forward_request,
      put_both (set_extra d (to_owner pm x ReqType.copyback_invl pm.req_sz)) a
          (record (c.0) { state = dir_private }) p c.1,
    ))

-- an UPGRADE that is made a READ_OWN
unfoldable pub as_read_own : Params → ℕ → ℕ → Dir → Result (Response × Dir)
as_read_own pm p a d = read_own pm (d.lines a).state p a (
    set_req d p
      (record (d.reqs p) { req_type = ReqType.read_own; size_req = pm.linesz + pm.req_sz }))

-- UPGRADE, by the state of the line
unfoldable pub upgrade : Params → LineState → ℕ → ℕ → Dir → Result (Response × Dir)
upgrade pm dir_shared p a d =
    let s = find_fm d (d.lines a) (some d.extra.node_ary) (d.reqs p).src_node in
    let x = record (d.extra) { node_ary = s.node_ary } in
    let y = record x { counter = s.find - 1 } in
    if s.find == 0
    then fatal
    else if not s.node_copy
    then as_read_own pm p a (set_extra d x)
    else rm_all_add_fm d (d.lines a) (d.reqs p).src_node (d.reqs p) >>= (λ (c : DirLine × Req).
      let e = λ (z : DirEp).
        put_both (set_extra d z) a (record (c.0) { state = dir_private }) p
          (record (c.1) { req_type = ReqType.reply_upgrade }) in
      if s.find - 1 == 0 then ok (dir_reply, e y) else ok (wait_cnt, e (to_sharers pm y dir_reply)))
upgrade pm _ p a d = as_read_own pm p a d

-- WRB and REPL, by the state of the line
unfoldable pub wrb_repl : LineState → ℕ → ℕ → Dir → Result (Response × Dir)
wrb_repl dir_private p a d =
    if not ((find_fm d (d.lines a) none (d.reqs p).src_node).find == 1)
    then fatal
    else rm_all_fm d (d.lines a) (d.reqs p).src_node
      >>= (λ (l : DirLine). ok (visit_mem, set_line d a (record l { state = uncached })))
wrb_repl uncached p a d = fatal
wrb_repl dir_shared p a d =
    rm_all_fm d (d.lines a) (d.reqs p).src_node
    >>= (λ (l : DirLine). ok (visit_mem, set_line d a (record l { state = uncached })))

-- the switch on the type of the request
unfoldable pub by_type : Params → ReqType → ℕ → ℕ → Dir → Result (Response × Dir)
by_type pm ReqType.read_sh p a d = read_sh pm (d.lines a).state p a d
by_type pm ReqType.upgrade p a d = upgrade pm (d.lines a).state p a d
by_type pm ReqType.read_own p a d = read_own pm (d.lines a).state p a d
by_type pm ReqType.wrb p a d = wrb_repl (d.lines a).state p a d
by_type pm ReqType.repl p a d = wrb_repl (d.lines a).state p a d
by_type pm _ p a d = fatal

-- the test of `extra` for a line that is pending
unfoldable pub on_pending : Params → ReqType → ℕ → ℕ → Dir → Option DirEp → Result (Response × Dir)
on_pending pm t p a d none = ok (wait_pend, d)
on_pending pm t p a d (some x) =
    if is_wrb t then met_pending p a x d >>= by_type pm t p a else ok (wait_pend, d)

-- `Dir_Cohe` from the test of `pend` on
unfoldable pub cohe_line : Params → ℕ → ℕ → Dir → Result (Response × Dir)
cohe_line pm p a d =
    let t = (d.reqs p).req_type in
    if (d.lines a).pend then on_pending pm t p a d (d.lines a).extra else by_type pm t p a d

-- `Dir_Cohe`: the answer, the address of the line, and the directory
unfoldable pub dir_cohe : Params → ℕ → Dir → Result (Response × ℕ × Dir)
dir_cohe pm p d =
    let found = hash_lookup_fm (d.reqs p).tag d in
    cohe_line pm p found.0 found.1 >>= (λ (out : Response × Dir). ok (out.0, found.0, out.1))
