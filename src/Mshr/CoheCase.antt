-- ===== src/Mshr/CoheCase.antt =====
-- `notpres_mshr` on a COHE or a COHE_REPLY (MemSys/mshr.c).
use rsim.Prelude.{ℕ, Bool, true, false, not, ◌&&◌, Option, none, some, if◌then◌else◌}
use rsim.Prelude.Result.{Result, ok, fatal}
use rsim.Req.{ReqType, is_req}
use rsim.Cache.{Req, TransType, cohe_reply, ReplyType, ack}
use rsim.Mshr.{Response, mshr_coal, mshr_fwd, nomshr, Sim, set_cache, set_mshr, main_of}
use rsim.Mshr.Request.{is_read, is_wt, is_wb, is_second}

abbrev pub is_victim : ReqType → Bool
is_victim ReqType.wrb = true
is_victim ReqType.repl = true
is_victim _ = false

abbrev pub is_cohe_reply : TransType → Bool
is_cohe_reply cohe_reply = true
is_cohe_reply _ = false

abbrev pub is_ack : ReplyType → Bool
is_ack ack = true
is_ack _ = false

-- the coherence message is kept in the MSHR for later
abbrev pub pend : Sim → ℕ → ReqType → Sim
pend s i t = set_cache s (set_mshr s.cache i (record (s.cache.mshrs i) { pend_cohe_type = t }))

-- The MSHR `i` waits for a line to read.
unfoldable pub cohe_on_read : Sim → Req → (i : ℕ) → Response × Sim
cohe_on_read s r i =
    if is_cohe_reply r.trans
    then (if not (is_victim r.req_type)
        then (mshr_coal, (if r.nack_nok then s else pend s i r.req_type))
        else (nomshr, pend s i ReqType.invl))
    else (mshr_coal, s)

-- The MSHR `i` waits for a private line.
unfoldable pub cohe_on_exclusive : Sim → Req → (i : ℕ) → Response × Sim
cohe_on_exclusive s r i =
    if r.nack_nok && is_cohe_reply r.trans
    then (mshr_coal, (if is_wt s.cache.level then pend s i r.req_type else s))
    else (mshr_fwd, s)

-- a WRB or REPL on its way back that meets an MSHR
abbrev pub meets_victim : Req → Bool
meets_victim r = is_cohe_reply r.trans && is_victim r.req_type

abbrev pub is_stale_wrb : Sim → Req → Bool
is_stale_wrb s r =
    is_second s.cache.level && (is_req r.req_type ReqType.wrb && not (is_ack r.reply_st))

unfoldable pub cohe_matched : Sim → Req → (i : ℕ) → Result (Response × Sim)
unfolding cohe_on_read cohe_on_exclusive
cohe_matched s r i =
    let go =
      if is_read (main_of s (s.cache.mshrs i)).prcr_req_type
      then cohe_on_read s r i
      else cohe_on_exclusive s r i in
    if meets_victim r
    then (if is_stale_wrb s r
        then ok (nomshr, s)
        else if not (is_wb s.cache.level)
        then fatal
        else ok go)
    else ok go

unfoldable pub cohe_case : Sim → Req → Option ℕ → Result (Response × Sim)
unfolding cohe_matched
cohe_case s r none = ok (nomshr, s)
cohe_case s r (some i) = cohe_matched s r i
