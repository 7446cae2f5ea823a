-- ===== src/Coherence/Safety.antt =====
-- What the coherence tables of MemSys/setup_cohe.c guarantee: which accesses a cache services by
-- itself, what demands from outside leave behind, and where a dirty line goes.
use rsim.Prelude.{◌+◌, ◌≡◌, refl, ◌≢◌, Bool, true, false, if◌then◌else◌, arith}
use rsim.Prelude.Result.{ok}
use rsim.Req.{ReqType, CacheLineState, bad_line_state, invalid, pr_dy, is_req, is_line, wb_nref}
use rsim.Coherence.Table.{Config}
use rsim.Coherence.{Outcome, cohe_sl, cohe_pr}
use rsim.Coherence.Levels.{Level, l1_wt, l1_wb, l2, routine}
use rsim.Coherence.Mesi.{is_private, mesi, kind, cohe_sl-eq-mesi}

-- a request that no lower module has to see
abbrev pub is_serviced : Outcome → Bool
is_serviced o = is_req o.nxt_mod_req ReqType.bad_req_type

-- A store that the L2 cache services by itself finds the line private and leaves it dirty; a store
-- that it cannot service leaves the state open and asks below for ownership: READ_OWN with the
-- line if it is absent, UPGRADE without it if it is shared.
pub store-permission :
    (c : Config) (s : CacheLineState) (allo : Bool) (o : Outcome)
    → cohe_sl c s allo ReqType.write wb_nref ≡ ok o
    → if is_serviced o
      then (is_private s ≡ true) × (o.nxt_st ≡ pr_dy)
      else (is_private s ≡ false)
        × (o.nxt_st ≡ bad_line_state)
        × (o.nxt_mod_req ≡ (if is_line s invalid then ReqType.read_own else ReqType.upgrade))
        × (o.rep_sz ≡ (if is_line s invalid then c.line_sz + c.req_sz else c.req_sz))
unfolding mesi kind
store-permission c bad_line_state allo o h =
    ground (arith, cohe_sl-eq-mesi c bad_line_state allo ReqType.write)
store-permission c s allo o h = ground (arith, cohe_sl-eq-mesi c s allo ReqType.write)

-- From PR_DY a write-back L1 cache and the L2 cache leave that state only for an INVL, which wants
-- no data, or with the whole line in the message below.
pub dirty_line_sent :
    (c : Config) (v : Level) (allo : Bool) (r : ReqType) (o : Outcome)
    → routine c v pr_dy allo r ≡ ok o
    → v ≢ l1_wt
    → o.nxt_st ≢ pr_dy
    → r ≢ ReqType.invl
    → o.req_sz ≡ c.line_sz + c.req_sz
unfolding mesi kind cohe_pr
dirty_line_sent c l1_wt allo r o e n d i = absurd (n refl)
dirty_line_sent c l1_wb allo ReqType.bad_req_type o e n d i = ground arith
dirty_line_sent c l1_wb allo _ o e n d i = ground arith
dirty_line_sent c l2 allo ReqType.bad_req_type o e n d i =
    ground (arith, cohe_sl-eq-mesi c pr_dy allo ReqType.bad_req_type)
dirty_line_sent c l2 allo r o e n d i = ground (arith, cohe_sl-eq-mesi c pr_dy allo r)
