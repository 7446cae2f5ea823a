-- ===== src/Coherence.antt =====
-- The cache coherence tables and the routines that look an access up in them
-- (MemSys/setup_cohe.c): `cohe_pr` for an L1 cache, `cohe_sl` for an L2 cache.
pub mod Table
pub mod PrimaryWt
pub mod PrimaryWb
pub mod SecondaryWb
pub mod Levels
pub mod Mesi
pub mod Safety
mod Tests
use rsim.Prelude.{ℕ, Bool, false, not, ◌||◌, if◌then◌else◌}
use rsim.Prelude.Result.{Result, ok, fatal}
use rsim.Req.{ReqType, CacheLineState, invalid, CoheType, pr_wt, pr_wb, wb_nref, is_line}
use rsim.Coherence.Table.{Config, CoheTable}
use rsim.Coherence.PrimaryWt.{primary_wt}
use rsim.Coherence.PrimaryWb.{primary_wb}
use rsim.Coherence.SecondaryWb.{secondary_wb}

-- what the routines hand back through their pointer arguments
pub record Outcome : Type 0 where
  pub nxt_st : CacheLineState
  pub nxt_mod_req : ReqType
  pub req_sz : ℕ
  pub rep_sz : ℕ
  pub nxt_req : ReqType
  pub nxt_req_sz : ℕ
  pub allocate : Bool

-- The part that `cohe_sl` and `cohe_pr` share, from the test of `valid` on.
pub look_up : CoheTable → CacheLineState → Bool → ReqType → Result Outcome
look_up t cur_state allo_type req_type =
    let e = t req_type cur_state in
    if e.valid
    then ok (record {
      nxt_st = e.nxt_st;
      nxt_mod_req = e.nxt_mod_req;
      req_sz = e.req_sz;
      rep_sz = e.rep_sz;
      nxt_req = e.nxt_req;
      nxt_req_sz = e.nxt_req_sz;
      allocate = not (is_line cur_state invalid) || (allo_type || not e.noalloc);
    })
    else fatal

-- `cohe_sl`: the L2 cache supports the coherence type WB_NREF only.
unfoldable pub cohe_sl : Config → CacheLineState → Bool → ReqType → CoheType → Result Outcome
unfolding look_up secondary_wb
cohe_sl c cur_state allo_type req_type wb_nref =
    look_up (secondary_wb c) cur_state allo_type req_type
cohe_sl c cur_state allo_type req_type _ = fatal

-- `cohe_pr`: an L1 cache is write-through (PR_WT) or write-back (PR_WB).
unfoldable pub cohe_pr : Config → CacheLineState → Bool → ReqType → CoheType → Result Outcome
unfolding look_up primary_wt primary_wb
cohe_pr c cur_state allo_type req_type pr_wt = look_up (primary_wt c) cur_state allo_type req_type
cohe_pr c cur_state allo_type req_type pr_wb = look_up (primary_wb c) cur_state allo_type req_type
cohe_pr c cur_state allo_type req_type _ = fatal
