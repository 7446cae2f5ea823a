-- ===== src/Mshr.antt =====
-- The miss status holding registers (MemSys/mshr.c): what `notpres_mshr` works on, and the small
-- functions of the file. `Mshr/Request.antt`, `Mshr/CoheCase.antt` and `Mshr/Dispatch.antt` hold its
-- cases.
pub mod Request
pub mod CoheCase
pub mod Dispatch
pub mod Count
pub mod Invariant
pub mod Keep
pub mod Search
pub mod Grow
pub mod Preserve
pub mod Matched
pub mod Hazard
pub mod Retire
mod Tests
use rsim.Prelude.{
  ℕ, zero, suc, ◌+◌, ◌-◌, Bool, true, false, not, ◌&&◌, ◌||◌, Option, none, some, ltb, ◌==◌,
  if◌then◌else◌, update,
}
use rsim.Req.{ReqType, is_req}
use rsim.Cache.{ReqPtr, Req, Mshr, Cache, CacheLevel, Stat, TransType, cohe_reply}
use rsim.Cache.CoheRoutine.{AddrMap}

-- `enum MSHR_Response`
pub data Response : Type 0 where
  mshr_coal mshr_new mshr_fwd mshr_stall_war mshr_stall_cohe mshr_stall_coal mshr_stall_wrb :
      Response
  mshr_useless_fetch_in_progress : Response
  nomshr_stall nomshr_stall_conf nomshr_stall_cohe nomshr_stall_wrbbuf_full : Response
  nomshr_fwd nomshr_pfbuf nomshr : Response

-- The globals that the code reads: YS__NumNodes, MAX_COALS, wrb_buf_size, DISCRIMINATE_PREFETCH,
-- L1TYPE, MemsimStatOn, and YS__Simtime in cycles.
pub record Params : Type 0 where
  pub num_nodes : ℕ
  pub max_coals : ℕ
  pub wrb_buf_size : ℕ
  pub discriminate_prefetch : Bool
  pub l1_type : CacheLevel
  pub memsim_stat_on : Bool
  pub simtime : ℕ

-- the cache, the requests by address, and the address map
pub record Sim : Type 0 where
  pub cache : Cache
  pub reqs : ℕ → Req
  pub addrs : AddrMap

abbrev pub set_req : Sim → ReqPtr → Req → Sim
set_req s p r = record s { reqs = update s.reqs p r }

abbrev pub set_cache : Sim → Cache → Sim
set_cache s c = record s { cache = c }

abbrev pub set_mshr : Cache → ℕ → Mshr → Cache
set_mshr c i m = record c { mshrs = update c.mshrs i m }

-- `if (MemsimStatOn) captr->stat.X++`
abbrev pub count_stat : Params → (Stat → Stat) → Sim → Sim
count_stat pm f s =
    if pm.memsim_stat_on then set_cache s (record (s.cache) { stat = f s.cache.stat }) else s

abbrev pub main_of : Sim → Mshr → Req
main_of s m = s.reqs m.mainreq

-- a valid MSHR whose main request has the tag
abbrev pub holds_tag : (ℕ → Req) → Mshr → ℕ → Bool
holds_tag reqs m tag = m.valid && tag == (reqs m.mainreq).tag

-- the loop that looks for a match, by the rounds left
pub find_match : (ℕ → Req) → (ℕ → Mshr) → (tag : ℕ) → ℕ → ℕ → Option ℕ
find_match reqs mshrs tag zero i = none
find_match reqs mshrs tag (suc n) i =
    let rest = find_match reqs mshrs tag n (i + 1) in
    if holds_tag reqs (mshrs i) tag then some i else rest

-- the loop that looks for a free MSHR
pub find_free : (ℕ → Mshr) → ℕ → ℕ → Option ℕ
find_free mshrs zero i = none
find_free mshrs (suc n) i =
    let rest = find_free mshrs n (i + 1) in if (mshrs i).valid then rest else some i

-- `FindInMshrEntries`, which is also how `notpres_mshr` begins; `none` for -1
pub find_in_mshr_entries : Sim → (tag : ℕ) → Option ℕ
unfolding find_match
find_in_mshr_entries s tag =
    if s.cache.mshr_count == 0
    then none
    else find_match s.reqs s.cache.mshrs tag s.cache.max_mshrs 0

-- `GetCoheReq`
pub get_cohe_req : Cache → (mshr_num : ℕ) → ReqType
get_cohe_req c mshr_num = (c.mshrs mshr_num).pend_cohe_type

-- `RemoveMSHR`: `subst` is the request that takes the MSHR over, if any.
pub uncount : Sim → (mshr_num : ℕ) → Cache
uncount s mshr_num =
    let c = s.cache in
    let m = c.mshrs mshr_num in
    elim (main_of s m).trans [
      | cohe_reply ↦ c
      | _ ↦ record c {
        reqmshr_count = c.reqmshr_count - 1;
        reqs_at_mshr_count = c.reqs_at_mshr_count - (m.counter + 1);
      }
    ]

pub remove_mshr : Sim → (mshr_num : ℕ) → (subst : Option ReqPtr) → Sim
unfolding uncount
remove_mshr s mshr_num subst =
    let c = uncount s mshr_num in
    let m = c.mshrs mshr_num in
    elim subst [
      | none ↦ set_cache s (record (set_mshr c mshr_num (record m { valid = false })) {
        mshr_count = c.mshr_count - 1;
      })
      | some r ↦ set_cache s (set_mshr c mshr_num (record m { mainreq = r }))
    ]
