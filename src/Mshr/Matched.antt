-- ===== src/Mshr/Matched.antt =====
-- `notpres_mshr` on a REQUEST that matches an MSHR (MemSys/mshr.c): when it coalesces.
use rsim.Prelude.{
  ℕ, ◌+◌, ◌≡◌, refl, ◌≢◌, ◌∙◌, ap, false, ◌&&◌, ◌||◌, none, some, arith, ◌==◌, if_elim, update_self,
  Option-cases, inl, inr, ne_of_==,
}
use rsim.Cache.{ReqPtr, Req}
use rsim.Cache.Lookup.{Found}
use rsim.Mshr.{Response, mshr_coal, Params, Sim, main_of}
use rsim.Mshr.Request.{is_second, is_wt, is_read, is_hit, is_exclusive}
use rsim.Mshr.CoheCase.{is_victim}
use rsim.Mshr.Dispatch.{
  coalesce, joined, try_coalesce, request_matched, stall_on_war, is_war, cohe_blocks,
  prefetch_match,
}
use rsim.Mshr.Invariant.{mshr_of}

-- What has been tested when the request coalesces, and the outcome.
pub record Coalesced (pm : Params) (s : Sim) (rp : ReqPtr) (i : ℕ) (out : Response × Sim)
    : Type 0 where
  pub unmarked : (mshr_of s i).stall_war ≡ false
  pub no_war : is_war s.cache (s.reqs rp) (main_of s (mshr_of s i)) ≡ false
  pub room : (mshr_of s i).counter ≢ pm.max_coals
  pub outcome : out ≡ coalesce pm s rp i

module _ (pm : Params) (s : Sim) (rp : ReqPtr) (f : Found) (i : ℕ) where
  abbrev P : Response × Sim → Type 0
  P out = out.0 ≡ mshr_coal → Coalesced pm s rp i out

  stall_on_war-no_coal : (stall_on_war pm s (s.reqs rp) i).0 ≢ mshr_coal
  unfolding stall_on_war
  stall_on_war-no_coal e = grind arith

  try_coalesce-Coalesced : P (try_coalesce pm s rp f i)
  unfolding try_coalesce
  try_coalesce-Coalesced =
      if_elim P (is_wt s.cache.level && (is_hit f.presence && is_read (s.reqs rp).prcr_req_type))
        (λ _ e. (cc))
        (λ _.
          if_elim P (mshr_of s i).stall_war (λ _ e. (cc))
            (λ u.
              if_elim P (is_war s.cache (s.reqs rp) (main_of s (mshr_of s i)))
                (λ _ e. absurd (stall_on_war-no_coal e))
                (λ w.
                  if_elim P ((mshr_of s i).counter == pm.max_coals) (λ _ e. (cc))
                    (λ c _. record {
                      unmarked = u;
                      no_war = w;
                      room = ne_of_== (mshr_of s i).counter pm.max_coals c;
                      outcome = refl;
                    }))))

  prefetch_match-no_coal :
      (main : Req) (out : Response × Sim) → prefetch_match s rp main ≡ some out → out.0 ≢ mshr_coal
  unfolding prefetch_match
  prefetch_match-no_coal main out h e = grind arith

  pub request_matched-Coalesced : P (request_matched pm s rp f i)
  unfolding request_matched
  request_matched-Coalesced =
      let main = main_of s (mshr_of s i) in
      let rest = try_coalesce-Coalesced in
      let settled : P
          (elim (prefetch_match s rp main) [ some out ↦ out | none ↦ try_coalesce pm s rp f i ]) =
        elim (Option-cases (prefetch_match s rp main)) [
          | inl e ↦ rw e rest
          | inr p ↦ rw p.1 (λ e. absurd (prefetch_match-no_coal main p.0 p.1 e))
        ] in
      if_elim P (is_victim main.req_type) (λ _ e. (cc))
        (λ _.
          if_elim P (cohe_blocks (mshr_of s i) main) (λ _ e. (cc))
            (λ _. if_elim P (is_second s.cache.level) (λ _. rest) (λ _. settled)))

-- the MSHR with a request coalesced into it
joins :
    (pm : Params) (s : Sim) (rp : ReqPtr) (i : ℕ)
    → ((mshr_of (coalesce pm s rp i).1 i).counter ≡ (mshr_of s i).counter + 1)
      × ((mshr_of (coalesce pm s rp i).1 i).coal_req (mshr_of s i).counter ≡ rp)
unfolding coalesce
joins pm s rp i =
    let c = s.cache in
    let m = joined pm c (c.mshrs i) rp (s.reqs rp) in
    let at_i = update_self c.mshrs i m in
    (
      ap (λ x. x.counter) at_i,
      ap (λ x. x.coal_req (c.mshrs i).counter) at_i
          ∙ update_self (c.mshrs i).coal_req (c.mshrs i).counter rp,
    )

-- A request that `notpres_mshr` reports as coalesced into an MSHR stands behind its last one, where
-- there was room, and it asks for no more than the MSHR will bring: it is not an exclusive request in
-- a write-through cache or at an MSHR for a read.
pub request_matched-joins :
    (pm : Params) (s : Sim) (rp : ReqPtr) (f : Found) (i : ℕ)
    → (request_matched pm s rp f i).0 ≡ mshr_coal
    → ((mshr_of s i).counter ≢ pm.max_coals)
      × ((mshr_of (request_matched pm s rp f i).1 i).counter ≡ (mshr_of s i).counter + 1)
      × ((mshr_of (request_matched pm s rp f i).1 i).coal_req (mshr_of s i).counter ≡ rp)
      × ((is_exclusive (s.reqs rp).prcr_req_type
            && (is_wt s.cache.level || is_read (main_of s (mshr_of s i)).prcr_req_type))
          ≡ false)
request_matched-joins pm s rp f i e =
    let k = request_matched-Coalesced pm s rp f i e in
    let j = joins pm s rp i in (k.room, rw k.outcome j.0, rw k.outcome j.1, k.no_war)
