-- ===== src/Mshr/Preserve.antt =====
-- `notpres_mshr` (MemSys/mshr.c) as a whole: the invariant of the MSHRs holds after it.
use rsim.Prelude.{
  ℕ, ◌+◌, ◌<◌, ◌≡◌, refl, sym, ◌≢◌, ◌∙◌, ap, true, ◌&&◌, Option, none, some, arith, ◌==◌, update_ne,
  update_self, if_elim, Option-cases, inl, inr, leb, ne_of_==,
}
use rsim.Prelude.Result.{ok, fatal, OnOk, OnOk-eq, OnOk->>=, OnOk-map}
use rsim.Req.{ReqType, CacheLineState, is_req}
use rsim.Coherence.{Outcome}
use rsim.Cache.{ReqPtr, Req, Stat, TransType, request, reply, cohe, cohe_reply}
use rsim.Cache.Lookup.{Found, notpres}
use rsim.Cache.CoheRoutine.{Access, AddrMap, cache_get_cohe_type}
use rsim.Mshr.{
  Response, nomshr, nomshr_stall, nomshr_stall_wrbbuf_full, mshr_stall_war, mshr_stall_coal,
  mshr_stall_wrb, mshr_stall_cohe, Params, Sim, main_of, count_stat, find_free,
  find_in_mshr_entries,
}
use rsim.Mshr.Request.{
  book, allocate_mshr, respond, request_unmatched, request_typed, typed_state, cur_state_of, typed,
  is_second, is_wt, is_read, is_hit, bypasses, service, bypass,
}
use rsim.Mshr.CoheCase.{cohe_case, is_victim}
use rsim.Mshr.Dispatch.{
  coalesce, try_coalesce, request_matched, request_case, notpres_mshr, dispatched, by_type,
  stall_on_war, is_war, cohe_blocks, prefetch_match,
}
use rsim.Mshr.Count.{find_free-some}
use rsim.Mshr.Invariant.{IsValid, IsFresh, Keeps, Keeps-IsValid, Keeps-IsFresh, mshr_of, main_tag}
use rsim.Mshr.Keep.{
  count_stat-Keeps, stall_on_war-Keeps, prefetch_match-Keeps, service-Keeps, bypass-Keeps,
  cohe_case-Keeps, tagged-Keeps,
}
use rsim.Mshr.Search.{find_in_mshr_entries-none, find_in_mshr_entries-Holds}
use rsim.Mshr.Grow.{coalesce-IsValid, book-IsValid, IsFree}

-- A response leaves a state that satisfies the invariant.
pub Safe : Params → Response × Sim → Type 0
Safe pm out = IsValid pm out.1

safe : {pm : Params} {t : Sim} (r : Response) → IsValid pm t → Safe pm (r, t)
unfolding Safe
safe r h = h

pub IsValid-Safe : {pm : Params} (out : Response × Sim) → Safe pm out → IsValid pm out.1
unfolding Safe
IsValid-Safe out h = h

pub Safe-IsValid : {pm : Params} (out : Response × Sim) → IsValid pm out.1 → Safe pm out
unfolding Safe
Safe-IsValid out h = h

module _ {pm : Params} {s : Sim} (h : IsValid pm s) (rp : ReqPtr) (fresh : IsFresh s rp) where
  by : (out : Response × Sim) → Keeps rp s out.1 → Safe pm out
  by out k = Safe-IsValid out (Keeps-IsValid k fresh h)

  by_stat : (r : Response) (f : Stat → Stat) → Safe pm (r, count_stat pm f s)
  by_stat r f =
      Safe-IsValid (r, count_stat pm f s) (Keeps-IsValid (count_stat-Keeps rp pm f s) fresh h)

  pub try_coalesce-Safe :
      (f : Found) (i : ℕ)
      → i < s.cache.max_mshrs
      → (mshr_of s i).valid ≡ true
      → Safe pm (try_coalesce pm s rp f i)
  unfolding try_coalesce
  try_coalesce-Safe f i lt v =
      if_elim (Safe pm)
        (is_wt s.cache.level && (is_hit f.presence && is_read (s.reqs rp).prcr_req_type))
        (λ _. safe nomshr h)
        (λ _.
          if_elim (Safe pm) (mshr_of s i).stall_war
            (λ _.
              by_stat mshr_stall_war
                (λ t. record t { pipe_stall_mshr_war = t.pipe_stall_mshr_war + 1 }))
            (λ _.
              if_elim (Safe pm) (is_war s.cache (s.reqs rp) (main_of s (mshr_of s i)))
                (λ _.
                  by (stall_on_war pm s (s.reqs rp) i) (stall_on_war-Keeps pm s rp (s.reqs rp) i))
                (λ _.
                  if_elim (Safe pm) ((mshr_of s i).counter == pm.max_coals)
                    (λ _.
                      by_stat mshr_stall_coal
                        (λ t. record t { pipe_stall_mshr_coal = t.pipe_stall_mshr_coal + 1 }))
                    (λ ne. Safe-IsValid (coalesce pm s rp i) (
                      coalesce-IsValid h rp i lt v
                        (ne_of_== (mshr_of s i).counter pm.max_coals ne))))))

  pub request_matched-Safe :
      (f : Found) (i : ℕ)
      → i < s.cache.max_mshrs
      → (mshr_of s i).valid ≡ true
      → Safe pm (request_matched pm s rp f i)
  unfolding request_matched
  request_matched-Safe f i lt v =
      let main = main_of s (mshr_of s i) in
      let rest = try_coalesce-Safe f i lt v in
      let settled : Safe pm
          (elim (prefetch_match s rp main) [ some out ↦ out | none ↦ try_coalesce pm s rp f i ]) =
        elim (Option-cases (prefetch_match s rp main)) [
          | inl e ↦ rw e rest
          | inr p ↦ rw p.1 (by p.0 (prefetch_match-Keeps s rp main p.0 p.1))
        ] in
      if_elim (Safe pm) (is_victim main.req_type)
        (λ _.
          by_stat mshr_stall_wrb
            (λ t. record t { pipe_stall_wrb_match = t.pipe_stall_wrb_match + 1 }))
        (λ _.
          if_elim (Safe pm) (cohe_blocks (mshr_of s i) main)
            (λ _.
              by_stat mshr_stall_cohe
                (λ t. record t { pipe_stall_mshr_cohe = t.pipe_stall_mshr_cohe + 1 }))
            (λ _. if_elim (Safe pm) (is_second s.cache.level) (λ _. rest) (λ _. settled)))

-- No MSHR is for the line of the request.
abbrev IsNew : Sim → ReqPtr → Type 0
IsNew s rp =
    (j : ℕ) → j < s.cache.max_mshrs → (mshr_of s j).valid ≡ true → main_tag s j ≢ (s.reqs rp).tag

IsFree-found :
    (s : Sim) (rp : ReqPtr) (i : ℕ)
    → IsNew s rp
    → find_free s.cache.mshrs s.cache.max_mshrs 0 ≡ some i
    → IsFree s rp i
IsFree-found s rp i new found =
    let r = find_free-some s.cache.mshrs s.cache.max_mshrs 0 i found in
    record { in_range = omega (arith, r.0); free = r.1; new_tag = new }

module _ {pm : Params} {s : Sim} (h : IsValid pm s) (rp : ReqPtr) (fresh : IsFresh s rp)
    (new : IsNew s rp) where
  abbrev free : Option ℕ
  free = find_free s.cache.mshrs s.cache.max_mshrs 0

  pub allocate_mshr-Safe :
      (f : Found) (o : Outcome) → OnOk (Safe pm) (allocate_mshr pm s rp f o free)
  unfolding allocate_mshr
  allocate_mshr-Safe f o =
      let P = OnOk (Safe pm) in
      let go : P (elim free [ none ↦ fatal | some i ↦ ok (book s rp f o i) ]) =
        elim (Option-cases free) [
          | inl e ↦ rw e tt
          | inr p ↦ rw p.1 (
              Safe-IsValid (book s rp f o p.0)
                (book-IsValid h rp f o p.0 fresh (IsFree-found s rp p.0 new p.1)))
        ] in
      if_elim P (s.cache.mshr_count == s.cache.max_mshrs)
        (λ _.
          by_stat h rp fresh nomshr_stall
            (λ t. record t { pipe_stall_mshr_full = t.pipe_stall_mshr_full + 1 }))
        (λ _.
          if_elim P
            (is_second s.cache.level
              && leb pm.wrb_buf_size (s.cache.wrb_buf_used + s.cache.mshr_count))
            (λ _.
              by_stat h rp fresh nomshr_stall_wrbbuf_full
                (λ t. record t { pipe_stall_wrbbuf_full = t.pipe_stall_wrbbuf_full + 1 }))
            (λ _. go))

  pub respond-Safe :
      (f : Found) (st : CacheLineState) (o : Outcome) → OnOk (Safe pm) (respond pm s rp f st free o)
  unfolding respond
  respond-Safe f st o =
      let P = OnOk (Safe pm) in
      if_elim P (is_req o.nxt_mod_req ReqType.bad_req_type)
        (λ _. by h rp fresh (service pm s rp f st o) (service-Keeps pm s rp f st o))
        (λ _.
          if_elim P (bypasses s.cache.level (s.reqs rp).prcr_req_type)
            (λ _. by h rp fresh (bypass s rp f o) (bypass-Keeps s rp f o))
            (λ _. allocate_mshr-Safe f o))

typed_state-Keeps : (s : Sim) (rp : ReqPtr) (a : Access × AddrMap) → Keeps rp s (typed_state s rp a)
typed_state-Keeps s rp a = record {
  size = refl;
  count = refl;
  valid = λ i. refl;
  main = λ i. refl;
  counter = λ i. refl;
  tags = λ p n. ap (λ q. q.tag) (update_ne s.reqs rp p (typed (s.reqs rp) a.0) n);
}

module _ {pm : Params} {s : Sim} (h : IsValid pm s) (rp : ReqPtr) (fresh : IsFresh s rp) where
  typed_state-IsNew : (a : Access × AddrMap) → IsNew s rp → IsNew (typed_state s rp a) rp
  typed_state-IsNew a new j lt v e =
      let r = typed (s.reqs rp) a.0 in
      new j lt v (
        sym (ap (λ q. q.tag) (update_ne s.reqs rp (mshr_of s j).mainreq r (fresh j lt v)))
        ∙ (e ∙ ap (λ q. q.tag) (update_self s.reqs rp r)))

  request_typed-Safe :
      (f : Found) (a : Access × AddrMap)
      → IsNew s rp
      → OnOk (Safe pm) (request_typed pm s rp f (find_free s.cache.mshrs s.cache.max_mshrs 0) a)
  unfolding request_typed
  request_typed-Safe f a new =
      let st = cur_state_of s f in
      let free = find_free s.cache.mshrs s.cache.max_mshrs 0 in
      let k = typed_state-Keeps s rp a in
      OnOk->>= (Safe pm) (s.cache.cohe_rtn st a.0.allo_type (s.reqs rp).req_type a.0.cohe_type)
        (respond pm (typed_state s rp a) rp f st free)
        (λ o _.
          respond-Safe (Keeps-IsValid k fresh h) rp (Keeps-IsFresh k fresh)
            (typed_state-IsNew a new) f st o)

  pub request_unmatched-Safe :
      (f : Found)
      → IsNew s rp
      → OnOk (Safe pm) (request_unmatched pm s rp f (find_free s.cache.mshrs s.cache.max_mshrs 0))
  unfolding request_unmatched
  request_unmatched-Safe f new =
      OnOk->>= (Safe pm)
        (cache_get_cohe_type pm.num_nodes s.addrs s.cache f.presence f.set_ind (s.reqs rp).address)
        (request_typed pm s rp f (find_free s.cache.mshrs s.cache.max_mshrs 0))
        (λ a _. request_typed-Safe f a new)

  pub request_case-Safe :
      OnOk (Safe pm) (request_case pm s rp (find_in_mshr_entries s (s.reqs rp).tag))
  unfolding request_case
  request_case-Safe =
      let f = notpres (s.reqs rp).address s.cache in
      elim (Option-cases (find_in_mshr_entries s (s.reqs rp).tag)) [
        | inl e ↦ rw e (request_unmatched-Safe f (find_in_mshr_entries-none s _ h e))
        | inr p ↦
            let k = find_in_mshr_entries-Holds s _ p.0 p.1 in
            rw p.1 (request_matched-Safe h rp fresh f p.0 k.in_range k.valid)
      ]

  pub cohe_case-Safe : (r : Req) (match : Option ℕ) → OnOk (Safe pm) (cohe_case s r match)
  cohe_case-Safe r match =
      OnOk-map (λ out. Keeps rp s out.1) (Safe pm) (cohe_case s r match)
        (λ out k. by h rp fresh out k) (cohe_case-Keeps rp s r match)

  by_type-Safe :
      (t : TransType) → OnOk (Safe pm) (by_type pm s rp (find_in_mshr_entries s (s.reqs rp).tag) t)
  unfolding by_type
  by_type-Safe request = request_case-Safe
  by_type-Safe reply = tt
  by_type-Safe cohe = cohe_case-Safe (s.reqs rp) _
  by_type-Safe cohe_reply = cohe_case-Safe (s.reqs rp) _

notpres_mshr-Safe :
    {pm : Params} {s : Sim} (rp : ReqPtr)
    → IsValid pm s
    → IsFresh s rp
    → OnOk (Safe pm) (notpres_mshr pm s rp)
unfolding notpres_mshr dispatched
notpres_mshr-Safe {pm} {s} rp h fresh =
    let k = tagged-Keeps s rp in by_type-Safe (Keeps-IsValid k fresh h) rp (Keeps-IsFresh k fresh) _

-- `notpres_mshr` keeps the invariant of the MSHRs: when it returns, for a request that is the main
-- request of no valid MSHR, the count is the number of valid MSHRs, none of them has more than
-- MAX_COALS coalesced requests, and no two are for one line.
pub notpres_mshr-IsValid :
    (pm : Params) (s : Sim) (rp : ReqPtr) (r : Response) (t : Sim)
    → IsValid pm s
    → IsFresh s rp
    → notpres_mshr pm s rp ≡ ok (r, t)
    → IsValid pm t
notpres_mshr-IsValid pm s rp r t h fresh e =
    IsValid-Safe (r, t)
      (OnOk-eq (Safe pm) (notpres_mshr pm s rp) (r, t) e (notpres_mshr-Safe rp h fresh))
