-- ===== src/Mshr/Hazard.antt =====
-- The structural hazards of `notpres_mshr` (MemSys/mshr.c), and what a booked MSHR is found by.
use rsim.Prelude.{
  ℕ, ◌+◌, ◌<◌, ◌≡◌, sym, ◌≢◌, ◌↔◌, ◌∙◌, ap, Bool, true, false, ◌&&◌, Option, some, arith, ◌==◌,
  if_elim, update_self, Option-cases, inl, inr, eq_of_==, ne_of_==, leb,
}
use rsim.Prelude.Result.{Result, ok}
use rsim.Coherence.{Outcome}
use rsim.Cache.{ReqPtr, Cache}
use rsim.Cache.Lookup.{Found}
use rsim.Cache.Frame.{SameMshrs, hit_update-SameMshrs}
use rsim.Mshr.{
  Response, nomshr_stall, nomshr_stall_wrbbuf_full, Params, Sim, count_stat, set_req, set_cache,
  set_mshr, find_free, find_in_mshr_entries,
}
use rsim.Mshr.Request.{allocate_mshr, book, booked, count_booking, sent_as, is_second, is_hit}
use rsim.Mshr.Count.{count_valid-full, count_valid-all, find_free-none, find_free-some}
use rsim.Mshr.Invariant.{IsValid, IsFresh, mshr_of}
use rsim.Mshr.Search.{Holds, find_in_mshr_entries_iff}
use rsim.Mshr.Grow.{IsFree, book-IsValid, lock_line-SameMshrs}

abbrev pub free_of : Sim → Option ℕ
free_of s = find_free s.cache.mshrs s.cache.max_mshrs 0

module _ {pm : Params} {s : Sim} (h : IsValid pm s) where
  -- a free MSHR is found unless the count is at its limit
  free-found : s.cache.mshr_count ≢ s.cache.max_mshrs → (i : ℕ) × (free_of s ≡ some i)
  free-found ne = elim (Option-cases (free_of s)) [
    | inl e ↦
        let all = find_free-none s.cache.mshrs s.cache.max_mshrs 0 e in
        let full =
          count_valid-full s.cache.mshrs s.cache.max_mshrs
            (λ j lt. all j (omega arith) (omega arith)) in
        absurd (ne (h.counted ∙ full))
    | inr p ↦ p
  ]

  full_iff :
      (s.cache.mshr_count ≡ s.cache.max_mshrs)
      ↔ ((j : ℕ) → j < s.cache.max_mshrs → (mshr_of s j).valid ≡ true)
  full_iff = (
    λ e j lt. count_valid-all s.cache.mshrs s.cache.max_mshrs j (sym h.counted ∙ e) lt,
    λ all. h.counted ∙ count_valid-full s.cache.mshrs s.cache.max_mshrs all,
  )

-- the write buffer of an L2 cache has no entry left for one more miss
abbrev pub buffer_taken : Params → Sim → Bool
buffer_taken pm s =
    is_second s.cache.level && leb pm.wrb_buf_size (s.cache.wrb_buf_used + s.cache.mshr_count)

-- The three ways of `allocate_mshr`, none of which ends the simulation.
pub data Allocates (pm : Params) (s : Sim) (rp : ReqPtr) (f : Found) (o : Outcome)
    : Result (Response × Sim) → Type 0 where
  all_used :
      ((j : ℕ) → j < s.cache.max_mshrs → (mshr_of s j).valid ≡ true)
      → Allocates pm s rp f o (
          ok (
            nomshr_stall,
            count_stat pm (λ t. record t { pipe_stall_mshr_full = t.pipe_stall_mshr_full + 1 }) s,
          ))
  no_buffer :
      (i : ℕ)
      → i < s.cache.max_mshrs
      → (mshr_of s i).valid ≡ false
      → buffer_taken pm s ≡ true
      → Allocates pm s rp f o (
          ok (
            nomshr_stall_wrbbuf_full,
            count_stat pm
                (λ t. record t { pipe_stall_wrbbuf_full = t.pipe_stall_wrbbuf_full + 1 })
                s,
          ))
  books :
      (i : ℕ)
      → i < s.cache.max_mshrs
      → (mshr_of s i).valid ≡ false
      → buffer_taken pm s ≡ false
      → Allocates pm s rp f o (ok (book s rp f o i))

-- Where the invariant holds, `allocate_mshr` stalls for an MSHR exactly when all are valid, stalls
-- for the write buffer exactly when one is free but the buffer is taken, and books a free MSHR
-- otherwise: it never ends the simulation for want of one.
pub allocate_mshr-Allocates :
    (pm : Params) (s : Sim) (rp : ReqPtr) (f : Found) (o : Outcome)
    → IsValid pm s
    → Allocates pm s rp f o (allocate_mshr pm s rp f o (free_of s))
unfolding allocate_mshr
allocate_mshr-Allocates pm s rp f o h =
    let P = Allocates pm s rp f o in
    if_elim P (s.cache.mshr_count == s.cache.max_mshrs)
      (λ e. all_used ((full_iff h).0 (eq_of_== s.cache.mshr_count s.cache.max_mshrs e)))
      (λ ne.
        let p = free-found h (ne_of_== s.cache.mshr_count s.cache.max_mshrs ne) in
        let q = find_free-some s.cache.mshrs s.cache.max_mshrs 0 p.0 p.1 in
        let lt : p.0 < s.cache.max_mshrs = omega (arith, q.0) in
        if_elim P (buffer_taken pm s) (λ b. no_buffer p.0 lt q.1 b)
          (λ b. rw p.1 (books p.0 lt q.1 b)))

pub SameMshrs-Holds :
    {s : Sim} {c : Cache} {tag i : ℕ}
    → SameMshrs s.cache c
    → Holds s tag i
    → Holds (set_cache s c) tag i
SameMshrs-Holds e k = record {
  in_range = rw e.max_mshrs k.in_range;
  valid = rw e.mshrs k.valid;
  same_tag = rw e.mshrs k.same_tag;
}

-- the fields by which the booked MSHR is found
book-Holds :
    (s : Sim) (rp : ReqPtr) (f : Found) (o : Outcome) (i : ℕ)
    → i < s.cache.max_mshrs
    → Holds (book s rp f o i).1 (s.reqs rp).tag i
unfolding book
book-Holds s rp f o i lt =
    let r = s.reqs rp in
    let u = set_req s rp (sent_as r o) in
    let m = booked s.cache i rp r f in
    let c = set_mshr (count_booking s.cache) i m in
    let at_i = update_self s.cache.mshrs i m in
    let held : Holds (set_cache u c) r.tag i = record {
      in_range = lt;
      valid = ap (λ x. x.valid) at_i;
      same_tag =
          ap (λ x. (u.reqs x.mainreq).tag) at_i
          ∙ ap (λ q. q.tag) (update_self s.reqs rp (sent_as r o));
    } in
    if_elim (λ (out : Response × Sim). Holds out.1 r.tag i) (is_hit f.presence)
      (λ _.
        SameMshrs-Holds (lock_line-SameMshrs _ f.set_ind)
          (SameMshrs-Holds (hit_update-SameMshrs f.set_ind c f.set r) held))
      (λ _. held)

-- A request for which an MSHR is booked is found there: in a state that satisfies the invariant, if
-- the request is new to the MSHRs, the MSHR is free and no valid one is for the line, then after the
-- booking the search for the request's tag gives that MSHR.
pub find_in_mshr_entries-book :
    (pm : Params) (s : Sim) (rp : ReqPtr) (f : Found) (o : Outcome) (i : ℕ)
    → IsValid pm s
    → IsFresh s rp
    → IsFree s rp i
    → find_in_mshr_entries (book s rp f o i).1 (s.reqs rp).tag ≡ some i
find_in_mshr_entries-book pm s rp f o i h fresh k =
    (find_in_mshr_entries_iff _ _ i (book-IsValid h rp f o i fresh k)).1
      (book-Holds s rp f o i k.in_range)
