-- ===== src/Mshr/Search.antt =====
-- `FindInMshrEntries` (MemSys/mshr.c): its result against the meaning of a match.
use rsim.Prelude.{
  ℕ, ◌<◌, ◌≡◌, sym, ◌≢◌, ◌↔◌, ◌∙◌, ap, true, false, none, some, arith, ◌==◌, Bool-cases, inl, inr,
  Option-cases, eq_of_==,
}
use rsim.Mshr.{Params, Sim, find_in_mshr_entries, find_match, holds_tag}
use rsim.Mshr.Count.{count_valid-zero, find_match-some, find_match-none}
use rsim.Mshr.Invariant.{IsValid, mshr_of, main_tag}

-- The MSHR `i` is for the line with the tag.
pub record Holds (s : Sim) (tag i : ℕ) : Type 0 where
  pub in_range : i < s.cache.max_mshrs
  pub valid : (mshr_of s i).valid ≡ true
  pub same_tag : main_tag s i ≡ tag

find_match-Holds :
    (s : Sim) (tag i : ℕ)
    → find_match s.reqs s.cache.mshrs tag s.cache.max_mshrs 0 ≡ some i
    → Holds s tag i
find_match-Holds s tag i e =
    let r = find_match-some s.reqs s.cache.mshrs tag s.cache.max_mshrs 0 i e in
    let held : holds_tag s.reqs (mshr_of s i) tag ≡ true = r.1 in
    record { in_range = omega (arith, r.0); valid = ground arith; same_tag = ground arith }

pub find_in_mshr_entries-Holds :
    (s : Sim) (tag i : ℕ) → find_in_mshr_entries s tag ≡ some i → Holds s tag i
unfolding find_in_mshr_entries
find_in_mshr_entries-Holds s tag i e = elim (Bool-cases (s.cache.mshr_count == 0)) [
  | inl y ↦ let e' : none ≡ some i = rw y at e in cc
  | inr n ↦ find_match-Holds s tag i (rw n at e)
]

-- Without a match no valid MSHR has the tag.
pub find_in_mshr_entries-none :
    {pm : Params} (s : Sim) (tag : ℕ)
    → IsValid pm s
    → find_in_mshr_entries s tag ≡ none
    → (j : ℕ) → j < s.cache.max_mshrs
    → (mshr_of s j).valid ≡ true
    → main_tag s j ≢ tag
unfolding find_in_mshr_entries
find_in_mshr_entries-none s tag h e j lt v same = elim (Bool-cases (s.cache.mshr_count == 0)) [
  | inl y ↦
      let z =
        count_valid-zero s.cache.mshrs s.cache.max_mshrs j
          (sym h.counted ∙ eq_of_== s.cache.mshr_count 0 y) lt in
      let bad : true ≡ false = sym v ∙ z in cc
  | inr n ↦
      let missed : holds_tag s.reqs (mshr_of s j) tag ≡ false =
        find_match-none s.reqs s.cache.mshrs tag s.cache.max_mshrs 0 (rw n at e) j (omega arith)
          (omega arith) in
      ground arith
]

-- Where the invariant holds, `FindInMshrEntries` gives an MSHR exactly if it is valid, in range and
-- for the line with the tag.
pub find_in_mshr_entries_iff :
    {pm : Params} (s : Sim) (tag i : ℕ)
    → IsValid pm s
    → (find_in_mshr_entries s tag ≡ some i) ↔ Holds s tag i
find_in_mshr_entries_iff s tag i h = (
  find_in_mshr_entries-Holds s tag i,
  λ k. elim (Option-cases (find_in_mshr_entries s tag)) [
    | inl e ↦ absurd (find_in_mshr_entries-none s tag h e i k.in_range k.valid k.same_tag)
    | inr p ↦
        let q = find_in_mshr_entries-Holds s tag p.0 p.1 in
        let same =
          h.unique p.0 i q.in_range k.in_range q.valid k.valid (q.same_tag ∙ sym k.same_tag) in
        p.1 ∙ ap some same
  ],
)
