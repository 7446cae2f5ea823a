-- ===== src/Mshr/Retire.antt =====
-- `RemoveMSHR` (MemSys/mshr.c).
use rsim.Prelude.{
  ℕ, ◌-◌, ◌<◌, ◌≡◌, refl, sym, ◌≢◌, ◌∙◌, ap, true, false, none, some, arith, update, update_ne,
  update_self, Option-cases, inl, inr,
}
use native.Mathlib.Decide.{ℕ_discrete}
use rsim.Cache.{ReqPtr, Mshr, Cache}
use rsim.Cache.Frame.{SameMshrs}
use rsim.Mshr.{Params, Sim, set_cache, set_mshr, uncount, remove_mshr, find_in_mshr_entries}
use rsim.Mshr.Count.{count_valid-free, count_valid_cong}
use rsim.Mshr.Invariant.{IsValid, mshr_of, main_tag}
use rsim.Mshr.Search.{Holds, find_in_mshr_entries_iff, find_in_mshr_entries-Holds}
use rsim.Mshr.Hazard.{SameMshrs-Holds}
use rsim.Mshr.Grow.{SameMshrs-IsValid}

uncount-SameMshrs : (s : Sim) (i : ℕ) → SameMshrs s.cache (uncount s i)
unfolding uncount
uncount-SameMshrs s i = ground arith

-- the MSHR `i`, given back, and handed over
abbrev unused : Sim → ℕ → Mshr
unused s i = record (s.cache.mshrs i) { valid = false }

abbrev handed : Sim → ℕ → ReqPtr → Mshr
handed s i r = record (s.cache.mshrs i) { mainreq = r }

abbrev freed : Sim → ℕ → Cache
freed s i = record (set_mshr s.cache i (unused s i)) { mshr_count = s.cache.mshr_count - 1 }

freed-SameMshrs : (s : Sim) (i : ℕ) → SameMshrs (freed s i) (remove_mshr s i none).cache
unfolding uncount remove_mshr
freed-SameMshrs s i = ground arith

handed-SameMshrs :
    (s : Sim) (i : ℕ) (r : ReqPtr)
    → SameMshrs (set_mshr s.cache i (handed s i r)) (remove_mshr s i (some r)).cache
unfolding uncount remove_mshr
handed-SameMshrs s i r = ground arith

-- A match is one in the other cache, too.
Holds-SameMshrs :
    (s : Sim) {c d : Cache} {tag k : ℕ}
    → SameMshrs c d
    → Holds (set_cache s d) tag k
    → Holds (set_cache s c) tag k
Holds-SameMshrs s e k = record {
  in_range = rw e.max_mshrs at k.in_range;
  valid = rw e.mshrs at k.valid;
  same_tag = rw e.mshrs at k.same_tag;
}

module _ {pm : Params} {s : Sim} (h : IsValid pm s) (i : ℕ) (lt : i < s.cache.max_mshrs)
    (v : (mshr_of s i).valid ≡ true) where
  -- a valid MSHR afterwards is another one, as it was
  freed-old :
      (j : ℕ)
      → (update s.cache.mshrs i (unused s i) j).valid ≡ true
      → (j ≢ i) × (update s.cache.mshrs i (unused s i) j ≡ mshr_of s j)
  freed-old j e = elim (ℕ_discrete j i) [
    | yes y ↦ absurd (grind arith)
    | no n ↦ (n, update_ne s.cache.mshrs i j _ n)
  ]

  freed-IsValid : IsValid pm (set_cache s (freed s i))
  freed-IsValid = record {
    counted =
        let one = count_valid-free s.cache.mshrs s.cache.max_mshrs i (unused s i) lt v refl in
        let old = h.counted in omega (arith, one, old);
    coals = λ j ltj e. let k = freed-old j e in rw k.1 (h.coals j ltj (rw k.1 at e));
    unique = λ a b la lb va vb e.
        let ka = freed-old a va in
        let kb = freed-old b vb in
        h.unique a b la lb (rw ka.1 at va) (rw kb.1 at vb) (rw (ka.1, kb.1) at e);
  }

  freed-none : (k : ℕ) → Holds (set_cache s (freed s i)) (main_tag s i) k → ⊥
  freed-none k q =
      let old = freed-old k q.valid in
      let v' : (mshr_of s k).valid ≡ true = rw old.1 at q.valid in
      let e : main_tag s k ≡ main_tag s i = rw old.1 at q.same_tag in
      old.0 (h.unique k i q.in_range lt v' v e)

  handed-main :
      (r : ReqPtr)
      → (s.reqs r).tag ≡ main_tag s i
      → (j : ℕ) → (s.reqs (update s.cache.mshrs i (handed s i r) j).mainreq).tag ≡ main_tag s j
  handed-main r same j = elim (ℕ_discrete j i) [
    | yes y ↦
        let at_j : update s.cache.mshrs i (handed s i r) j ≡ handed s i r =
          rw y (update_self s.cache.mshrs i (handed s i r)) in
        ap (λ (m : Mshr). (s.reqs m.mainreq).tag) at_j ∙ (same ∙ ap (main_tag s) (sym y))
    | no n ↦ ap (λ (m : Mshr). (s.reqs m.mainreq).tag) (update_ne s.cache.mshrs i j _ n)
  ]

  handed-valid :
      (r : ReqPtr) (j : ℕ) → (update s.cache.mshrs i (handed s i r) j).valid ≡ (mshr_of s j).valid
  handed-valid r j = elim (ℕ_discrete j i) [ yes e ↦ ground arith | no n ↦ ground arith ]

  handed-counter :
      (r : ReqPtr) (j : ℕ)
      → (update s.cache.mshrs i (handed s i r) j).counter ≡ (mshr_of s j).counter
  handed-counter r j = elim (ℕ_discrete j i) [ yes e ↦ ground arith | no n ↦ ground arith ]

  handed-IsValid :
      (r : ReqPtr)
      → (s.reqs r).tag ≡ main_tag s i
      → IsValid pm (set_cache s (set_mshr s.cache i (handed s i r)))
  handed-IsValid r same = record {
    counted = h.counted ∙ sym (count_valid_cong _ _ _ (λ j _. handed-valid r j));
    coals = λ j ltj e. rw (handed-counter r j) (h.coals j ltj (sym (handed-valid r j) ∙ e));
    unique = λ a b la lb va vb e.
        h.unique a b la lb (sym (handed-valid r a) ∙ va) (sym (handed-valid r b) ∙ vb)
          (sym (handed-main r same a) ∙ (e ∙ handed-main r same b));
  }

-- `RemoveMSHR` of a valid MSHR, without a substitute and from a state that satisfies the invariant,
-- keeps it, and the line of the main
-- request is found in no MSHR any more.
pub remove_mshr-none :
    (pm : Params) (s : Sim) (i : ℕ)
    → IsValid pm s
    → i < s.cache.max_mshrs
    → (mshr_of s i).valid ≡ true
    → IsValid pm (remove_mshr s i none)
      × (find_in_mshr_entries (remove_mshr s i none) (main_tag s i) ≡ none)
unfolding remove_mshr
remove_mshr-none pm s i h lt v =
    let same = freed-SameMshrs s i in
    (
      SameMshrs-IsValid same (freed-IsValid h i lt v),
      elim (Option-cases (find_in_mshr_entries (remove_mshr s i none) (main_tag s i))) [
        | inl e ↦ e
        | inr p ↦
            let q = find_in_mshr_entries-Holds (remove_mshr s i none) (main_tag s i) p.0 p.1 in
            absurd (freed-none h i lt v p.0 (Holds-SameMshrs s same q))
      ],
    )

-- `RemoveMSHR` of a valid MSHR, with a substitute for the same line and from a state that satisfies
-- the invariant, keeps it, and the line
-- is found in the same MSHR.
pub remove_mshr-some :
    (pm : Params) (s : Sim) (i : ℕ) (r : ReqPtr)
    → IsValid pm s
    → i < s.cache.max_mshrs
    → (mshr_of s i).valid ≡ true
    → (s.reqs r).tag ≡ main_tag s i
    → IsValid pm (remove_mshr s i (some r))
      × (find_in_mshr_entries (remove_mshr s i (some r)) (main_tag s i) ≡ some i)
unfolding remove_mshr
remove_mshr-some pm s i r h lt v tag =
    let same = handed-SameMshrs s i r in
    let kept : IsValid pm (remove_mshr s i (some r)) =
      SameMshrs-IsValid same (handed-IsValid h i lt v r tag) in
    let held : Holds (set_cache s (set_mshr s.cache i (handed s i r))) (main_tag s i) i = record {
      in_range = lt;
      valid = handed-valid h i lt v r i ∙ v;
      same_tag = handed-main h i lt v r tag i;
    } in
    (kept, (find_in_mshr_entries_iff _ _ i kept).1 (SameMshrs-Holds same held))
