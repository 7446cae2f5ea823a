-- ===== src/Mshr/Invariant.antt =====
-- The invariant of the MSHRs, and the steps that keep it.
use rsim.Prelude.{ℕ, ◌≤◌, ◌<◌, ◌≡◌, refl, ◌≢◌, sym, ap, ◌∙◌, true}
use rsim.Cache.{ReqPtr, Mshr}
use rsim.Mshr.{Params, Sim}
use rsim.Mshr.Count.{count_valid, count_valid_cong}

abbrev pub mshr_of : Sim → ℕ → Mshr
mshr_of s i = s.cache.mshrs i

abbrev pub main_tag : Sim → ℕ → ℕ
main_tag s i = (s.reqs (mshr_of s i).mainreq).tag

-- `mshr_count` counts the valid MSHRs, none holds more requests than MAX_COALS behind its first, and
-- no two of them are for one line.
pub record IsValid (pm : Params) (s : Sim) : Type 0 where
  pub counted : s.cache.mshr_count ≡ count_valid s.cache.mshrs s.cache.max_mshrs
  pub coals :
      (i : ℕ)
      → i < s.cache.max_mshrs
      → (mshr_of s i).valid ≡ true
      → (mshr_of s i).counter ≤ pm.max_coals
  pub unique :
      (i j : ℕ)
      → i < s.cache.max_mshrs
      → j < s.cache.max_mshrs
      → (mshr_of s i).valid ≡ true
      → (mshr_of s j).valid ≡ true
      → main_tag s i ≡ main_tag s j
      → i ≡ j

-- The request is the main request of no MSHR: it is on its way in.
abbrev pub IsFresh : Sim → ReqPtr → Type 0
IsFresh s rp =
    (i : ℕ) → i < s.cache.max_mshrs → (mshr_of s i).valid ≡ true → (mshr_of s i).mainreq ≢ rp

-- The MSHRs are as before, as far as the invariant reads them, and so are the tags of all requests
-- but `rp`.
pub record Keeps (rp : ReqPtr) (s t : Sim) : Type 0 where
  pub size : t.cache.max_mshrs ≡ s.cache.max_mshrs
  pub count : t.cache.mshr_count ≡ s.cache.mshr_count
  pub valid : (i : ℕ) → (mshr_of t i).valid ≡ (mshr_of s i).valid
  pub main : (i : ℕ) → (mshr_of t i).mainreq ≡ (mshr_of s i).mainreq
  pub counter : (i : ℕ) → (mshr_of t i).counter ≡ (mshr_of s i).counter
  pub tags : (p : ReqPtr) → p ≢ rp → (t.reqs p).tag ≡ (s.reqs p).tag

pub Keeps-refl : (rp : ReqPtr) (s : Sim) → Keeps rp s s
Keeps-refl rp s = record {
  size = refl;
  count = refl;
  valid = λ i. refl;
  main = λ i. refl;
  counter = λ i. refl;
  tags = λ p n. refl;
}

pub Keeps-trans : {rp : ReqPtr} {s t u : Sim} → Keeps rp s t → Keeps rp t u → Keeps rp s u
Keeps-trans h k = record {
  size = k.size ∙ h.size;
  count = k.count ∙ h.count;
  valid = λ i. k.valid i ∙ h.valid i;
  main = λ i. k.main i ∙ h.main i;
  counter = λ i. k.counter i ∙ h.counter i;
  tags = λ p n. k.tags p n ∙ h.tags p n;
}

module _ {rp : ReqPtr} {s t : Sim} (k : Keeps rp s t) (fresh : IsFresh s rp) where
  pub Keeps-IsFresh : IsFresh t rp
  Keeps-IsFresh i lt v e = fresh i (rw k.size at lt) (sym (k.valid i) ∙ v) (sym (k.main i) ∙ e)

  pub main_tag-Keeps :
      (i : ℕ) → i < s.cache.max_mshrs → (mshr_of s i).valid ≡ true → main_tag t i ≡ main_tag s i
  main_tag-Keeps i lt v = ap (λ p. (t.reqs p).tag) (k.main i) ∙ k.tags _ (fresh i lt v)

  pub Keeps-IsValid : {pm : Params} → IsValid pm s → IsValid pm t
  Keeps-IsValid {pm} h = record {
    counted =
        k.count
        ∙ (h.counted
            ∙ (sym (count_valid_cong t.cache.mshrs s.cache.mshrs _ (λ j lt. k.valid j))
                ∙ ap (count_valid t.cache.mshrs) (sym k.size)));
    coals = λ i lt v. rw (k.counter i) (h.coals i (rw k.size at lt) (sym (k.valid i) ∙ v));
    unique = λ i j li lj vi vj e.
        let li' : i < s.cache.max_mshrs = rw k.size at li in
        let lj' : j < s.cache.max_mshrs = rw k.size at lj in
        let wi : (mshr_of s i).valid ≡ true = sym (k.valid i) ∙ vi in
        let wj : (mshr_of s j).valid ≡ true = sym (k.valid j) ∙ vj in
        h.unique i j li' lj' wi wj (sym (main_tag-Keeps i li' wi) ∙ (e ∙ main_tag-Keeps j lj' wj));
  }
