-- ===== src/Mshr/Grow.antt =====
-- The branches of `notpres_mshr` (MemSys/mshr.c) that coalesce a request or book an MSHR.
use rsim.Prelude.{
  ℕ, ◌+◌, ◌≤◌, ◌<◌, ◌≡◌, refl, sym, ◌≢◌, ◌∙◌, ap, true, false, arith, update, update_ne,
  update_self, Bool-cases, inl, inr,
}
use native.Mathlib.Decide.{ℕ_discrete}
use rsim.Coherence.{Outcome}
use rsim.Cache.{ReqPtr, Mshr, Cache}
use rsim.Cache.Lookup.{Found}
use rsim.Cache.Frame.{SameMshrs, same_refl, hit_update-SameMshrs}
use rsim.Mshr.{Params, Sim, set_req, set_cache, set_mshr}
use rsim.Mshr.Request.{book, booked, count_booking, lock_line, sent_as, is_hit, is_wt}
use rsim.Mshr.Dispatch.{coalesce, joined}
use rsim.Mshr.Count.{count_valid_cong, count_valid-fill}
use rsim.Mshr.Invariant.{IsValid, IsFresh, Keeps-IsValid, mshr_of, main_tag}
use rsim.Mshr.Keep.{set_req-Keeps}

pub SameMshrs-IsValid :
    {pm : Params} {s : Sim} {c : Cache}
    → SameMshrs s.cache c
    → IsValid pm s
    → IsValid pm (set_cache s c)
SameMshrs-IsValid {c = c} e h = record {
  counted = rw (e.mshr_count, e.mshrs, e.max_mshrs) h.counted;
  coals = rw (e.mshrs, e.max_mshrs) h.coals;
  unique = rw (e.mshrs, e.max_mshrs) h.unique;
}

module _ {pm : Params} {s : Sim} (h : IsValid pm s) (rp : ReqPtr) (i : ℕ)
    (lt : i < s.cache.max_mshrs) where
  -- the tags are those before
  coalesce-tag : (p : ReqPtr) → ((coalesce pm s rp i).1.reqs p).tag ≡ (s.reqs p).tag
  unfolding coalesce
  coalesce-tag p = grind arith

  pub coalesce-IsValid :
      (mshr_of s i).valid ≡ true
      → (mshr_of s i).counter ≢ pm.max_coals
      → IsValid pm (coalesce pm s rp i).1
  unfolding coalesce
  coalesce-IsValid v full =
      let m = joined pm s.cache (mshr_of s i) rp (s.reqs rp) in
      let valid : (j : ℕ) → (update s.cache.mshrs i m j).valid ≡ (mshr_of s j).valid =
        λ j. elim (ℕ_discrete j i) [ yes e ↦ ground arith | no n ↦ ground arith ] in
      let main : (j : ℕ) → (update s.cache.mshrs i m j).mainreq ≡ (mshr_of s j).mainreq =
        λ j. elim (ℕ_discrete j i) [ yes e ↦ ground arith | no n ↦ ground arith ] in
      let tag : (j : ℕ) → main_tag (coalesce pm s rp i).1 j ≡ main_tag s j =
        λ j. coalesce-tag _ ∙ ap (λ p. (s.reqs p).tag) (main j) in
      record {
        counted = h.counted ∙ sym (count_valid_cong _ _ _ (λ j _. valid j));
        coals = λ j ltj vj. elim (ℕ_discrete j i) [
          | yes e ↦
              let b : (mshr_of s i).counter + 1 ≤ pm.max_coals =
                omega (arith, h.coals i lt v, full) in
              rw (e, update_self s.cache.mshrs i m) b
          | no n ↦
              let b = h.coals j ltj (sym (valid j) ∙ vj) in rw (update_ne s.cache.mshrs i j m n) b
        ];
        unique = λ j k ltj ltk vj vk e.
            h.unique j k ltj ltk (sym (valid j) ∙ vj) (sym (valid k) ∙ vk)
              (sym (tag j) ∙ (e ∙ tag k));
      }

-- What is known of a request and of the MSHR that was found for it.
pub record IsFree (s : Sim) (rp : ReqPtr) (i : ℕ) : Type 0 where
  pub in_range : i < s.cache.max_mshrs
  pub free : (mshr_of s i).valid ≡ false
  pub new_tag :
      (j : ℕ) → j < s.cache.max_mshrs → (mshr_of s j).valid ≡ true → main_tag s j ≢ (s.reqs rp).tag

module _ {pm : Params} {s : Sim} (h : IsValid pm s) (rp : ReqPtr) (i : ℕ) (k : IsFree s rp i) where
  -- the state in which the MSHR `i` holds `m`
  pub fill-IsValid :
      (m : Mshr)
      → m.valid ≡ true
      → m.mainreq ≡ rp
      → m.counter ≡ 0
      → IsValid pm (set_cache s (set_mshr (count_booking s.cache) i m))
  fill-IsValid m mv mm mc =
      let f = s.cache.mshrs in
      let at_i : (j : ℕ) → j ≡ i → update f i m j ≡ m = λ j e. rw e (update_self f i m) in
      let off : (j : ℕ) → j ≢ i → update f i m j ≡ f j = λ j n. update_ne f i j m n in
      let tag_i : (j : ℕ) → j ≡ i → (s.reqs (update f i m j).mainreq).tag ≡ (s.reqs rp).tag =
        λ j e. ap (λ x. (s.reqs x.mainreq).tag) (at_i j e) ∙ ap (λ p. (s.reqs p).tag) mm in
      let tag_off : (j : ℕ) → j ≢ i → (s.reqs (update f i m j).mainreq).tag ≡ main_tag s j =
        λ j n. ap (λ x. (s.reqs x.mainreq).tag) (off j n) in
      record {
        counted =
            ap (λ n. n + 1) h.counted
            ∙ sym (count_valid-fill f s.cache.max_mshrs i m k.in_range k.free mv);
        coals = λ j lt v. elim (ℕ_discrete j i) [
          | yes e ↦ rw (at_i j e, mc) (omega arith)
          | no n ↦ rw (off j n) (h.coals j lt (rw (off j n) at v))
        ];
        unique = λ a b la lb va vb e. elim (ℕ_discrete a i) [
          | yes ea ↦ elim (ℕ_discrete b i) [
            | yes eb ↦ ea ∙ sym eb
            | no nb ↦
                absurd
                  (k.new_tag b lb (rw (off b nb) at vb) (sym (tag_off b nb) ∙ (sym e ∙ tag_i a ea)))
          ]
          | no na ↦ elim (ℕ_discrete b i) [
            | yes eb ↦
                absurd
                  (k.new_tag a la (rw (off a na) at va) (sym (tag_off a na) ∙ (e ∙ tag_i b eb)))
            | no nb ↦
                h.unique a b la lb (rw (off a na) at va) (rw (off b nb) at vb)
                  (sym (tag_off a na) ∙ (e ∙ tag_off b nb))
          ]
        ];
      }

pub lock_line-SameMshrs : (c : Cache) (k : ℕ) → SameMshrs c (lock_line c k)
lock_line-SameMshrs c k = elim (Bool-cases (is_wt c.level)) [
  | inl y ↦ rw y (same_refl c)
  | inr n ↦ rw n record { mshrs = refl; mshr_count = refl; max_mshrs = refl; level = refl }
]

-- The request goes on to the next level with the tag it had.
sent-IsFree :
    {s : Sim} {rp : ReqPtr} {i : ℕ} (o : Outcome)
    → IsFresh s rp
    → IsFree s rp i
    → IsFree (set_req s rp (sent_as (s.reqs rp) o)) rp i
sent-IsFree {s} {rp} {i} o fresh k = record {
  in_range = k.in_range;
  free = k.free;
  new_tag = λ j lt v e.
      let r = sent_as (s.reqs rp) o in
      let tag = ap (λ q. q.tag) (update_ne s.reqs rp (mshr_of s j).mainreq r (fresh j lt v)) in
      k.new_tag j lt v (sym tag ∙ (e ∙ ap (λ q. q.tag) (update_self s.reqs rp r)));
}

pub book-IsValid :
    {pm : Params} {s : Sim} (h : IsValid pm s) (rp : ReqPtr) (f : Found) (o : Outcome) (i : ℕ)
    → IsFresh s rp
    → IsFree s rp i
    → IsValid pm (book s rp f o i).1
unfolding book
book-IsValid {pm} {s} h rp f o i fresh k =
    let r = s.reqs rp in
    let u = set_req s rp (sent_as r o) in
    let hu : IsValid pm u = Keeps-IsValid (set_req-Keeps rp s (sent_as r o)) fresh h in
    let w = fill-IsValid hu rp i (sent-IsFree o fresh k) (booked s.cache i rp r f) refl refl refl in
    elim (Bool-cases (is_hit f.presence)) [
      | inl y ↦ rw y (
          SameMshrs-IsValid (lock_line-SameMshrs _ f.set_ind)
            (SameMshrs-IsValid (hit_update-SameMshrs f.set_ind _ f.set r) w))
      | inr n ↦ rw n w
    ]
