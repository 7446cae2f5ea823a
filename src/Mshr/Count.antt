-- ===== src/Mshr/Count.antt =====
-- The number of valid MSHRs in an array, and what the search loops of MemSys/mshr.c find in it.
use rsim.Prelude.{
  ℕ, zero, suc, ◌+◌, ◌≤◌, ◌<◌, ◌≡◌, refl, ap, Bool, true, false, none, some, arith, update,
  Bool-cases, inl, inr,
}
use native.Mathlib.Decide.{ℕ_discrete}
use rsim.Cache.{Req, Mshr}
use rsim.Mshr.{find_match, find_free, holds_tag}

abbrev bit : Bool → ℕ
bit true = 1
bit false = 0

-- how many of the MSHRs below `n` are valid
unfoldable pub count_valid : (ℕ → Mshr) → ℕ → ℕ
count_valid f zero = 0
count_valid f (suc n) = bit (f n).valid + count_valid f n

pub count_valid_cong :
    (f g : ℕ → Mshr) (n : ℕ)
    → ((j : ℕ) → j < n → (f j).valid ≡ (g j).valid)
    → count_valid f n ≡ count_valid g n
unfolding count_valid
count_valid_cong f g zero h = refl
count_valid_cong f g (suc n) h =
    rw (h n (omega arith), count_valid_cong f g n (λ j lt. h j (omega arith)))

pub count_valid-le : (f : ℕ → Mshr) (n : ℕ) → count_valid f n ≤ n
unfolding count_valid
count_valid-le f zero = omega arith
count_valid-le f (suc n) = ground (arith, count_valid-le f n)

-- A write to a slot changes the count by what it changes in the slot.
pub count_valid-update :
    (f : ℕ → Mshr) (n i : ℕ) (m : Mshr)
    → i < n
    → count_valid (update f i m) n + bit (f i).valid ≡ count_valid f n + bit m.valid
unfolding count_valid
count_valid-update f zero i m h = absurd (omega arith)
count_valid-update f (suc n) i m h = elim (ℕ_discrete i n) [
  | yes e ↦
      let below : count_valid (update f i m) n ≡ count_valid f n =
        count_valid_cong (update f i m) f n (λ j lt. ground arith) in
      ground arith
  | no ne ↦
      let rest = count_valid-update f n i m (omega arith) in
      let same : update f i m n ≡ f n = ground arith in rw same (omega (arith, rest))
]

-- One more when a slot becomes valid, and one less when it becomes free.
pub count_valid-fill :
    (f : ℕ → Mshr) (n i : ℕ) (m : Mshr)
    → i < n
    → (f i).valid ≡ false
    → m.valid ≡ true
    → count_valid (update f i m) n ≡ count_valid f n + 1
count_valid-fill f n i m h e e' =
    let old : bit (f i).valid ≡ 0 = ap bit e in
    let new : bit m.valid ≡ 1 = ap bit e' in omega (arith, count_valid-update f n i m h, old, new)

pub count_valid-free :
    (f : ℕ → Mshr) (n i : ℕ) (m : Mshr)
    → i < n
    → (f i).valid ≡ true
    → m.valid ≡ false
    → count_valid (update f i m) n + 1 ≡ count_valid f n
count_valid-free f n i m h e e' =
    let old : bit (f i).valid ≡ 1 = ap bit e in
    let new : bit m.valid ≡ 0 = ap bit e' in omega (arith, count_valid-update f n i m h, old, new)

-- With every slot valid the count is full.
pub count_valid-full :
    (f : ℕ → Mshr) (n : ℕ) → ((j : ℕ) → j < n → (f j).valid ≡ true) → count_valid f n ≡ n
unfolding count_valid
count_valid-full f zero h = refl
count_valid-full f (suc n) h =
    rw (h n (omega arith)) (omega (arith, count_valid-full f n (λ j lt. h j (omega arith))))

pub count_valid-all : (f : ℕ → Mshr) (n j : ℕ) → count_valid f n ≡ n → j < n → (f j).valid ≡ true
unfolding count_valid
count_valid-all f zero j h lt = absurd (omega arith)
count_valid-all f (suc n) j h lt =
    let b = count_valid-le f n in
    elim (ℕ_discrete j n) [
      | yes e ↦ rw e (ground arith)
      | no ne ↦ count_valid-all f n j (ground arith) (omega arith)
    ]

-- Without a valid slot it is 0.
pub count_valid-zero : (f : ℕ → Mshr) (n i : ℕ) → count_valid f n ≡ 0 → i < n → (f i).valid ≡ false
unfolding count_valid
count_valid-zero f zero i h lt = absurd (omega arith)
count_valid-zero f (suc n) i h lt = elim (ℕ_discrete i n) [
  | yes e ↦ rw e (ground arith)
  | no ne ↦ count_valid-zero f n i (ground arith) (omega arith)
]

-- The search for a free MSHR finds one in range,
pub find_free-some :
    (f : ℕ → Mshr) (n i k : ℕ) → find_free f n i ≡ some k → (k < i + n) × ((f k).valid ≡ false)
unfolding find_free
find_free-some f zero i k h = cc
find_free-some f (suc n) i k h = elim (Bool-cases (f i).valid) [
  | inl v ↦ let r = find_free-some f n (i + 1) k (rw v at h) in (omega (arith, r.0), r.1)
  | inr v ↦ let e : some i ≡ some k = rw v at h in ground arith
]

-- and fails only if all are valid.
pub find_free-none :
    (f : ℕ → Mshr) (n i : ℕ)
    → find_free f n i ≡ none
    → (j : ℕ) → i ≤ j
    → j < i + n
    → (f j).valid ≡ true
unfolding find_free
find_free-none f zero i h j lo hi = absurd (omega arith)
find_free-none f (suc n) i h j lo hi = elim (Bool-cases (f i).valid) [
  | inl v ↦ elim (ℕ_discrete i j) [
    | yes e ↦ rw (← e) v
    | no ne ↦ find_free-none f n (i + 1) (rw v at h) j (omega arith) (omega arith)
  ]
  | inr v ↦ let e : some i ≡ none = rw v at h in cc
]

-- The search for a tag finds a match in range,
pub find_match-some :
    (reqs : ℕ → Req) (f : ℕ → Mshr) (tag n i k : ℕ)
    → find_match reqs f tag n i ≡ some k
    → (k < i + n) × (holds_tag reqs (f k) tag ≡ true)
unfolding find_match
find_match-some reqs f tag zero i k h = cc
find_match-some reqs f tag (suc n) i k h = elim (Bool-cases (holds_tag reqs (f i) tag)) [
  | inl v ↦
      let e : some i ≡ some k = rw v at h in (ground arith, let e' : i ≡ k = cc in rw (← e') v)
  | inr v ↦ let r = find_match-some reqs f tag n (i + 1) k (rw v at h) in (omega (arith, r.0), r.1)
]

-- and fails only if there is none.
pub find_match-none :
    (reqs : ℕ → Req) (f : ℕ → Mshr) (tag n i : ℕ)
    → find_match reqs f tag n i ≡ none
    → (j : ℕ) → i ≤ j
    → j < i + n
    → holds_tag reqs (f j) tag ≡ false
unfolding find_match
find_match-none reqs f tag zero i h j lo hi = absurd (omega arith)
find_match-none reqs f tag (suc n) i h j lo hi = elim (Bool-cases (holds_tag reqs (f i) tag)) [
  | inl v ↦ let e : some i ≡ none = rw v at h in cc
  | inr v ↦ elim (ℕ_discrete i j) [
    | yes e ↦ rw (← e) v
    | no ne ↦ find_match-none reqs f tag n (i + 1) (rw v at h) j (omega arith) (omega arith)
  ]
]
