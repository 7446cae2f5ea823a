-- ===== src/Directory/Sharers/Count.antt =====
-- The number of sharers that a line's bit vector tells, and the invariant of a line
-- (MemSys/directory.c).
use rsim.Prelude.{
  ℕ, zero, suc, ◌+◌, ◌*◌, ◌<◌, ◌≡◌, ◌≢◌, ◌⊎◌, ap, refl, sym, ◌∙◌, inl, inr, Bool, true, false, ◌==◌,
  ==_ne, ==_refl, eq_of_==, Bool-cases, if◌then◌else◌, arith,
}
use rsim.Directory.{DirLine, LineState, uncached, dir_shared, dir_private}
use rsim.Directory.Sharers.{bit_of, put_bit, only}

-- the bits set below a number
unfoldable pub count : (ℕ → Bool) → ℕ → ℕ
count f zero = 0
count f (suc m) = if f m then count f m + 1 else count f m

pub count-eq : (f g : ℕ → Bool) (m : ℕ) → ((n : ℕ) → n < m → f n ≡ g n) → count f m ≡ count g m
unfolding count
count-eq f g zero h = refl
count-eq f g (suc m) h =
    ground (arith, h m (omega arith), count-eq f g m (λ n k. h n (omega arith)))

pub count-none : (f : ℕ → Bool) (m : ℕ) → ((n : ℕ) → n < m → f n ≡ false) → count f m ≡ 0
unfolding count
count-none f zero h = refl
count-none f (suc m) h =
    ground (arith, h m (omega arith), count-none f m (λ n k. h n (omega arith)))

pub last_or : (k m : ℕ) → k < suc m → (k ≡ m) ⊎ (k < m)
last_or k m h = grind arith

-- a bit that is set where none was
pub count-set :
    (f g : ℕ → Bool) (k m : ℕ)
    → k < m
    → f k ≡ false
    → g k ≡ true
    → ((n : ℕ) → n < m → n ≢ k → g n ≡ f n)
    → count g m ≡ count f m + 1
unfolding count
count-set f g k zero h off on same = absurd (omega arith)
count-set f g k (suc m) h off on same = elim (last_or k m h) [
  | inl here ↦
      let a : f m ≡ false = rw here at off in
      let b : g m ≡ true = rw here at on in
      ground (arith, a, b, count-eq g f m (λ n l. same n (omega arith) (λ e. omega arith)))
  | inr before ↦ ground (
    arith,
    same m (omega arith) (λ e. omega arith),
    count-set f g k m before off on (λ n l. same n (omega arith)),
  )
]

pub count_pos : (f : ℕ → Bool) (k m : ℕ) → k < m → f k ≡ true → 0 < count f m
unfolding count
count_pos f k zero h on = absurd (omega arith)
count_pos f k (suc m) h on = elim (last_or k m h) [
  | inl here ↦ let a : f m ≡ true = rw here at on in ground (arith, a)
  | inr before ↦ ground (arith, count_pos f k m before on)
]

-- one bit alone
pub count-one :
    (f : ℕ → Bool) (k m : ℕ)
    → k < m
    → f k ≡ true
    → ((n : ℕ) → n < m → n ≢ k → f n ≡ false)
    → count f m ≡ 1
count-one f k m h on off =
    count-set (λ _. false) f k m h refl on off
    ∙ ap (λ (n : ℕ). n + 1) (count-none (λ _. false) m (λ n l. refl))

-- the bit vector, node by node
pub bit_of-put_bit :
    (v : ℕ → ℕ → Bool) (n : ℕ) (b : Bool) (k : ℕ)
    → bit_of (put_bit v n b) k ≡ (if k == n then b else bit_of v k)
bit_of-put_bit v n b k = ground arith

-- a node becomes a sharer
pub count-put_bit :
    (v : ℕ → ℕ → Bool) (n m : ℕ)
    → n < m
    → count (bit_of (put_bit v n true)) m
      ≡ (if bit_of v n then count (bit_of v) m else count (bit_of v) m + 1)
count-put_bit v n m h = elim (Bool-cases (bit_of v n)) [
  | inl on ↦ rw on (
      count-eq (bit_of (put_bit v n true)) (bit_of v) m
        (λ k l. bit_of-put_bit v n true k ∙ kept k on))
  | inr off ↦ rw off (
      count-set (bit_of v) (bit_of (put_bit v n true)) n m h off
        (bit_of-put_bit v n true n ∙ ground (arith, ==_refl n))
        (λ k l e. bit_of-put_bit v n true k ∙ ground (arith, ==_ne k n e)))
]
  where
    kept : (k : ℕ) → bit_of v n ≡ true → (if k == n then true else bit_of v k) ≡ bit_of v k
    kept k on = elim (Bool-cases (k == n)) [
      | inl same ↦ rw same (sym on ∙ ap (bit_of v) (sym (eq_of_== k n same)))
      | inr other ↦ rw other
    ]

pub bit_of-only :
    (words n : ℕ) (v : ℕ → ℕ → Bool) (k : ℕ) → k < words * 32 → bit_of (only words n v) k ≡ (k == n)
bit_of-only words n v k h = ground arith

-- The number of sharers that a line in a state may have.
abbrev pub Fits : LineState → ℕ → Type 0
Fits uncached n = n ≡ 0
Fits dir_shared n = 0 < n
Fits dir_private n = n ≡ 1

-- The invariant of a line whose vector has a number of words: `numsharers` is the number of its
-- sharers, and fits the state.
pub record IsValid (words : ℕ) (l : DirLine) : Type 0 where
  pub counted : l.numsharers ≡ count (bit_of l.vector) (words * 32)
  pub fits : Fits l.state l.numsharers
