-- ===== src/CircQ/Found.antt =====
-- The binary search of the circular queue (incl/Processor/circq.h).
use rsim.Prelude.{
  ℕ, zero, suc, ◌+◌, ◌-◌, ◌/◌, ◌<◌, ◌≤◌, ◌≡◌, ap, ◌∙◌, Option, some, ltb, leb, ◌==◌, ◌⊎◌, inl, inr,
  if◌then◌else◌, arith,
}
use rsim.CircQ.{CircQ, masked, search_loop, search}

-- below, at or above a number
placed : (a b : ℕ) → (a < b) ⊎ ((a ≡ b) ⊎ (b < a))
placed a b = grind arith

module _ {ℓ} {A : Type ℓ} where
  -- the key of the element that the queue has at an index, taken around the end
  abbrev pub key_at : (A → ℕ) → CircQ A → ℕ → ℕ
  key_at key_of q i = key_of (q.arr (masked q i))

  -- The keys grow from an index up to another one.
  abbrev pub Sorted : (A → ℕ) → CircQ A → ℕ → ℕ → Type 0
  Sorted key_of q lo hi1 =
      (i j : ℕ) → lo ≤ i → i < j → j < hi1 → key_at key_of q i < key_at key_of q j

  -- one round of the search, by where the middle stands
  round : (A → ℕ) → ℕ → CircQ A → (mid : ℕ) → (above below : Option (A × ℕ)) → Option (A × ℕ)
  round key_of key q mid above below =
      if key_of (q.arr (masked q mid)) == key
      then some (q.arr (masked q mid), mid - q.head)
      else if ltb (key_of (q.arr (masked q mid))) key
      then above
      else below

  search_loop-round :
      (key_of : A → ℕ) (key : ℕ) (q : CircQ A) (n lo hi1 : ℕ)
      → lo < hi1
      → search_loop key_of key q (suc n) lo hi1
        ≡ round key_of key q
            ((lo + hi1 - 1) / 2)
            (search_loop key_of key q n ((lo + hi1 - 1) / 2 + 1) hi1)
            (search_loop key_of key q n lo ((lo + hi1 - 1) / 2))
  unfolding search_loop round
  search_loop-round key_of key q n lo hi1 h = ground arith

  round-above :
      (key_of : A → ℕ) (key : ℕ) (q : CircQ A) (mid : ℕ) (above below : Option (A × ℕ))
      → key_at key_of q mid < key
      → round key_of key q mid above below ≡ above
  unfolding round
  round-above key_of key q mid above below h = ground arith

  round-below :
      (key_of : A → ℕ) (key : ℕ) (q : CircQ A) (mid : ℕ) (above below : Option (A × ℕ))
      → key < key_at key_of q mid
      → round key_of key q mid above below ≡ below
  unfolding round
  round-below key_of key q mid above below h = ground arith

  round-here :
      (key_of : A → ℕ) (q : CircQ A) (mid : ℕ) (above below : Option (A × ℕ))
      → round key_of (key_at key_of q mid) q mid above below
        ≡ some (q.arr (masked q mid), mid - q.head)
  unfolding round
  round-here key_of q mid above below = ground arith

  -- The loop finds every key between its bounds, when the keys grow there and the rounds are as many
  -- as the elements.
  search_loop-found :
      (key_of : A → ℕ) (q : CircQ A) (n lo hi1 m : ℕ)
      → Sorted key_of q lo hi1
      → lo ≤ m
      → m < hi1
      → hi1 ≤ lo + n
      → search_loop key_of (key_at key_of q m) q n lo hi1 ≡ some (q.arr (masked q m), m - q.head)
  search_loop-found key_of q zero lo hi1 m sorted h1 h2 h3 = absurd (omega arith)
  search_loop-found key_of q (suc n) lo hi1 m sorted h1 h2 h3 =
      let mid : ℕ = (lo + hi1 - 1) / 2 in
      let key : ℕ = key_at key_of q m in
      search_loop-round key_of key q n lo hi1 (omega arith) ∙ elim (placed mid m) [
        | inl less ↦
            round-above key_of key q mid _ _ (sorted mid m (omega arith) less h2)
            ∙ search_loop-found key_of q n (mid + 1) hi1 m
                (λ i j a b c. sorted i j (omega arith) b c) (omega arith) h2 (omega arith)
        | inr (inl here) ↦
            ap
              (λ (i : ℕ).
                round key_of (key_at key_of q m) q i (search_loop key_of key q n (i + 1) hi1)
                  (search_loop key_of key q n lo i))
              here
            ∙ round-here key_of q m _ _
        | inr (inr more) ↦
            round-below key_of key q mid _ _ (sorted m mid h1 more (omega arith))
            ∙ search_loop-found key_of q n lo mid m (λ i j a b c. sorted i j a b (omega arith)) h1
                more (omega arith)
      ]

  -- When a queue of `len` elements, no more than its array has room for, stands from the head up to
  -- the tail, an index of the array that may have come around, and the keys grow along it, then Search
  -- for the key of the element k places behind the head returns that element and k.
  pub search-found :
      (key_of : A → ℕ) (q : CircQ A) (len k : ℕ)
      → Sorted key_of q q.head (q.head + len)
      → (q.head + len ≡ q.tail) ⊎ (q.head + len ≡ q.tail + q.sz)
      → q.tail < q.sz
      → len ≤ q.sz
      → k < len
      → search key_of (key_at key_of q (q.head + k)) q ≡ some (q.arr (masked q (q.head + k)), k)
  unfolding search
  search-found key_of q len k sorted end ht hl hk =
      let key : ℕ = key_at key_of q (q.head + k) in
      let found =
        search_loop-found key_of q (q.sz + 1) q.head (q.head + len) (q.head + k) sorted
          (omega arith) (omega arith) (omega arith) in
      let top : (if leb q.tail q.head then q.tail + q.sz else q.tail) ≡ q.head + len =
        grind arith in
      ap (λ (i : ℕ). search_loop key_of key q (q.sz + 1) q.head i) top
      ∙ found
      ∙ ap (λ (i : ℕ). some (q.arr (masked q (q.head + k)), i)) (omega arith)
