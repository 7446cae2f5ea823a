-- ===== src/Pipeline/Entries.antt =====
-- The entries of a stretch of an array of pointers, NULL left out.
use rsim.Prelude.{
  ℕ, zero, suc, ◌+◌, ◌-◌, ◌≤◌, ◌<◌, ◌≡◌, refl, sym, ◌≢◌, ap, ◌∙◌, Option, none, some, List, [], ◌∷◌,
  ◌++◌, arith, update, append-nil,
}

module _ {A : Type 0} where
  -- the entries of `p[lo .. lo + n)` in order
  abbrev pub cons_entry : Option A → List A → List A
  cons_entry none xs = xs
  cons_entry (some x) xs = x ∷ xs

  abbrev pub entries : (ℕ → Option A) → ℕ → ℕ → List A
  entries p lo zero = []
  entries p lo (suc n) = cons_entry (p lo) (entries p (lo + 1) n)

  abbrev pub IsFree : (ℕ → Option A) → ℕ → ℕ → Type 0
  IsFree p lo hi = (j : ℕ) → lo ≤ j → j < hi → p j ≡ none

  cons_entry-append :
      (o : Option A) (xs ys : List A) → cons_entry o (xs ++ ys) ≡ cons_entry o xs ++ ys
  cons_entry-append none xs ys = refl
  cons_entry-append (some x) xs ys = refl

  pub entries-add :
      (p : ℕ → Option A) (lo m n : ℕ)
      → entries p lo (m + n) ≡ entries p lo m ++ entries p (lo + m) n
  entries-add p lo zero n =
      let e : 0 + n ≡ n = omega arith in let e' : lo + 0 ≡ lo = omega arith in rw (e, e')
  entries-add p lo (suc m) n =
      let e : suc m + n ≡ suc (m + n) = omega arith in
      let e' : lo + suc m ≡ lo + 1 + m = omega arith in
      rw (e, e', entries-add p (lo + 1) m n) (cons_entry-append (p lo) _ _)

  pub entries_cong :
      (p q : ℕ → Option A) (lo n : ℕ)
      → ((j : ℕ) → lo ≤ j → j < lo + n → p j ≡ q j)
      → entries p lo n ≡ entries q lo n
  entries_cong p q lo zero h = refl
  entries_cong p q lo (suc n) h = rw (
    h lo (omega arith) (omega arith),
    entries_cong p q (lo + 1) n (λ j a b. h j (omega arith) (omega arith)),
  )

  pub entries-IsFree : (p : ℕ → Option A) (lo n : ℕ) → IsFree p lo (lo + n) → entries p lo n ≡ []
  entries-IsFree p lo zero h = refl
  entries-IsFree p lo (suc n) h =
      rw (h lo (omega arith) (omega arith))
        (entries-IsFree p (lo + 1) n (λ j a b. h j (omega arith) (omega arith)))

  -- three stretches in a row
  entries_split :
      (p : ℕ → Option A) (a d n : ℕ)
      → entries p 0 (a + (suc d + n))
        ≡ entries p 0 a ++ (entries p a (suc d) ++ entries p (a + suc d) n)
  entries_split p a d n =
      let e : 0 + a ≡ a = omega arith in
      entries-add p 0 a (suc d + n) ∙ rw (e, entries-add p a (suc d) n)

  -- `d` free slots and then `x`
  entries_last :
      (p : ℕ → Option A) (x : A) (a d : ℕ)
      → IsFree p a (a + d)
      → p (a + d) ≡ some x
      → entries p a (suc d) ≡ x ∷ []
  entries_last p x a d free h =
      let e : suc d ≡ d + 1 = omega arith in
      ap (entries p a) e ∙ rw (entries-add p a d 1, entries-IsFree p a d free, h)

  module _ (p : ℕ → Option A) (x : A) (a d : ℕ) where
    -- `x` is moved from slot `a + d` to slot `a`
    abbrev moved : ℕ → Option A
    moved = update (update p a (some x)) (a + d) none

    moved_ne : (j : ℕ) → j ≢ a → j ≢ a + d → moved j ≡ p j
    moved_ne j h k = ground arith

    entries_first : 0 < d → IsFree p a (a + d) → entries moved a (suc d) ≡ x ∷ []
    entries_first pos free =
        let h : moved a ≡ some x = ground arith in rw (h, entries-IsFree moved (a + 1) d rest)
      where
        rest : IsFree moved (a + 1) (a + 1 + d)
        rest j lo hi = ground (arith, free j)

    -- Moving an entry down past free slots leaves the entries and their order alone.
    entries-moved :
        (n : ℕ)
        → 0 < d
        → IsFree p a (a + d)
        → p (a + d) ≡ some x
        → entries moved 0 (a + (suc d + n)) ≡ entries p 0 (a + (suc d + n))
    entries-moved n pos free h = rw (
      entries_split moved a d n,
      entries_split p a d n,
      entries_first pos free,
      entries_last p x a d free h,
      entries_cong moved p 0 a (λ j lo hi. moved_ne j (omega arith) (omega arith)),
      entries_cong moved p (a + suc d) n (λ j lo hi. moved_ne j (omega arith) (omega arith)),
    )

  moved_at :
      (p : ℕ → Option A) (x : A) (a d n c total : ℕ)
      → c ≡ a + d
      → total ≡ a + (suc d + n)
      → 0 < d
      → IsFree p a c
      → p c ≡ some x
      → entries (update (update p a (some x)) c none) 0 total ≡ entries p 0 total
  moved_at p x a d n c total e e' pos free h =
      rw (e, e')
        (entries-moved p x a d n pos (λ j lo hi. free j lo (omega arith)) (ap p (sym e) ∙ h))

  -- The same with the slots `a` and `c` of an array of `total` slots.
  pub entries-move :
      (p : ℕ → Option A) (x : A) (a c total : ℕ)
      → a < c
      → c < total
      → IsFree p a c
      → p c ≡ some x
      → entries (update (update p a (some x)) c none) 0 total ≡ entries p 0 total
  entries-move p x a c total lo hi free h =
      moved_at p x a (c - a) (total - c - 1) c total (omega arith) (omega arith) (omega arith) free
        h

  put_at :
      (p : ℕ → Option A) (x : A) (w n total : ℕ)
      → total ≡ w + suc n
      → IsFree p w total
      → entries (update p w (some x)) 0 total ≡ entries p 0 total ++ (x ∷ [])
  put_at p x w n total e free = rw (
    e,
    entries-add q 0 w (suc n),
    entries-add p 0 w (suc n),
    zero_add,
    q_at,
    entries-IsFree q (w + 1) n (λ j lo hi. ground (arith, free j)),
    entries-IsFree p w (suc n) (λ j lo hi. free j lo (omega arith)),
    entries_cong q p 0 w (λ j lo hi. ground arith),
    append-nil,
  )
    where
      q : ℕ → Option A
      q = update p w (some x)

      zero_add : 0 + w ≡ w
      zero_add = omega arith

      q_at : q w ≡ some x
      q_at = ground arith

  -- An entry put before free slots only comes last.
  pub entries-put :
      (p : ℕ → Option A) (x : A) (w total : ℕ)
      → w < total
      → IsFree p w total
      → entries (update p w (some x)) 0 total ≡ entries p 0 total ++ (x ∷ [])
  entries-put p x w total h free = put_at p x w (total - w - 1) total (omega arith) free

  drop_at :
      (p : ℕ → Option A) (x : A) (w n total : ℕ)
      → total ≡ w + suc n
      → p w ≡ some x
      → (entries p 0 total ≡ entries p 0 w ++ (x ∷ entries p (w + 1) n))
        × (entries (update p w none) 0 total ≡ entries p 0 w ++ entries p (w + 1) n)
  drop_at p x w n total e h = (
    rw (e, entries-add p 0 w (suc n), zero_add, h),
    rw (
      e,
      entries-add q 0 w (suc n),
      zero_add,
      q_at,
      entries_cong q p 0 w (λ j lo hi. ground arith),
      entries_cong q p (w + 1) n (λ j lo hi. ground arith),
    ),
  )
    where
      q : ℕ → Option A
      q = update p w none

      zero_add : 0 + w ≡ w
      zero_add = omega arith

      q_at : q w ≡ none
      q_at = ground arith

  -- An entry that is cleared is missing, and the others stay as they are.
  pub entries-clear :
      (p : ℕ → Option A) (x : A) (w total : ℕ)
      → w < total
      → p w ≡ some x
      → (entries p 0 total ≡ entries p 0 w ++ (x ∷ entries p (w + 1) (total - w - 1)))
        × (entries (update p w none) 0 total ≡ entries p 0 w ++ entries p (w + 1) (total - w - 1))
  entries-clear p x w total h e = drop_at p x w (total - w - 1) total (omega arith) e
