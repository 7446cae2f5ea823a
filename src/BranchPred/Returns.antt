-- ===== src/BranchPred/Returns.antt =====
-- The return address stack of Processor/branchpred.cc as a bounded stack.
use rsim.Prelude.{
  ℕ, ◌+◌, ◌-◌, ◌<◌, ◌≤◌, ◌≡◌, ◌⊎◌, inr, refl, sym, if◌then◌else◌, ◌==◌, List, [], ◌∷◌, length,
  update, update_self, arith,
}
use mathlib.Core.Path.{subst}
use rsim.Prelude.Masks.{IsMaskSize}
use rsim.BranchPred.{Predictor, ras_insert, ras_top, ras_predict}

-- the index below another one, around the end
abbrev below_index : ℕ → ℕ → ℕ
below_index n ptr = if ptr == 0 then n - 1 else ptr - 1

-- The entries from the one below ptr downwards are those of a list.
abbrev pub HoldsAt : ℕ → (ℕ → ℕ) → ℕ → List ℕ → Type 0
HoldsAt n f ptr [] = Unit {0}
HoldsAt n f ptr (x ∷ xs) = (f (below_index n ptr) ≡ x) × HoldsAt n f (below_index n ptr) xs

-- The stack holds the addresses of a list, the last one inserted first.
abbrev pub Holds : Predictor → List ℕ → Type 0
Holds p xs = HoldsAt p.ras_stksz p.return_address_stack p.rasptr xs

-- An update at an index that lies d entries below ptr leaves the fewer entries above it.
HoldsAt-update :
    (n q d ptr v : ℕ) (f : ℕ → ℕ) (xs : List ℕ)
    → ptr < n
    → d ≤ n
    → length xs < d
    → (q + d ≡ ptr) ⊎ (q + d ≡ ptr + n)
    → HoldsAt n f ptr xs
    → HoldsAt n (update f q v) ptr xs
HoldsAt-update n q d ptr v f [] hp hd hl hq h = tt
HoldsAt-update n q d ptr v f (x ∷ xs) hp hd hl hq (e, h) = (
  ground arith,
  HoldsAt-update n q (d - 1) (below_index n ptr) v f xs (ground arith) (ground arith) (ground arith)
      (grind arith) h,
)

ras_top-below :
    (p : Predictor)
    → IsMaskSize p.ras_stksz
    → p.rasptr < p.ras_stksz
    → ras_top p ≡ below_index p.ras_stksz p.rasptr
unfolding ras_top
ras_top-below p (pos, mask, top) h = ground (arith, top, mask (p.rasptr - 1) (omega arith))

-- What an insertion and a prediction leave, with the indices as numbers
next_index : ℕ → ℕ → ℕ
next_index n ptr = if ptr + 1 == n then 0 else ptr + 1

inserted : Predictor → ℕ → Predictor
inserted p x = record p {
  return_address_stack = update p.return_address_stack p.rasptr x;
  rasptr = next_index p.ras_stksz p.rasptr;
}

popped : Predictor → ℕ × Predictor
popped p =
    let n : ℕ = below_index p.ras_stksz p.rasptr in
    (p.return_address_stack n, record p { rasptr = n })

ras_insert-inserted :
    (p : Predictor) (x : ℕ)
    → IsMaskSize p.ras_stksz
    → p.rasptr < p.ras_stksz
    → ras_insert p x ≡ inserted p x
unfolding ras_insert inserted next_index
ras_insert-inserted p x (pos, mask, top) h = ground (arith, mask (p.rasptr + 1) (omega arith))

ras_predict-popped :
    (p : Predictor) → IsMaskSize p.ras_stksz → p.rasptr < p.ras_stksz → ras_predict p ≡ popped p
unfolding ras_predict popped
ras_predict-popped p size h = ground (arith, ras_top-below p size h, size.0)

below_next : (n ptr : ℕ) → ptr < n → below_index n (next_index n ptr) ≡ ptr
unfolding next_index
below_next n ptr h = ground arith

inserted-Holds :
    (p : Predictor) (x : ℕ) (xs : List ℕ)
    → p.rasptr < p.ras_stksz
    → length xs < p.ras_stksz
    → Holds p xs
    → Holds (inserted p x) (x ∷ xs)
unfolding inserted
inserted-Holds p x xs h len held =
    let n : ℕ = p.ras_stksz in
    let f : ℕ → ℕ = update p.return_address_stack p.rasptr x in
    subst (λ (j : ℕ). (f j ≡ x) × HoldsAt n f j xs) (sym (below_next n p.rasptr h))
      ((
        update_self p.return_address_stack p.rasptr x,
        HoldsAt-update n p.rasptr n p.rasptr x p.return_address_stack xs h (omega arith) len
            (inr refl) held,
      ))

-- A return address stack of a size n that is a power of two, with rasptr < n, which holds the
-- addresses xs, the last one first, and fewer than n of them: after RASInsert of x it holds x and
-- then xs, and rasptr is below n.
pub ras_insert-Holds :
    (p : Predictor) (x : ℕ) (xs : List ℕ)
    → IsMaskSize p.ras_stksz
    → p.rasptr < p.ras_stksz
    → length xs < p.ras_stksz
    → Holds p xs
    → Holds (ras_insert p x) (x ∷ xs) × ((ras_insert p x).rasptr < (ras_insert p x).ras_stksz)
unfolding next_index inserted
ras_insert-Holds p x xs size h len held =
    subst (λ (q : Predictor). Holds q (x ∷ xs) × (q.rasptr < q.ras_stksz))
      (sym (ras_insert-inserted p x size h)) ((inserted-Holds p x xs h len held, ground arith))

-- Such a stack that holds x and then xs: RASPredict answers x, what it leaves holds xs, and rasptr
-- is below n again.
pub ras_predict-Holds :
    (p : Predictor) (x : ℕ) (xs : List ℕ)
    → IsMaskSize p.ras_stksz
    → p.rasptr < p.ras_stksz
    → Holds p (x ∷ xs)
    → ((ras_predict p).0 ≡ x)
      × Holds ((ras_predict p).1) xs
      × ((ras_predict p).1.rasptr < (ras_predict p).1.ras_stksz)
unfolding popped
ras_predict-Holds p x xs size h (e, held) =
    subst (λ (r : ℕ × Predictor). (r.0 ≡ x) × Holds (r.1) xs × (r.1.rasptr < r.1.ras_stksz))
      (sym (ras_predict-popped p size h)) ((e, held, ground arith))
