-- ===== src/InstHeap/Contents.antt =====
-- The elements of the heap of instructions (Processor/instheap.cc): insert adds one, GetMin takes the
-- least one.
use rsim.Prelude.{
  ℕ, zero, suc, ◌+◌, ◌-◌, ◌≤◌, ◌<◌, ◌≡◌, ◌≢◌, refl, ap, ◌∙◌, sym, true, ◌&&◌, some, ltb, leb, ◌==◌,
  if_elim, update, update_self, update_ne, lt_of_ltb, eq_of_==, ne_of_==, Bool-cases, inl, inr,
  arith,
}
use mathlib.Core.Path.{subst}
use native.Mathlib.Decide.{ℕ_discrete}
use rsim.InstHeap.{
  Slot, InstHeap, lchild, rchild, parent, before, exchange, sift_up, put, make_room, resize, insert,
  turn_at, fill_right, move_up, sift_down, get_min,
}
use rsim.InstHeap.Order.{Le, IsHeap, root_least, insert-IsHeap, exchange-parent, both_true}
use rsim.InstHeap.Least.{
  fill_right-copy, turn_elim, not_before_itself, left_heap, left_heap-IsHeap, get_min-some,
}

-- The sum of a function of the elements below n. Two arrays with the same sums for every function
-- have the same elements, in some order.
unfoldable pub total : (Slot → ℕ) → (ℕ → Slot) → ℕ → ℕ
total f slots zero = 0
total f slots (suc n) = total f slots n + f (slots n)

fill_right-here : (slots : ℕ → Slot) (used posn : ℕ) → fill_right used slots posn posn ≡ slots posn
unfolding fill_right
fill_right-here slots used posn =
    if_elim (λ (s : ℕ → Slot). s posn ≡ slots posn) (leb used (rchild posn))
      (λ e. update_ne slots (rchild posn) posn (slots posn) (λ q. omega arith)) (λ e. refl)

right_below :
    (slots : ℕ → Slot) (used posn : ℕ) (prop : Slot)
    → slots posn ≡ prop
    → before (fill_right used slots posn (rchild posn)) prop ≡ true
    → rchild posn < used
right_below slots used posn prop e r = elim (Bool-cases (ltb (rchild posn) used)) [
  | inl y ↦ ground arith
  | inr n ↦ absurd (not_before_itself _ prop (fill_right-copy slots used posn (ground arith) ∙ e) r)
]

module _ (f : Slot → ℕ) where
  total-outside :
      (n k : ℕ) (slots : ℕ → Slot) (v : Slot)
      → n ≤ k
      → total f (update slots k v) n ≡ total f slots n
  unfolding total
  total-outside zero k slots v h = refl
  total-outside (suc n) k slots v h =
      let e = ap f (update_ne slots k n v (λ q. omega arith)) in
      omega (arith, total-outside n k slots v (omega arith), e)

  total-update :
      (n k : ℕ) (slots : ℕ → Slot) (v : Slot)
      → k < n
      → total f (update slots k v) n + f (slots k) ≡ total f slots n + f v
  unfolding total
  total-update zero k slots v h = absurd (omega arith)
  total-update (suc n) k slots v h = elim (ℕ_discrete k n) [
    | yes e ↦
        let here = ap f (ap (update slots k v) (sym e) ∙ update_self slots k v) in
        let there = ap (λ (j : ℕ). f (slots j)) e in
        omega (arith, total-outside n k slots v (omega arith), here, there)
    | no ne ↦
        let e = ap f (update_ne slots k n v (λ q. omega arith)) in
        omega (arith, total-update n k slots v (omega arith), e)
  ]

  total-add_one : (slots : ℕ → Slot) (n : ℕ) → total f slots (n + 1) ≡ total f slots n + f (slots n)
  unfolding total
  total-add_one slots n =
      let next : ◌≡◌ {A = ℕ} (n + 1) (suc n) = omega arith in ap (total f slots) next

  -- an exchange of two elements
  total-swap :
      (n a b : ℕ) (slots : ℕ → Slot) (o : Slot)
      → a < n
      → b < n
      → a ≢ b
      → slots b ≡ o
      → total f (update (update slots a o) b (slots a)) n ≡ total f slots n
  total-swap n a b slots o ha hb ne e =
      let one = total-update n a slots o ha in
      let two = total-update n b (update slots a o) (slots a) hb in
      let at = ap f (update_ne slots a b o (λ q. omega arith) ∙ e) in omega (arith, one, two, at)

  total-exchange :
      (n step : ℕ) (slots : ℕ → Slot) (o : Slot)
      → 0 < step
      → step < n
      → slots step ≡ o
      → total f (exchange slots step (parent step) o) n ≡ total f slots n
  unfolding exchange
  total-exchange n step slots o pos lt e =
      total-swap n (parent step) step slots o (omega arith) lt (λ q. omega arith) e

  total-sift_up :
      (k n step : ℕ) (slots : ℕ → Slot) (o : Slot)
      → step < n
      → slots step ≡ o
      → total f (sift_up k slots step o) n ≡ total f slots n
  unfolding sift_up
  total-sift_up zero n step slots o lt e = refl
  total-sift_up (suc k) n step slots o lt e =
      if_elim (λ (s : ℕ → Slot). total f s n ≡ total f slots n)
        (ltb 0 step && before o (slots (parent step)))
        (λ go.
          let pos = lt_of_ltb 0 step ((both_true _ _ go).0) in
          total-sift_up k n (parent step) _ o (omega arith) (exchange-parent slots step o pos)
          ∙ total-exchange n step slots o pos lt e)
        (λ stop. refl)

  total-fill_right :
      (slots : ℕ → Slot) (used posn : ℕ)
      → total f (fill_right used slots posn) used ≡ total f slots used
  unfolding fill_right
  total-fill_right slots used posn =
      if_elim (λ (s : ℕ → Slot). total f s used ≡ total f slots used) (leb used (rchild posn))
        (λ e. total-outside used (rchild posn) slots (slots posn) (ground arith)) (λ e. refl)

  total-move_up :
      (n posn ch : ℕ) (s : ℕ → Slot) (prop : Slot)
      → posn < ch
      → ch < n
      → s posn ≡ prop
      → total f (move_up s posn ch prop) n ≡ total f s n
  unfolding move_up
  total-move_up n posn ch s prop lt h e =
      let one = total-update n posn s (s ch) (omega arith) in
      let two = total-update n ch (update s posn (s ch)) prop h in
      let at = ap f (update_ne s posn ch (s ch) (λ q. omega arith)) in
      let val = ap f e in omega (arith, one, two, at, val)

  move_up-child : (s : ℕ → Slot) (posn ch : ℕ) (prop : Slot) → move_up s posn ch prop ch ≡ prop
  unfolding move_up
  move_up-child s posn ch prop = update_self (update s posn (s ch)) ch prop

  total-sift_down :
      (n used : ℕ) (slots : ℕ → Slot) (posn : ℕ) (prop : Slot)
      → slots posn ≡ prop
      → total f (sift_down n used slots posn prop) used ≡ total f slots used
  unfolding sift_down turn_at
  total-sift_down zero used slots posn prop e = refl
  total-sift_down (suc n) used slots posn prop e =
      let s : (ℕ → Slot) = fill_right used slots posn in
      let filled = total-fill_right slots used posn in
      let here = fill_right-here slots used posn ∙ e in
      if_elim (λ (t : ℕ → Slot). total f t used ≡ total f slots used) (leb used (lchild posn))
        (λ leaf. refl)
        (λ inner.
          turn_elim (λ (t : ℕ → Slot). total f t used ≡ total f slots used) _ _ _ _ _ _
            (λ l r. filled)
            (λ r o.
              let inside = right_below slots used posn prop e r in
              total-sift_down n used _ (rchild posn) prop (move_up-child s posn (rchild posn) prop)
              ∙ (total-move_up used posn (rchild posn) s prop (omega arith) inside here ∙ filled))
            (λ l o.
              total-sift_down n used _ (lchild posn) prop (move_up-child s posn (lchild posn) prop)
              ∙ (total-move_up used posn (lchild posn) s prop (omega arith) (ground arith) here
                  ∙ filled)))

  total-left_heap :
      (slots : ℕ → Slot) (last : ℕ)
      → total f (left_heap slots last) last + f (slots 0) ≡ total f slots (last + 1)
  unfolding left_heap
  total-left_heap slots last =
      if_elim (λ (s : ℕ → Slot). total f s last + f (slots 0) ≡ total f slots (last + 1))
        (last == 0)
        (λ e.
          let zero_last : last ≡ 0 = eq_of_== last 0 e in
          let same = ap (λ (j : ℕ). f (slots j)) zero_last in
          omega (arith, total-add_one slots last, same))
        (λ e.
          let sifted =
            total-sift_down last last (update slots 0 (slots last)) 0 (slots last)
              (update_self slots 0 (slots last)) in
          let pos = ne_of_== last 0 e in
          let root = total-update last 0 slots (slots last) (omega (arith, pos)) in
          omega (arith, sifted, root, total-add_one slots last))

  total-put :
      (h : InstHeap) (o : Slot)
      → total f (put h o).slots (put h o).used ≡ total f h.slots h.used + f o
  unfolding put
  total-put h o =
      let s : (ℕ → Slot) = update h.slots h.used o in
      let up =
        total-sift_up h.used (h.used + 1) h.used s o (omega arith) (update_self h.slots h.used o) in
      let top = ap f (update_self h.slots h.used o) in
      omega (
        arith,
        up,
        total-add_one s h.used,
        total-outside h.used h.used h.slots o (omega arith),
        top,
      )

  total-insert :
      (h : InstHeap) (o : Slot)
      → total f (insert h o).slots (insert h o).used ≡ total f h.slots h.used + f o
  unfolding insert make_room resize
  total-insert h o =
      total-put (make_room h) o
      ∙ if_elim (λ (g : InstHeap). total f g.slots g.used + f o ≡ total f h.slots h.used + f o)
          (leb h.size h.used) (λ e. refl) (λ e. refl)

-- insert keeps the order of the heap (no element is less than its parent's), and adds the new element
-- to those that it holds: the sum of any function of the elements grows by its value at the new one.
pub insert_lem :
    (h : InstHeap) (o : Slot) (f : Slot → ℕ)
    → IsHeap h.slots h.used
    → IsHeap ((insert h o).slots) ((insert h o).used)
      × (total f (insert h o).slots (insert h o).used ≡ total f h.slots h.used + f o)
insert_lem h o f heap = (insert-IsHeap h o heap, total-insert f h o)

-- On a heap that has an element and is in order, GetMin gives an element that is not greater than the
-- element at any index i below `used`, and leaves a heap in order that has one element less, that
-- one: the sum of any function of the elements falls by its value at the element given.
pub get_min_lem :
    (h : InstHeap) (f : Slot → ℕ) (i : ℕ)
    → IsHeap h.slots h.used
    → i < h.used
    → (o : Slot) × (g : InstHeap) × (get_min h ≡ some (o, g))
      × Le o (h.slots i)
      × IsHeap g.slots g.used
      × (g.used + 1 ≡ h.used)
      × (total f g.slots g.used + f o ≡ total f h.slots h.used)
get_min_lem h f i heap lt =
    let last : ℕ = h.used - 1 in
    let full : ◌≡◌ {A = ℕ} (last + 1) h.used = omega arith in
    (
      h.slots 0,
      record h { slots = left_heap h.slots last; used = last },
      get_min-some h (omega arith),
      root_least h.used h.slots h.used i heap lt (omega arith),
      left_heap-IsHeap h.slots last (subst (λ (n : ℕ). IsHeap h.slots n) (sym full) heap),
      full,
      total-left_heap f h.slots last ∙ ap (total f h.slots) full,
    )
