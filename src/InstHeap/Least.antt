-- ===== src/InstHeap/Least.antt =====
-- What GetMin takes out of the heap of instructions (Processor/instheap.cc), and the order it leaves.
use rsim.Prelude.{
  ℕ, zero, suc, ◌+◌, ◌-◌, ◌≤◌, ◌<◌, ◌≡◌, ◌≢◌, ◌⊎◌, inl, inr, refl, ap, ◌∙◌, sym, Bool, true, false,
  some, ltb, leb, ◌==◌, if◌then◌else◌, if_elim, update, update_self, update_ne, arith, Bool-cases,
}
use mathlib.Core.Path.{subst}
use native.Mathlib.Decide.{ℕ_discrete}
use rsim.InstHeap.{
  Slot, InstHeap, lchild, rchild, parent, before, turn, fill_right, turn_at, move_up, sift_down,
  get_min,
}
use rsim.InstHeap.Order.{Le, Le_trans, Le_of_before, Le_by, IsHeap}

-- a heap but for the element at `posn`, which may be greater than its children's
abbrev DownTo : (ℕ → Slot) → ℕ → ℕ → Slot → Type 0
DownTo slots used posn prop =
    (slots posn ≡ prop)
    × ((i : ℕ) → 0 < i → i < used → parent i ≢ posn → Le (slots (parent i)) (slots i))
    × ((i : ℕ) → 0 < i → i < used → parent i ≡ posn → 0 < posn → Le (slots (parent posn)) (slots i))

module _ (s : ℕ → Slot) (used posn ch : ℕ) (prop : Slot) (inv : DownTo s used posn prop)
    (pos : 0 < ch) (child : parent ch ≡ posn) (lt : ch < used) (less : before (s ch) prop ≡ true)
    (least : (i : ℕ) → 0 < i → i < used → parent i ≡ posn → Le (s ch) (s i)) where
  abbrev moved : ℕ → Slot
  moved = move_up s posn ch prop

  moved-child : (i : ℕ) → i ≡ ch → moved i ≡ prop
  unfolding move_up
  moved-child i e = ap moved e ∙ update_self (update s posn (s ch)) ch prop

  moved-posn : (i : ℕ) → i ≡ posn → moved i ≡ s ch
  unfolding move_up
  moved-posn i e =
      ap moved e
      ∙ (update_ne (update s posn (s ch)) ch posn prop (λ q. omega arith)
          ∙ update_self s posn (s ch))

  moved-other : (i : ℕ) → i ≢ ch → i ≢ posn → moved i ≡ s i
  unfolding move_up
  moved-other i nc np = update_ne (update s posn (s ch)) ch i prop nc ∙ update_ne s posn i (s ch) np

  moved-kept : (i : ℕ) → 0 < i → i < used → parent i ≢ ch → Le (moved (parent i)) (moved i)
  moved-kept i h k ne = elim (ℕ_discrete i ch) [
    | yes e ↦
        Le_by (moved-posn (parent i) (ap (λ (j : ℕ). parent j) e ∙ child)) (moved-child i e)
          (Le_of_before (s ch) prop less)
    | no nc ↦ elim (ℕ_discrete i posn) [
      | yes e ↦ Le_by (moved-other (parent i) ne (λ q. omega arith)) (moved-posn i e) (
          Le_by {b = s ch} (ap (λ (j : ℕ). s (parent j)) e) refl
            (inv.2 ch pos lt child (omega arith)))
      | no np ↦ elim (ℕ_discrete (parent i) posn) [
        | yes q ↦ Le_by (moved-posn (parent i) q) (moved-other i nc np) (least i h k q)
        | no nq ↦ Le_by (moved-other (parent i) ne nq) (moved-other i nc np) (inv.1 i h k nq)
      ]
    ]
  ]

  move-DownTo : DownTo moved used ch prop
  move-DownTo = (
    moved-child ch refl,
    moved-kept,
    λ i h k e p.
        Le_by (moved-posn (parent ch) child) (moved-other i (λ q. omega arith) (λ q. omega arith))
          (Le_by {b = s i} (ap s (sym e)) refl (inv.1 i h k (λ q. omega arith))),
  )

fill_right-DownTo :
    (slots : ℕ → Slot) (used posn : ℕ) (prop : Slot)
    → DownTo slots used posn prop
    → DownTo (fill_right used slots posn) used posn prop
unfolding fill_right
fill_right-DownTo slots used posn prop inv = elim (Bool-cases (leb used (rchild posn))) [
  | inl full ↦
      let at : (i : ℕ) → i ≢ rchild posn → update slots (rchild posn) (slots posn) i ≡ slots i =
        λ i ne. update_ne slots (rchild posn) i (slots posn) ne in
      let past : used ≤ rchild posn = ground arith in
      subst
        (λ (t : Bool).
          DownTo (if t then update slots (rchild posn) (slots posn) else slots) used posn prop)
        (sym full)
        ((
          at posn (λ q. omega arith) ∙ inv.0,
          λ i h k ne.
              Le_by (at (parent i) (λ q. omega arith)) (at i (λ q. omega arith)) (inv.1 i h k ne),
          λ i h k e p.
              Le_by (at (parent posn) (λ q. omega arith)) (at i (λ q. omega arith))
                (inv.2 i h k e p),
        ))
  | inr room ↦
      subst
        (λ (t : Bool).
          DownTo (if t then update slots (rchild posn) (slots posn) else slots) used posn prop)
        (sym room) inv
]

pub fill_right-copy :
    (slots : ℕ → Slot) (used posn : ℕ)
    → used ≤ rchild posn
    → fill_right used slots posn (rchild posn) ≡ slots posn
unfolding fill_right
fill_right-copy slots used posn h = ground arith

pub turn_elim :
    (P : (ℕ → Slot) → Type 0) (a b c : Bool) (x y z : ℕ → Slot)
    → (a ≡ false → b ≡ false → P x)
    → (b ≡ true → (a ≡ false) ⊎ (c ≡ false) → P y)
    → (a ≡ true → (b ≡ false) ⊎ (c ≡ true) → P z)
    → P (if turn a b c == 0 then x else if turn a b c == 1 then y else z)
unfolding turn
turn_elim P false false c x y z f g h = f refl refl
turn_elim P false true c x y z f g h = g refl (inl refl)
turn_elim P true true false x y z f g h = g refl (inr refl)
turn_elim P true false c x y z f g h = h refl (inl refl)
turn_elim P true true true x y z f g h = h refl (inr refl)

children : (i posn : ℕ) → 0 < i → parent i ≡ posn → (i ≡ lchild posn) ⊎ (i ≡ rchild posn)
children i posn h e = grind arith

Le_refl : (a : Slot) → Le a a
Le_refl a = ground arith

pub not_before_itself : (a b : Slot) → a ≡ b → before a b ≢ true
not_before_itself a b e h =
    let w : before b b ≡ true = sym (ap (λ (z : Slot). before z b) e) ∙ h in ground arith

module _ (s : ℕ → Slot) (used posn : ℕ) (prop : Slot) (inv : DownTo s used posn prop)
    (copy : used ≤ rchild posn → s (rchild posn) ≡ prop) (lt : lchild posn < used) where
  -- an end, when neither child is less
  end-IsHeap :
      before (s (lchild posn)) prop ≡ false → before (s (rchild posn)) prop ≡ false → IsHeap s used
  end-IsHeap l r i h k = elim (ℕ_discrete (parent i) posn) [
    | no ne ↦ inv.1 i h k ne
    | yes e ↦
        let top = ap s e ∙ inv.0 in
        elim (children i posn h e) [ inl q ↦ Le_by top (ap s q) l | inr q ↦ Le_by top (ap s q) r ]
  ]

  right-least :
      before (s (rchild posn)) prop ≡ true
      → (before (s (lchild posn)) prop ≡ false)
        ⊎ (before (s (lchild posn)) (s (rchild posn)) ≡ false)
      → (i : ℕ) → 0 < i
      → i < used
      → parent i ≡ posn
      → Le (s (rchild posn)) (s i)
  right-least r (inl l) i h k e = elim (children i posn h e) [
    | inl q ↦ Le_by {a = s (rchild posn)} refl (ap s q) (
        Le_trans (s (rchild posn)) prop (s (lchild posn)) (Le_of_before (s (rchild posn)) prop r) l)
    | inr q ↦ Le_by {a = s (rchild posn)} refl (ap s q) (Le_refl (s (rchild posn)))
  ]
  right-least r (inr lr) i h k e = elim (children i posn h e) [
    | inl q ↦ Le_by {a = s (rchild posn)} refl (ap s q) lr
    | inr q ↦ Le_by {a = s (rchild posn)} refl (ap s q) (Le_refl (s (rchild posn)))
  ]

  left-least :
      before (s (lchild posn)) prop ≡ true
      → (before (s (rchild posn)) prop ≡ false)
        ⊎ (before (s (lchild posn)) (s (rchild posn)) ≡ true)
      → (i : ℕ) → 0 < i
      → i < used
      → parent i ≡ posn
      → Le (s (lchild posn)) (s i)
  left-least l (inl r) i h k e = elim (children i posn h e) [
    | inl q ↦ Le_by {a = s (lchild posn)} refl (ap s q) (Le_refl (s (lchild posn)))
    | inr q ↦ Le_by {a = s (lchild posn)} refl (ap s q) (
        Le_trans (s (lchild posn)) prop (s (rchild posn)) (Le_of_before (s (lchild posn)) prop l) r)
  ]
  left-least l (inr lr) i h k e = elim (children i posn h e) [
    | inl q ↦ Le_by {a = s (lchild posn)} refl (ap s q) (Le_refl (s (lchild posn)))
    | inr q ↦
        Le_by {a = s (lchild posn)} refl (ap s q)
          (Le_of_before (s (lchild posn)) (s (rchild posn)) lr)
  ]

  -- a right child that is less is below `used`
  right-inside : before (s (rchild posn)) prop ≡ true → rchild posn < used
  right-inside r = elim (Bool-cases (ltb (rchild posn) used)) [
    | inl y ↦ ground arith
    | inr n ↦
        let same = copy (ground arith) in absurd (not_before_itself (s (rchild posn)) prop same r)
  ]

  right-DownTo :
      before (s (rchild posn)) prop ≡ true
      → (before (s (lchild posn)) prop ≡ false)
        ⊎ (before (s (lchild posn)) (s (rchild posn)) ≡ false)
      → DownTo (move_up s posn (rchild posn) prop) used (rchild posn) prop
  right-DownTo r o =
      move-DownTo s used posn (rchild posn) prop inv (omega arith) (omega arith) (right-inside r) r
        (right-least r o)

  left-DownTo :
      before (s (lchild posn)) prop ≡ true
      → (before (s (rchild posn)) prop ≡ false)
        ⊎ (before (s (lchild posn)) (s (rchild posn)) ≡ true)
      → DownTo (move_up s posn (lchild posn) prop) used (lchild posn) prop
  left-DownTo l o =
      move-DownTo s used posn (lchild posn) prop inv (omega arith) (omega arith) lt l
        (left-least l o)

sift_down-IsHeap :
    (n used : ℕ) (slots : ℕ → Slot) (posn : ℕ) (prop : Slot)
    → used ≤ posn + n
    → DownTo slots used posn prop
    → IsHeap (sift_down n used slots posn prop) used
unfolding sift_down turn_at
sift_down-IsHeap zero used slots posn prop le inv = λ i h k. inv.1 i h k (λ e. omega arith)
sift_down-IsHeap (suc n) used slots posn prop le inv =
    let s : (ℕ → Slot) = fill_right used slots posn in
    let filled = fill_right-DownTo slots used posn prop inv in
    let copy = λ (h : used ≤ rchild posn). fill_right-copy slots used posn h ∙ inv.0 in
    if_elim (λ (t : ℕ → Slot). IsHeap t used) (leb used (lchild posn))
      (λ leaf i h k. inv.1 i h k (λ e. ground arith))
      (λ inner.
        let lt : lchild posn < used = ground arith in
        turn_elim (λ (t : ℕ → Slot). IsHeap t used) _ _ _ _ _ _
          (end-IsHeap s used posn prop filled copy lt)
          (λ r o.
            sift_down-IsHeap n used _ (rchild posn) prop (omega arith)
              (right-DownTo s used posn prop filled copy lt r o))
          (λ l o.
            sift_down-IsHeap n used _ (lchild posn) prop (omega arith)
              (left-DownTo s used posn prop filled copy lt l o)))

taken_out :
    (slots : ℕ → Slot) (last : ℕ)
    → IsHeap slots (last + 1)
    → DownTo (update slots 0 (slots last)) last 0 (slots last)
taken_out slots last heap = (
  update_self slots 0 (slots last),
  λ i h k ne.
      Le_by (update_ne slots 0 (parent i) (slots last) ne)
        (update_ne slots 0 i (slots last) (λ q. omega arith)) (heap i h (omega arith)),
  λ i h k e p. absurd (omega arith),
)

-- the heap that GetMin leaves
unfoldable pub left_heap : (slots : ℕ → Slot) (last : ℕ) → (ℕ → Slot)
left_heap slots last =
    if last == 0 then slots else sift_down last last (update slots 0 (slots last)) 0 (slots last)

pub left_heap-IsHeap :
    (slots : ℕ → Slot) (last : ℕ) → IsHeap slots (last + 1) → IsHeap (left_heap slots last) last
unfolding left_heap
left_heap-IsHeap slots last heap =
    if_elim (λ (s : ℕ → Slot). IsHeap s last) (last == 0) (λ e i h k. heap i h (omega arith))
      (λ e. sift_down-IsHeap last last _ 0 (slots last) (omega arith) (taken_out slots last heap))

-- a heap with an element has a least one to take
pub get_min-some :
    (h : InstHeap)
    → 0 < h.used
    → get_min h
      ≡ some (h.slots 0, (record h { slots = left_heap h.slots (h.used - 1); used = h.used - 1 }))
unfolding get_min left_heap
get_min-some h pos = ground arith
