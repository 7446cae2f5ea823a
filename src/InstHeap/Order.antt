-- ===== src/InstHeap/Order.antt =====
-- The order of the heap of instructions (Processor/instheap.cc).
use rsim.Prelude.{
  ℕ, zero, suc, ◌+◌, ◌≤◌, ◌<◌, ◌≡◌, ◌≢◌, refl, ap, ◌∙◌, sym, Bool, true, false, ◌&&◌, ltb, leb,
  if_elim, lt_of_ltb, update, update_self, update_ne, arith,
}
use native.Mathlib.Decide.{ℕ_discrete}
use rsim.InstHeap.{
  Slot, InstHeap, parent, before, exchange, sift_up, insert, put, make_room, resize,
}

-- b is not less than a
abbrev pub Le : Slot → Slot → Type 0
Le a b = before b a ≡ false

pub Le_trans : (a b c : Slot) → Le a b → Le b c → Le a c
Le_trans a b c h k = ground arith

pub Le_of_before : (a b : Slot) → before a b ≡ true → Le a b
Le_of_before a b h = ground arith

pub both_true : (a b : Bool) → (a && b) ≡ true → (a ≡ true) × (b ≡ true)
both_true true b h = (refl, h)
both_true false b h = absurd (cc)

second_false : (a b : Bool) → (a && b) ≡ false → a ≡ true → b ≡ false
second_false true b h e = h
second_false false b h e = absurd (cc)

ltb_pos : (n : ℕ) → 0 < n → ltb 0 n ≡ true
ltb_pos n h = ground arith

-- no element below `used` is less than its parent's
abbrev pub IsHeap : (ℕ → Slot) → ℕ → Type 0
IsHeap slots used = (i : ℕ) → 0 < i → i < used → Le (slots (parent i)) (slots i)

-- a heap but for the element at `step`, which may be less than its parent's
abbrev UpTo : (ℕ → Slot) → ℕ → ℕ → Slot → Type 0
UpTo slots used step o =
    (slots step ≡ o)
    × ((i : ℕ) → 0 < i → i < used → i ≢ step → Le (slots (parent i)) (slots i))
    × ((i : ℕ) → 0 < i → i < used → parent i ≡ step → 0 < step → Le (slots (parent step)) (slots i))

module _ (slots : ℕ → Slot) (step : ℕ) (o : Slot) where
  exchange-step : exchange slots step (parent step) o step ≡ slots (parent step)
  unfolding exchange
  exchange-step = ground arith

  pub exchange-parent : 0 < step → exchange slots step (parent step) o (parent step) ≡ o
  unfolding exchange
  exchange-parent h = ground arith

  exchange-other :
      (i : ℕ) → i ≢ step → i ≢ parent step → exchange slots step (parent step) o i ≡ slots i
  unfolding exchange
  exchange-other i h k = ground arith

pub Le_by : {a b x y : Slot} → a ≡ x → b ≡ y → Le x y → Le a b
Le_by {a} {b} {x} {y} e f h =
    (ap (λ (z : Slot). before b z) e ∙ ap (λ (z : Slot). before z x) f) ∙ h

module _ (slots : ℕ → Slot) (used step : ℕ) (o : Slot) (pos : 0 < step)
    (inv : UpTo slots used step o) (less : before o (slots (parent step)) ≡ true) where
  -- the elements after the exchange
  abbrev after : ℕ → Slot
  after = exchange slots step (parent step) o

  after-at-step : (i : ℕ) → i ≡ step → after i ≡ slots (parent step)
  after-at-step i e = ap after e ∙ exchange-step slots step o

  after-at-parent : (i : ℕ) → i ≡ parent step → after i ≡ o
  after-at-parent i e = ap after e ∙ exchange-parent slots step o pos

  exchange-kept : (i : ℕ) → 0 < i → i < used → i ≢ parent step → Le (after (parent i)) (after i)
  exchange-kept i h k ne = elim (ℕ_discrete i step) [
    | yes e ↦
        Le_by (after-at-parent (parent i) (ap (λ (n : ℕ). parent n) e)) (after-at-step i e)
          (Le_of_before o (slots (parent step)) less)
    | no ns ↦
        let here = exchange-other slots step o i ns ne in
        elim (ℕ_discrete (parent i) step) [
          | yes e ↦ Le_by (after-at-step (parent i) e) here (inv.2 i h k e pos)
          | no np ↦ elim (ℕ_discrete (parent i) (parent step)) [
            | yes e ↦ Le_by (after-at-parent (parent i) e) here (
                Le_trans o (slots (parent step)) (slots i)
                  (Le_of_before o (slots (parent step)) less)
                  (Le_by {b = slots i} (ap slots (sym e)) refl (inv.1 i h k ns)))
            | no nq ↦ Le_by (exchange-other slots step o (parent i) np nq) here (inv.1 i h k ns)
          ]
        ]
  ]

  exchange-below :
      (i : ℕ)
      → 0 < i
      → i < used
      → step < used
      → parent i ≡ parent step
      → 0 < parent step
      → Le (after (parent (parent step))) (after i)
  exchange-below i h k s e p =
      let top =
        exchange-other slots step o (parent (parent step)) (λ q. omega arith) (λ q. omega arith) in
      let above = inv.1 (parent step) p (omega arith) (λ q. omega arith) in
      elim (ℕ_discrete i step) [
        | yes q ↦ Le_by top (after-at-step i q) above
        | no ns ↦ Le_by top (exchange-other slots step o i ns (λ q. omega arith)) (
            Le_trans (slots (parent (parent step))) (slots (parent step)) (slots i) above
              (Le_by {b = slots i} (ap slots (sym e)) refl (inv.1 i h k ns)))
      ]

  exchange-UpTo : step < used → UpTo after used (parent step) o
  exchange-UpTo s = (
    exchange-parent slots step o pos,
    λ i h k ne. exchange-kept i h k ne,
    λ i h k e p. exchange-below i h k s e p,
  )

sift_up-IsHeap :
    (n : ℕ) (slots : ℕ → Slot) (used step : ℕ) (o : Slot)
    → step ≤ n
    → step < used
    → UpTo slots used step o
    → IsHeap (sift_up n slots step o) used
unfolding sift_up
sift_up-IsHeap zero slots used step o le lt inv = λ i h k. inv.1 i h k (λ e. omega arith)
sift_up-IsHeap (suc n) slots used step o le lt inv =
    if_elim (λ (s : ℕ → Slot). IsHeap s used) (ltb 0 step && before o (slots (parent step)))
      (λ go.
        let w = both_true _ _ go in
        let pos = lt_of_ltb 0 step (w.0) in
        sift_up-IsHeap n _ used (parent step) o (omega arith) (omega arith)
          (exchange-UpTo slots used step o pos inv (w.1) lt))
      (λ stop i h k. elim (ℕ_discrete i step) [
        | yes e ↦
            Le_by (ap (λ (j : ℕ). slots (parent j)) e) (ap slots e ∙ inv.0)
              (second_false _ _ stop (ltb_pos step (omega arith)))
        | no ne ↦ inv.1 i h k ne
      ])

-- the root of a heap is less than or equal to every element
pub root_least :
    (n : ℕ) (slots : ℕ → Slot) (used i : ℕ)
    → IsHeap slots used
    → i < used
    → i ≤ n
    → Le (slots 0) (slots i)
root_least n slots used zero heap lt le = ground arith
root_least zero slots used (suc i) heap lt le = absurd (omega arith)
root_least (suc n) slots used (suc i) heap lt le =
    Le_trans (slots 0) (slots (parent (suc i))) (slots (suc i))
      (root_least n slots used (parent (suc i)) heap (omega arith) (omega arith))
      (heap (suc i) (omega arith) lt)

put-UpTo :
    (slots : ℕ → Slot) (used : ℕ) (o : Slot)
    → IsHeap slots used
    → UpTo (update slots used o) (used + 1) used o
put-UpTo slots used o heap = (
  update_self slots used o,
  λ i h k ne.
      Le_by (update_ne slots used (parent i) o (λ e. omega arith)) (update_ne slots used i o ne)
        (heap i h (omega arith)),
  λ i h k e p. absurd (omega arith),
)

put-IsHeap :
    (h : InstHeap) (o : Slot) → IsHeap h.slots h.used → IsHeap ((put h o).slots) ((put h o).used)
unfolding put
put-IsHeap h o heap =
    sift_up-IsHeap h.used (update h.slots h.used o) (h.used + 1) h.used o (omega arith)
      (omega arith) (put-UpTo h.slots h.used o heap)

make_room-IsHeap :
    (h : InstHeap) → IsHeap h.slots h.used → IsHeap ((make_room h).slots) ((make_room h).used)
unfolding make_room resize
make_room-IsHeap h heap =
    if_elim (λ (g : InstHeap). IsHeap g.slots g.used) (leb h.size h.used) (λ e. heap) (λ e. heap)

-- insert keeps the order of the heap: no element is less than its parent's.
pub insert-IsHeap :
    (h : InstHeap) (o : Slot)
    → IsHeap h.slots h.used
    → IsHeap ((insert h o).slots) ((insert h o).used)
unfolding insert
insert-IsHeap h o heap = put-IsHeap (make_room h) o (make_room-IsHeap h heap)
