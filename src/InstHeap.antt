-- ===== src/InstHeap.antt =====
-- The heap of instructions by their time of completion, src/Processor/instheap.cc.
mod Order
mod Least
mod Contents
mod Tests
use rsim.Prelude.{
  ℕ, zero, suc, ◌+◌, ◌-◌, ◌*◌, ◌/◌, Bool, true, false, ◌&&◌, ◌||◌, not, Option, none, some, ltb,
  leb, ◌==◌, if◌then◌else◌, update,
}

-- An element of the arrays `ord`, `tags` and `obj`, which the code writes together
pub record Slot : Type 0 where
  pub ord : ℕ
  pub tag : ℕ
  pub obj : ℕ

-- class InstHeap. What the arrays have beyond `size` is whatever memory holds.
pub record InstHeap : Type 0 where
  pub slots : ℕ → Slot
  pub size : ℕ
  pub used : ℕ

abbrev pub lchild : ℕ → ℕ
lchild node = 2 * node + 1

abbrev pub rchild : ℕ → ℕ
rchild node = 2 * node + 2

abbrev pub parent : ℕ → ℕ
parent node = (node - 1) / 2

-- "less": a lower timestamp, or an equal one and a lesser tag
abbrev pub before : Slot → Slot → Bool
before a b = ltb a.ord b.ord || ((a.ord == b.ord) && ltb a.tag b.tag)

-- resize: the elements stay where they are. The code copies as many slots as the new arrays have, and so
-- reads past the end of the old ones; those slots are in no use before they are written.
unfoldable pub resize : InstHeap → ℕ → InstHeap
resize h sz = record h { size = sz }

-- the exchange of the element `o` at `step` with that of its parent
unfoldable pub exchange : (ℕ → Slot) → ℕ → ℕ → Slot → ℕ → Slot
exchange slots step par o = update (update slots par o) step (slots par)

-- the loop of insert, by at most the given number of rounds
unfoldable pub sift_up : ℕ → (ℕ → Slot) → ℕ → Slot → ℕ → Slot
sift_up zero slots step o = slots
sift_up (suc n) slots step o =
    let rest = sift_up n (exchange slots step (parent step) o) (parent step) o in
    if ltb 0 step && before o (slots (parent step)) then rest else slots

-- the test at the start of insert
unfoldable pub make_room : InstHeap → InstHeap
make_room h = if leb h.size h.used then resize h (2 * h.size) else h

-- the rest of insert. The new element goes up at most `used` times.
unfoldable pub put : InstHeap → Slot → InstHeap
put h o = record h { slots = sift_up h.used (update h.slots h.used o) h.used o; used = h.used + 1 }

unfoldable pub insert : InstHeap → Slot → InstHeap
insert h o = put (make_room h) o

-- what the switch of GetMin does: 0 for an end, 1 for the right child and 2 for the left one
unfoldable pub turn : Bool → Bool → Bool → ℕ
turn false false lr = 0
turn false true lr = 1
turn true true false = 1
turn true false lr = 2
turn true true true = 2

-- a missing right child is written as a copy of the node
unfoldable pub fill_right : ℕ → (ℕ → Slot) → ℕ → ℕ → Slot
fill_right used slots posn =
    if leb used (rchild posn) then update slots (rchild posn) (slots posn) else slots

-- the turn at a node with the element `prop`
unfoldable pub turn_at : (ℕ → Slot) → ℕ → Slot → ℕ
turn_at slots posn prop =
    turn (before (slots (lchild posn)) prop) (before (slots (rchild posn)) prop)
      (before (slots (lchild posn)) (slots (rchild posn)))

-- one round: the child's element goes up, and `prop` takes its place
unfoldable pub move_up : (ℕ → Slot) → ℕ → ℕ → Slot → ℕ → Slot
move_up slots posn child prop = update (update slots posn (slots child)) child prop

-- the loop of GetMin, by at most the given number of rounds
unfoldable pub sift_down : ℕ → ℕ → (ℕ → Slot) → ℕ → Slot → ℕ → Slot
sift_down zero used slots posn prop = slots
sift_down (suc n) used slots posn prop =
    let s : (ℕ → Slot) = fill_right used slots posn in
    let right = sift_down n used (move_up s posn (rchild posn) prop) (rchild posn) prop in
    let left = sift_down n used (move_up s posn (lchild posn) prop) (lchild posn) prop in
    if leb used (lchild posn)
    then slots
    else if turn_at s posn prop == 0
    then s
    else if turn_at s posn prop == 1
    then right
    else left

-- GetMin: the least element and the heap without it; `none` is the -1 of an empty heap
unfoldable pub get_min : InstHeap → Option (Slot × InstHeap)
get_min h =
    let last : ℕ = h.used - 1 in
    let prop : Slot = h.slots last in
    if h.used == 0
    then none
    else if last == 0
    then some (h.slots 0, record h { used = last })
    else some (
      h.slots 0,
      record h { slots = sift_down last last (update h.slots 0 prop) 0 prop; used = last },
    )
