-- ===== src/CircQ.antt =====
-- The circular queue of incl/Processor/circq.h, which holds the active list and the tag converter.
pub mod Fifo
pub mod Found
mod Tests
use Prim.Native.Nat.{bit_and}
use rsim.Prelude.{
  ℕ, zero, suc, ◌+◌, ◌-◌, ◌/◌, Bool, Option, none, some, ltb, leb, ◌==◌, if◌then◌else◌, update,
}

-- class circq. `max_elts` is `max`, and `sz` the power of two above it; `mask` is `sz` - 1.
pub record CircQ {ℓ} (A : Type ℓ) : Type ℓ where
  pub arr : ℕ → A
  pub sz : ℕ
  pub head : ℕ
  pub tail : ℕ
  pub cnt : ℕ
  pub max_elts : ℕ

module _ {ℓ} {A : Type ℓ} where
  -- & mask, and -- followed by it
  unfoldable pub masked : CircQ A → ℕ → ℕ
  masked q x = bit_and x (q.sz - 1)

  unfoldable pub before_index : CircQ A → ℕ → ℕ
  before_index q x = masked q (if x == 0 then 4294967295 else x - 1)

  -- Insert, with `none` for the result 0
  unfoldable pub insert_tail : CircQ A → A → Option (CircQ A)
  insert_tail q d =
      if q.cnt == q.max_elts
      then none
      else some
          (record q { cnt = q.cnt + 1; arr = update q.arr q.tail d; tail = masked q (q.tail + 1) })

  -- InsertAtHead
  unfoldable pub insert_head : CircQ A → A → Option (CircQ A)
  insert_head q d =
      if q.cnt == q.max_elts
      then none
      else some (record q {
        cnt = q.cnt + 1;
        head = before_index q q.head;
        arr = update q.arr (before_index q q.head) d;
      })

  -- Delete and DeleteFromTail
  unfoldable pub delete_head : CircQ A → Option (A × CircQ A)
  delete_head q =
      if q.cnt == 0
      then none
      else some (q.arr q.head, record q { cnt = q.cnt - 1; head = masked q (q.head + 1) })

  unfoldable pub delete_tail : CircQ A → Option (A × CircQ A)
  delete_tail q =
      if q.cnt == 0
      then none
      else some (
        q.arr (before_index q q.tail),
        record q { cnt = q.cnt - 1; tail = before_index q q.tail },
      )

  -- PeekHead, PeekTail, PeekElt and SetElt
  unfoldable pub peek_head : CircQ A → Option A
  peek_head q = if q.cnt == 0 then none else some (q.arr q.head)

  unfoldable pub peek_tail : CircQ A → Option A
  peek_tail q = if q.cnt == 0 then none else some (q.arr (before_index q q.tail))

  unfoldable pub peek_elt : CircQ A → ℕ → Option A
  peek_elt q ind = if leb q.cnt ind then none else some (q.arr (masked q (q.head + ind)))

  unfoldable pub set_elt : CircQ A → A → ℕ → Option (CircQ A)
  set_elt q d ind =
      if leb q.cnt ind
      then none
      else some (record q { arr = update q.arr (masked q (q.head + ind)) d })

  -- reset
  unfoldable pub reset : CircQ A → CircQ A
  reset q = record q { cnt = 0; head = 0; tail = 0 }

  -- The loop of Search by a key, between lo and the index before hi1, with at most the given number
  -- of rounds: the element and its position from the head.
  unfoldable pub search_loop : (A → ℕ) → (key : ℕ) → CircQ A → ℕ → (lo hi1 : ℕ) → Option (A × ℕ)
  search_loop key_of key q zero lo hi1 = none
  search_loop key_of key q (suc n) lo hi1 =
      let mid : ℕ = (lo + hi1 - 1) / 2 in
      let x : A = q.arr (masked q mid) in
      let above = search_loop key_of key q n (mid + 1) hi1 in
      let below = search_loop key_of key q n lo mid in
      if leb hi1 lo
      then none
      else if key_of x == key
      then some (x, mid - q.head)
      else if ltb (key_of x) key
      then above
      else below

  -- Search: from the head to the tail, which comes around when it is not behind the head
  unfoldable pub search : (A → ℕ) → (key : ℕ) → CircQ A → Option (A × ℕ)
  search key_of key q =
      let hi1 : ℕ = if leb q.tail q.head then q.tail + q.sz else q.tail in
      search_loop key_of key q (q.sz + 1) q.head hi1
