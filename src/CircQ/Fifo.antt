-- ===== src/CircQ/Fifo.antt =====
-- The circular queue of incl/Processor/circq.h as a bounded queue.
use rsim.Prelude.{
  ℕ, ◌+◌, ◌-◌, ◌<◌, ◌≤◌, ◌≡◌, ◌≢◌, ◌⊎◌, ap, ◌∙◌, Bool, none, some, if◌then◌else◌, ◌==◌, List, [],
  ◌∷◌, ◌++◌, length, length-append, update, update_self, update_ne, ==_ne, arith,
}
use rsim.CircQ.{CircQ, masked, insert_tail, delete_head}
use rsim.Prelude.Masks.{IsMaskSize}

-- the index after another one, around the end
abbrev pub next_index : ℕ → ℕ → ℕ
next_index n ptr = if ptr + 1 == n then 0 else ptr + 1

module _ {ℓ} {A : Type ℓ} where
  -- The entries from ptr upwards are those of a list.
  abbrev pub HoldsFrom : ℕ → (ℕ → A) → ℕ → List A → Type ℓ
  HoldsFrom n f ptr [] = Unit {ℓ}
  HoldsFrom n f ptr (x ∷ xs) = (f ptr ≡ x) × HoldsFrom n f (next_index n ptr) xs

  -- The queue holds a list, the head first: the array has a size that is a power of two and room for
  -- `max` elements, the count is the list's length, and the tail stands so far behind the head.
  abbrev pub HoldsQueue : CircQ A → List A → Type ℓ
  HoldsQueue q xs =
      IsMaskSize q.sz
      × (q.max_elts ≤ q.sz)
      × (q.cnt ≡ length xs)
      × (q.head < q.sz)
      × (q.tail < q.sz)
      × ((q.head + length xs ≡ q.tail) ⊎ (q.head + length xs ≡ q.tail + q.sz))
      × HoldsFrom q.sz q.arr q.head xs

  -- writing behind the last entry
  HoldsFrom-append :
      (n ptr end : ℕ) (f : ℕ → A) (xs : List A) (v : A)
      → ptr < n
      → end < n
      → length xs < n
      → (ptr + length xs ≡ end) ⊎ (ptr + length xs ≡ end + n)
      → HoldsFrom n f ptr xs
      → HoldsFrom n (update f end v) ptr (xs ++ (v ∷ []))
  HoldsFrom-append n ptr end f [] v hp he hl d h =
      let here : ptr ≡ end = grind arith in (ap (update f end v) here ∙ update_self f end v, tt)
  HoldsFrom-append n ptr end f (x ∷ xs) v hp he hl d (e, h) = (
    update_ne f end ptr v (λ q. grind arith) ∙ e,
    HoldsFrom-append n (next_index n ptr) end f xs v (ground arith) he (omega arith) (grind arith)
        h,
  )

  masked-next :
      (q : CircQ A) (x : ℕ) → IsMaskSize q.sz → x < q.sz → masked q (x + 1) ≡ next_index q.sz x
  unfolding masked
  masked-next q x size h = size.1 (x + 1) (omega arith)

  appended : CircQ A → A → CircQ A
  appended q d = record q {
    cnt = q.cnt + 1;
    arr = update q.arr q.tail d;
    tail = next_index q.sz q.tail;
  }

  insert_tail-appended :
      (q : CircQ A) (d : A)
      → IsMaskSize q.sz
      → q.tail < q.sz
      → q.cnt ≢ q.max_elts
      → insert_tail q d ≡ some (appended q d)
  unfolding insert_tail appended
  insert_tail-appended q d size h room =
      ap
        (λ (b : Bool).
          if b
          then none
          else some (record q {
            cnt = q.cnt + 1;
            arr = update q.arr q.tail d;
            tail = masked q (q.tail + 1);
          }))
        (==_ne _ _ room)
      ∙ ap (λ (n : ℕ). some (record q { cnt = q.cnt + 1; arr = update q.arr q.tail d; tail = n }))
          (masked-next q q.tail size h)

  -- A queue that holds xs and is not full takes an element by Insert, and then holds xs with it at
  -- the end.
  pub insert_tail-HoldsQueue :
      (q : CircQ A) (d : A) (xs : List A)
      → HoldsQueue q xs
      → length xs < q.max_elts
      → (r : CircQ A) × (insert_tail q d ≡ some r) × HoldsQueue r (xs ++ (d ∷ []))
  unfolding appended
  insert_tail-HoldsQueue q d xs (size, le, cnt, hh, ht, dist, held) room =
      let len = length-append xs (d ∷ []) in
      (
        appended q d,
        insert_tail-appended q d size ht (λ e. omega arith),
        (
          size,
          le,
          omega (arith, len),
          hh,
          ground arith,
          grind (arith, len),
          HoldsFrom-append q.sz q.head q.tail q.arr xs d hh ht (omega arith) dist held,
        ),
      )

  removed : CircQ A → CircQ A
  removed q = record q { cnt = q.cnt - 1; head = next_index q.sz q.head }

  delete_head-removed :
      (q : CircQ A)
      → IsMaskSize q.sz
      → q.head < q.sz
      → q.cnt ≢ 0
      → delete_head q ≡ some (q.arr q.head, removed q)
  unfolding delete_head removed
  delete_head-removed q size h some_left =
      ap
        (λ (b : Bool).
          if b
          then none
          else some (q.arr q.head, (record q { cnt = q.cnt - 1; head = masked q (q.head + 1) })))
        (==_ne _ _ some_left)
      ∙ ap (λ (n : ℕ). some (q.arr q.head, (record q { cnt = q.cnt - 1; head = n })))
          (masked-next q q.head size h)

  -- A queue that holds x and then xs gives x by Delete, and then holds xs.
  pub delete_head-HoldsQueue :
      (q : CircQ A) (x : A) (xs : List A)
      → HoldsQueue q (x ∷ xs)
      → (r : CircQ A) × (delete_head q ≡ some (x, r)) × HoldsQueue r xs
  unfolding removed
  delete_head-HoldsQueue q x xs (size, le, cnt, hh, ht, dist, (e, held)) = (
    removed q,
    delete_head-removed q size hh (λ z. omega arith) ∙ ap (λ (y : A). some (y, removed q)) e,
    (size, le, omega arith, ground arith, ht, grind arith, held),
  )
