-- ===== src/PortQueue/Fifo.antt =====
-- A port (MemSys/route.c) is a bounded queue: the requests leave in the order in which they came.
use rsim.Prelude.{
  ℕ, suc, ◌+◌, ◌-◌, ◌≤◌, ◌<◌, ◌≡◌, refl, ◌≢◌, ◌⊎◌, ◌∙◌, ap, true, false, Option, none, some, List,
  [], ◌∷◌, ◌++◌, ◌==◌, ltb, leb, Bool-cases, Option-cases, inl, inr, arith, length, length-append,
  is_some, lt_of_ltb, le_of_ltb,
}
use rsim.Prelude.Result.{ok}
use rsim.PortQueue.{
  Port, check_q, peek_q, rm_q, head_of, tail_of, with_ov, last_of, init_of, placed, add_q,
  push_full, add_q_head,
}

module _ {ℓ} {A : Type ℓ} where
  -- the requests, first to leave first
  abbrev pub contents : Port A → List A
  contents p = with_ov p.queue p.ov_req

  -- The size is that of the list and within its limit, and only a full queue overflows.
  pub record IsValid (p : Port A) : Type ℓ where
    pub counted : p.q_size ≡ length p.queue
    pub bounded : p.q_size ≤ p.q_sz_tot
    pub over : is_some p.ov_req ≡ true → p.q_size ≡ p.q_sz_tot

  -- the list of what a call returns
  abbrev pub returned : Option A → List A
  returned none = []
  returned (some x) = x ∷ []

  -- What `rmQ` does to a port.
  abbrev Removed : Port A → Type ℓ
  Removed p =
      ((rm_q p).0 ≡ head_of (contents p))
      × ((rm_q p).0 ≡ peek_q p)
      × (contents (rm_q p).2 ≡ tail_of (contents p))
      × IsValid (rm_q p).2

  rm_q-empty : (p : Port A) → p.queue ≡ [] → IsValid p → Removed p
  unfolding rm_q peek_q
  rm_q-empty p e h =
      let n : p.q_size ≡ 0 = h.counted ∙ ap length e in
      let z : ltb 0 p.q_size ≡ false = ground arith in
      elim (Option-cases p.ov_req) [
        | inl o ↦ (
          ground arith,
          ground arith,
          ground arith,
          record { counted = ground arith; bounded = ground arith; over = λ k. ground arith },
        )
        | inr o ↦ (
          ground arith,
          ground arith,
          ground arith,
          record { counted = ground arith; bounded = ground arith; over = λ k. ground arith },
        )
      ]

  rm_q-first : (p : Port A) (x : A) (xs : List A) → p.queue ≡ x ∷ xs → IsValid p → Removed p
  unfolding rm_q peek_q
  rm_q-first p x xs e h =
      let n : p.q_size ≡ suc (length xs) = h.counted ∙ ap length e in
      let z : ltb 0 p.q_size ≡ true = ground arith in
      elim (Option-cases p.ov_req) [
        | inl o ↦ (
          ground arith,
          ground arith,
          ground arith,
          record { counted = ground arith; bounded = ground arith; over = λ k. ground arith },
        )
        | inr o ↦
            let len = length-append xs (o.0 ∷ []) in
            let full : p.q_size ≡ p.q_sz_tot = h.over (rw o.1) in
            (
              ground arith,
              ground arith,
              ground arith,
              record { counted = ground arith; bounded = ground arith; over = λ k. ground arith },
            )
      ]

  List-cases : (xs : List A) → (xs ≡ []) ⊎ ((x : A) × (ys : List A) × (xs ≡ x ∷ ys))
  List-cases [] = inl refl
  List-cases (x ∷ ys) = inr (x, ys, refl)

  -- `rmQ` on a valid port gives the request that `peekQ` shows, which is the oldest one, and nothing
  -- if there is none; the others stay in their order, the overflow entry among them, and the port
  -- stays valid.
  pub rm_q-Fifo :
      (p : Port A)
      → IsValid p
      → ((rm_q p).0 ≡ head_of (contents p))
        × ((rm_q p).0 ≡ peek_q p)
        × (contents (rm_q p).2 ≡ tail_of (contents p))
        × IsValid (rm_q p).2
  rm_q-Fifo p h = elim (List-cases p.queue) [
    | inl e ↦ rm_q-empty p e h
    | inr k ↦ rm_q-first p k.0 k.1 k.2 h
  ]

  -- The priority is not above that of the last request.
  abbrev pub IsLowest : (A → ℕ) → A → List A → Type 0
  IsLowest prio r [] = Unit
  IsLowest prio r (x ∷ xs) = prio r ≤ prio (last_of x xs)

  placed-last :
      (prio : A → ℕ) (r : A) (xs : List A)
      → IsLowest prio r xs
      → placed prio r xs ≡ ok (xs ++ (r ∷ []))
  unfolding placed
  placed-last prio r [] h = refl
  placed-last prio r (x ∷ xs) h =
      let y : leb (prio r) (prio (last_of x xs)) ≡ true = ground (arith, h) in rw y

  no_over : (p : Port A) → IsValid p → p.q_size < p.q_sz_tot → p.ov_req ≡ none
  no_over p h lt = elim (Option-cases p.ov_req) [
    | inl e ↦ e
    | inr k ↦ let full : p.q_size ≡ p.q_sz_tot = h.over (rw k.1) in absurd (omega arith)
  ]

  -- a port that is not at its limit, and one that is, with the request added
  roomy :
      (p : Port A) (r : A) (xs : List A)
      → IsValid p
      → p.q_size < p.q_sz_tot
      → length xs ≡ suc (length p.queue)
      → IsValid (record p { queue = xs; q_size = p.q_size + 1 })
  roomy p r xs h lt e =
      let c = h.counted in
      let o = no_over p h lt in
      record { counted = omega arith; bounded = omega arith; over = λ k. ground arith }

  -- `addQ` on a valid port that `checkQ` does not report as full, of a request with no higher
  -- priority than the last one, returns; the request comes behind all others, the port stays valid,
  -- and the result says whether the queue had room.
  pub add_q-Fifo :
      (prio : A → ℕ) (p : Port A) (r : A)
      → IsValid p
      → check_q p ≢ none
      → IsLowest prio r p.queue
      → (q : Port A) × (add_q prio p r ≡ ok (ltb p.q_size p.q_sz_tot, q))
        × (contents q ≡ contents p ++ (r ∷ []))
        × IsValid q
  unfolding add_q check_q
  add_q-Fifo prio p r h room low = elim (Bool-cases (ltb p.q_size p.q_sz_tot)) [
    | inl y ↦
        let lt = lt_of_ltb p.q_size p.q_sz_tot y in
        let o = no_over p h lt in
        let q = record p { queue = p.queue ++ (r ∷ []); q_size = p.q_size + 1 } in
        let l = length-append p.queue (r ∷ []) in
        (
          q,
          rw (y, placed-last prio r p.queue low),
          ground arith,
          roomy p r _ h lt (omega (arith, l)),
        )
    | inr n ↦
        let le : p.q_sz_tot ≤ p.q_size = le_of_ltb p.q_size p.q_sz_tot n in
        let b = h.bounded in
        elim (Option-cases p.ov_req) [
          | inl o ↦
              let no : is_some p.ov_req ≡ false = ap is_some o in
              let q = record p { ov_req = some r } in
              (
                q,
                rw (n, no),
                ground arith,
                record {
                  counted = h.counted;
                  bounded = h.bounded;
                  over = λ k. omega (arith, le, b);
                },
              )
          | inr k ↦
              let yes_over : is_some p.ov_req ≡ true = ap is_some k.1 in
              let z : (p.q_sz_tot - p.q_size == 0) ≡ true = ground arith in
              absurd (room (rw (yes_over, z)))
        ]
  ]

  length-init_of : (x : A) (xs : List A) → length (init_of x xs) ≡ length xs
  length-init_of x [] = refl
  length-init_of x (y ∷ ys) = omega (arith, length-init_of y ys)

  init-last : (x : A) (xs : List A) → init_of x xs ++ (last_of x xs ∷ []) ≡ x ∷ xs
  init-last x [] = refl
  init-last x (y ∷ ys) = ap (λ zs. x ∷ zs) (init-last y ys)

  push_full-Fifo :
      (p : Port A) (r : A) (xs : List A)
      → p.queue ≡ xs
      → p.ov_req ≡ none
      → IsValid p
      → p.q_size ≡ p.q_sz_tot
      → (contents (push_full p r xs) ≡ r ∷ contents p) × IsValid (push_full p r xs)
  unfolding push_full
  push_full-Fifo p r [] e o h full =
      (ground arith, record { counted = h.counted; bounded = h.bounded; over = λ k. full })
  push_full-Fifo p r (x ∷ xs) e o h full =
      let c : p.q_size ≡ suc (length xs) = h.counted ∙ ap length e in
      let l = length-init_of x xs in
      let s = init-last x xs in
      (
        ground arith,
        record { counted = omega (arith, c, l); bounded = h.bounded; over = λ k. full },
      )

  -- `addQ_head` on a valid port that `checkQ` does not report as full returns; the request comes
  -- before all others, which stay in their order, the port stays valid, and the result says whether
  -- the queue had room.
  pub add_q_head-Fifo :
      (p : Port A) (r : A)
      → IsValid p
      → check_q p ≢ none
      → (q : Port A) × (add_q_head p r ≡ ok (ltb p.q_size p.q_sz_tot, q))
        × (contents q ≡ r ∷ contents p)
        × IsValid q
  unfolding add_q_head check_q
  add_q_head-Fifo p r h room = elim (Bool-cases (ltb p.q_size p.q_sz_tot)) [
    | inl y ↦
        let lt = lt_of_ltb p.q_size p.q_sz_tot y in
        let o = no_over p h lt in
        let q = record p { queue = r ∷ p.queue; q_size = p.q_size + 1 } in
        (q, rw y, ground arith, roomy p r _ h lt refl)
    | inr n ↦
        let le : p.q_sz_tot ≤ p.q_size = le_of_ltb p.q_size p.q_sz_tot n in
        let b = h.bounded in
        elim (Option-cases p.ov_req) [
          | inl o ↦
              let no : is_some p.ov_req ≡ false = ap is_some o in
              let k = push_full-Fifo p r p.queue refl o h (omega (arith, le, b)) in
              (push_full p r p.queue, rw (n, no), k.0, k.1)
          | inr k ↦
              let yes_over : is_some p.ov_req ≡ true = ap is_some k.1 in
              let z : (p.q_sz_tot - p.q_size == 0) ≡ true = ground arith in
              absurd (room (rw (yes_over, z)))
        ]
  ]
