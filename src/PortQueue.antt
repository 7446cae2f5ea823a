-- ===== src/PortQueue.antt =====
-- The queue of requests at a port between two modules (MemSys/route.c), with the place for one
-- request more than the queue holds.
pub mod Fifo
mod Tests
use rsim.Prelude.{
  ℕ, ◌+◌, ◌-◌, Bool, true, false, Option, none, some, List, [], ◌∷◌, ◌++◌, ltb, leb, ◌==◌,
  if◌then◌else◌, is_some, ◌&&◌,
}
use rsim.Prelude.Result.{Result, ok, fatal, ◌>>=◌}

-- `SMPORT`, for requests of a type: `head` and `tail` are the ends of the list. `sleeps` says that
-- the port's module has an activity in `Sim` and waits for room (WAIT_OUTQ_FULL or WAIT_QUEUE_EVENT).
pub record Port {ℓ} (A : Type ℓ) : Type ℓ where
  pub queue : List A
  pub ov_req : Option A
  pub q_size : ℕ
  pub q_sz_tot : ℕ
  pub sleeps : Bool

module _ {ℓ} {A : Type ℓ} where
  -- `checkQ`: the room before the overflow entry, or `none` for -1
  unfoldable pub check_q : Port A → Option ℕ
  check_q p =
      if p.q_sz_tot - p.q_size == 0 && is_some p.ov_req then none else some (p.q_sz_tot - p.q_size)

  -- `checkQEmp`: the number of requests in the queue, or 1 for one in the overflow entry alone
  pub check_q_emp : Port A → ℕ
  check_q_emp p = if p.q_size == 0 && is_some p.ov_req then 1 else p.q_size

  abbrev pub head_of : List A → Option A
  head_of [] = none
  head_of (x ∷ xs) = some x

  abbrev pub tail_of : List A → List A
  tail_of [] = []
  tail_of (x ∷ xs) = xs

  abbrev pub with_ov : List A → Option A → List A
  with_ov xs none = xs
  with_ov xs (some x) = xs ++ (x ∷ [])

  -- `peekQ`
  unfoldable pub peek_q : Port A → Option A
  peek_q p = if ltb 0 p.q_size then head_of p.queue else p.ov_req

  -- `rmQ`: the request, whether a sleeping module is woken, and the port. The module is woken when
  -- the overflow entry moves on.
  unfoldable pub rm_q : Port A → Option A × Bool × Port A
  rm_q p =
      let wakes = is_some p.ov_req && p.sleeps in
      if ltb 0 p.q_size
      then (
        head_of p.queue,
        wakes,
        record p {
          queue = with_ov (tail_of p.queue) p.ov_req;
          ov_req = none;
          q_size = if is_some p.ov_req then p.q_size else p.q_size - 1;
          sleeps = if wakes then false else p.sleeps;
        },
      )
      else (p.ov_req, wakes, record p { ov_req = none; sleeps = if wakes then false else p.sleeps })

  -- the last request of a list that starts with `x`
  abbrev pub last_of : A → List A → A
  last_of x [] = x
  last_of x (y ∷ ys) = last_of y ys

  abbrev pub init_of : A → List A → List A
  init_of x [] = []
  init_of x (y ∷ ys) = x ∷ init_of y ys

  -- the loop of `addQ` for a request of higher priority than the last one
  unfoldable pub insert_by : (prio : A → ℕ) → A → List A → Result (List A)
  insert_by prio r [] = fatal
  insert_by prio r (x ∷ xs) =
      let rest = insert_by prio r xs >>= (λ ys. ok (x ∷ ys)) in
      if ltb (prio x) (prio r) then ok (r ∷ x ∷ xs) else rest

  -- the queue with the request in its place
  unfoldable pub placed : (prio : A → ℕ) → A → List A → Result (List A)
  unfolding insert_by
  placed prio r [] = ok (r ∷ [])
  placed prio r (x ∷ xs) =
      if leb (prio r) (prio (last_of x xs))
      then ok ((x ∷ xs) ++ (r ∷ []))
      else insert_by prio r (x ∷ xs)

  -- `addQ`
  unfoldable pub add_q : (prio : A → ℕ) → Port A → A → Result (Bool × Port A)
  unfolding placed
  add_q prio p r =
      if ltb p.q_size p.q_sz_tot
      then placed prio r p.queue
        >>= (λ xs. ok (true, record p { queue = xs; q_size = p.q_size + 1 }))
      else if is_some p.ov_req
      then fatal
      else ok (false, record p { ov_req = some r })

  -- `addQ_head` when the queue is full: its last request makes room for the new one at the head
  unfoldable pub push_full : Port A → A → List A → Port A
  push_full p r [] = record p { ov_req = some r }
  push_full p r (x ∷ xs) = record p { ov_req = some (last_of x xs); queue = r ∷ init_of x xs }

  -- `addQ_head`
  unfoldable pub add_q_head : Port A → A → Result (Bool × Port A)
  unfolding push_full
  add_q_head p r =
      if ltb p.q_size p.q_sz_tot
      then ok (true, record p { queue = r ∷ p.queue; q_size = p.q_size + 1 })
      else if is_some p.ov_req
      then fatal
      else ok (false, push_full p r p.queue)
