-- ===== src/Pipeline/Advance.antt =====
-- `CyclePipe` keeps the entries of a pipeline in their order, and leaves the input stage packed.
use rsim.Prelude.{
  ℕ, zero, suc, ◌+◌, ◌-◌, ◌*◌, ◌≤◌, ◌<◌, max, ◌≡◌, refl, ◌≢◌, ◌∙◌, ap, Option, none, some, arith,
  Option-cases, inl, inr, ltb, true, false, lt_of_ltb, le_of_ltb, Bool-cases,
}
use native.Mathlib.Decide.{dec_lt}
use rsim.Pipeline.{
  ReqPtr, Pipe, Cycle, find_space, place_entry, cycle_entry, cycle_slot, cycle_stage, cycle_stages,
  cycled,
}
use rsim.Pipeline.Entries.{entries, IsFree, entries-move}

-- The loops' invariant, for an array of `total` slots whose input stage starts at `base`: the entries
-- are the old ones, the slots between `freespace` and `ctr` are free, and `in_last` counts the
-- entries that have come to rest in the input stage.
pub record IsCycled (old : ℕ → Option ReqPtr) (total base : ℕ) (st : Cycle) : Type 0 where
  pub below : st.freespace ≤ st.ctr
  pub free : IsFree st.pipe st.freespace st.ctr
  pub same : entries st.pipe 0 total ≡ entries old 0 total
  pub counted : st.in_last ≡ st.freespace - base

-- Where the loop over `freespace` stops, from a start at or above `freespace`: the slots up to
-- `ctr` are free, so it stops at once.
find_space-start :
    (pipe : ℕ → Option ReqPtr) (lo start ctr : ℕ)
    → IsFree pipe lo ctr
    → lo ≤ start
    → start ≤ ctr
    → find_space pipe (ctr - start) start ≡ start
unfolding find_space
find_space-start pipe lo start ctr free h k = go (ctr - start) refl
  where
    go : (n : ℕ) → ctr - start ≡ n → find_space pipe n start ≡ start
    go zero e = refl
    go (suc n) e = rw (free start h (omega arith), find_space)

module _ {old : ℕ → Option ReqPtr} {total base : ℕ} where
  module _ (dep wid : ℕ) (st : Cycle) (c : IsCycled old total base st) (r : ReqPtr)
      (here : st.pipe st.ctr ≡ some r) (room : st.ctr < total) (last : base ≡ wid * (dep - 1)) where
    open st use {pipe, freespace, ctr, in_last}

    -- the entry moves down
    place_entry-moved :
        (stop : ℕ)
        → freespace ≤ stop
        → stop < ctr
        → (stop ≢ freespace → stop < base)
        → IsCycled old total base (place_entry dep wid stop st r)
    unfolding place_entry
    place_entry-moved stop lo hi low =
        let t : ltb stop ctr ≡ true = ground arith in
        rw t (record {
          below = omega arith;
          free = λ j a b. ground (arith, c.free j);
          same =
              entries-move pipe r stop ctr total hi room (λ j a b. c.free j (omega arith) b) here
              ∙ c.same;
          counted = ground (arith, c.counted);
        })

    -- the entry stays
    place_entry-stays :
        freespace ≤ ctr
        → (ctr ≢ freespace → ctr < base)
        → IsCycled old total base (place_entry dep wid ctr st r)
    unfolding place_entry
    place_entry-stays lo low =
        let t : ltb ctr ctr ≡ false = ground arith in
        rw t (record {
          below = omega arith;
          free = λ j a b. absurd (omega arith);
          same = c.same;
          counted = ground (arith, c.counted);
        })

    place_entry-IsCycled :
        (stop : ℕ)
        → freespace ≤ stop
        → stop ≤ ctr
        → (stop ≢ freespace → stop < base)
        → IsCycled old total base (place_entry dep wid stop st r)
    place_entry-IsCycled stop lo hi low = elim (Bool-cases (ltb stop ctr)) [
      | inl t ↦ place_entry-moved stop lo (lt_of_ltb stop ctr t) low
      | inr t ↦
          let e : stop ≡ ctr = omega (arith, le_of_ltb stop ctr t) in
          rw e (place_entry-stays (omega arith) (rw e at low))
    ]

    cycle_entry-IsCycled :
        (i : ℕ)
        → (i - 1) * wid ≤ ctr
        → (i - 1) * wid ≤ base - 1
        → IsCycled old total base (cycle_entry dep wid i st r)
    unfolding cycle_entry
    cycle_entry-IsCycled i lo low =
        let stop = max ((i - 1) * wid) freespace in
        let b : freespace ≤ ctr = c.below in
        let at : find_space pipe (ctr - stop) stop ≡ stop =
          find_space-start pipe freespace stop ctr c.free (omega arith) (omega arith) in
        rw at (place_entry-IsCycled stop (omega arith) (omega arith) (omega arith))

  -- One slot: the invariant, and `ctr` steps on.
  module _ (dep wid i : ℕ) (st : Cycle) (c : IsCycled old total base st) (room : st.ctr < total)
      (last : base ≡ wid * (dep - 1)) (lo : (i - 1) * wid ≤ st.ctr)
      (low : (i - 1) * wid ≤ base - 1) where
    skip : st.pipe st.ctr ≡ none → IsCycled old total base (record st { ctr = st.ctr + 1 })
    skip e = record {
      below = omega (arith, c.below);
      free = λ j a b. elim (dec_lt j st.ctr) [
        | yes lt ↦ c.free j a lt
        | no ge ↦ let e' : j ≡ st.ctr = omega arith in ap st.pipe e' ∙ e
      ];
      same = c.same;
      counted = c.counted;
    }

    cycle_slot-IsCycled : IsCycled old total base (cycle_slot dep wid i st)
    unfolding cycle_slot
    cycle_slot-IsCycled = elim (Option-cases (st.pipe st.ctr)) [
      | inl e ↦ rw (e, cycle_slot) (skip e)
      | inr (r, e) ↦ rw (e, cycle_slot) (cycle_entry-IsCycled dep wid st c r e room last i lo low)
    ]

    ctr-cycle_slot : (cycle_slot dep wid i st).ctr ≡ st.ctr + 1
    unfolding cycle_slot cycle_entry place_entry
    ctr-cycle_slot = ground arith

  -- the slots of one stage
  cycle_stage-IsCycled :
      (dep wid i : ℕ)
      → base ≡ wid * (dep - 1)
      → (i - 1) * wid ≤ base - 1
      → (n : ℕ) (st : Cycle) → IsCycled old total base st
      → st.ctr + n ≤ total
      → (i - 1) * wid ≤ st.ctr
      → IsCycled old total base (cycle_stage dep wid i n st)
        × ((cycle_stage dep wid i n st).ctr ≡ st.ctr + n)
  unfolding cycle_stage
  cycle_stage-IsCycled dep wid i last low zero st c room lo = (c, omega arith)
  cycle_stage-IsCycled dep wid i last low (suc n) st c room lo =
      let st' = cycle_slot dep wid i st in
      let step : st'.ctr ≡ st.ctr + 1 = ctr-cycle_slot dep wid i st c (omega arith) last lo low in
      let c' = cycle_slot-IsCycled dep wid i st c (omega arith) last lo low in
      let rest = cycle_stage-IsCycled dep wid i last low n st' c' (omega arith) (omega arith) in
      (rest.0, omega (arith, rest.1))

below_base : (i wid dep : ℕ) → i < dep → 0 < wid → (i - 1) * wid ≤ wid * (dep - 1) - 1
below_base zero wid dep h k = omega arith
below_base (suc i) wid dep h k = grind arith

in_stage : (i n wid dep : ℕ) → i + suc n ≡ dep → i * wid + wid ≤ dep * wid
in_stage i n wid dep e = grind arith

next_stage : (i wid : ℕ) → (i + 1) * wid ≡ i * wid + wid
next_stage i wid = omega arith

above_stage : (i wid : ℕ) → (i - 1) * wid ≤ i * wid
above_stage zero wid = omega arith
above_stage (suc i) wid = grind arith

module _ {old : ℕ → Option ReqPtr} (dep wid : ℕ) (wide : 0 < wid) where
  cycle_stages-IsCycled :
      (n i : ℕ) (st : Cycle)
      → i + n ≡ dep
      → st.ctr ≡ i * wid
      → IsCycled old (dep * wid) (wid * (dep - 1)) st
      → IsCycled old (dep * wid) (wid * (dep - 1)) (cycle_stages dep wid n i st)
        × ((cycle_stages dep wid n i st).ctr ≡ dep * wid)
  unfolding cycle_stages
  cycle_stages-IsCycled zero i st e at c = (c, let e' : i ≡ dep = omega arith in rw (← e') at)
  cycle_stages-IsCycled (suc n) i st e at c =
      let done =
        cycle_stage-IsCycled dep wid i refl (below_base i wid dep (omega arith) wide) wid st c
          (omega (arith, in_stage i n wid dep e)) (omega (arith, above_stage i wid)) in
      cycle_stages-IsCycled n (i + 1) (cycle_stage dep wid i wid st) (omega arith)
        (omega (arith, done.1, next_stage i wid)) done.0

pub cycled-IsCycled :
    (p : Pipe)
    → 0 < p.width
    → IsCycled p.pipe (p.depth * p.width) (p.width * (p.depth - 1)) (cycled p)
      × ((cycled p).ctr ≡ p.depth * p.width)
unfolding cycled
cycled-IsCycled p wide =
    cycle_stages-IsCycled p.depth p.width wide p.depth 0 start (omega arith) (omega arith) (record {
      below = omega arith;
      free = λ j a b. absurd (omega arith);
      same = refl;
      counted = omega arith;
    })
  where
    start : Cycle
    start = record { pipe = p.pipe; freespace = 0; ctr = 0; in_last = 0 }
