-- ===== src/Pipeline/Order.antt =====
-- A pipeline is a queue of its entries: what `AddToPipe` and `CyclePipe` do to them, and the
-- invariant that the counters keep.
use rsim.Prelude.{
  ℕ, zero, suc, ◌+◌, ◌-◌, ◌*◌, ◌≤◌, ◌<◌, ◌≡◌, refl, sym, ap, true, false, none, some, List, [], ◌∷◌,
  ◌++◌, arith, update, length, length-append, ne_of_==,
}
use rsim.Pipeline.{
  ReqPtr, Pipe, new_pipeline, pipe_full, cycle_pipe, find_slot, add_to_pipe, get_pipe_elt,
  clear_pipe_elt,
}
use rsim.Pipeline.Entries.{entries, IsFree, entries-IsFree, entries-put, entries-clear}
use rsim.Pipeline.Advance.{cycled-IsCycled}

-- the entries, oldest first
abbrev pub contents : Pipe → List ReqPtr
contents p = entries p.pipe 0 (p.depth * p.width)

pub record IsValid (p : Pipe) : Type 0 where
  pub deep : 0 < p.depth
  pub wide : 0 < p.width
  pub fits : p.num_in_last_stage ≤ p.width
  pub next : p.where_to_add ≡ p.width * (p.depth - 1) + p.num_in_last_stage
  pub free : IsFree p.pipe p.where_to_add (p.depth * p.width)
  pub counted : p.num_in_pipe ≡ length (contents p)

size_lem : (d w : ℕ) → 0 < d → d * w ≡ w * (d - 1) + w
size_lem zero w h = absurd (omega arith)
size_lem (suc d) w h = let e : suc d - 1 ≡ d = omega arith in rw e (grind arith)

-- `CyclePipe` of a pipeline of positive width neither loses, duplicates nor reorders an entry.
pub contents-cycle_pipe : (p : Pipe) → 0 < p.width → contents (cycle_pipe p) ≡ contents p
unfolding cycle_pipe
contents-cycle_pipe p wide = (cycled-IsCycled p wide).0.same

-- `CyclePipe` keeps a pipeline valid: the counts are right again, and the next entry goes behind all
-- others, with only free slots from there on.
pub cycle_pipe-IsValid : {p : Pipe} → IsValid p → IsValid (cycle_pipe p)
unfolding cycle_pipe
cycle_pipe-IsValid {p} v =
    let (c, at) = cycled-IsCycled p v.wide in
    let b = c.below in
    let n = c.counted in
    let sz = size_lem p.depth p.width v.deep in
    record {
      deep = v.deep;
      wide = v.wide;
      fits = omega arith;
      next = ground arith;
      free = λ j lo hi. c.free j (ground arith) (omega arith);
      counted = rw c.same v.counted;
    }

-- `NewPipeline` with at least one port and one stage makes a valid pipeline without entries.
pub new_pipeline-IsValid :
    (ports stages : ℕ)
    → 0 < ports
    → 0 < stages
    → IsValid (new_pipeline ports stages) × (contents (new_pipeline ports stages) ≡ [])
unfolding new_pipeline
new_pipeline-IsValid ports stages h k = (
  record {
    deep = k;
    wide = h;
    fits = omega arith;
    next = omega arith;
    free = λ j lo hi. refl;
    counted = sym (ap length none_in);
  },
  none_in,
)
  where
    none_in : contents (new_pipeline ports stages) ≡ []
    none_in = entries-IsFree (λ j. none) 0 (stages * ports) (λ j lo hi. refl)

module _ {p : Pipe} (v : IsValid p) (req : ReqPtr) where
  -- A full input stage refuses the entry, and nothing changes.
  pub add_to_pipe-full : pipe_full p ≡ true → add_to_pipe p req ≡ (false, p)
  unfolding add_to_pipe pipe_full
  add_to_pipe-full h = rw h

  room : pipe_full p ≡ false → p.where_to_add < p.depth * p.width
  unfolding pipe_full
  room h =
      let a = v.fits in
      let b = v.next in
      omega (arith, size_lem p.depth p.width v.deep, ne_of_== p.num_in_last_stage p.width h)

  -- the first slot that is tried is free
  find_slot-next :
      (n : ℕ)
      → p.where_to_add < p.depth * p.width
      → n ≡ p.depth * p.width - p.where_to_add
      → find_slot p.pipe (p.depth * p.width) n p.where_to_add ≡ (true, p.where_to_add)
  unfolding find_slot
  find_slot-next zero r e = absurd (omega arith)
  find_slot-next (suc n) r e = rw (v.free p.where_to_add (omega arith) r, find_slot)

  abbrev pub added : Pipe
  added = record p {
    pipe = update p.pipe p.where_to_add (some req);
    where_to_add = p.where_to_add + 1;
    num_in_pipe = p.num_in_pipe + 1;
    num_in_last_stage = p.num_in_last_stage + 1;
  }

  add_to_pipe-added : pipe_full p ≡ false → add_to_pipe p req ≡ (true, added)
  unfolding add_to_pipe pipe_full
  add_to_pipe-added h = rw (h, find_slot-next _ (room h) refl)

  still_fits : pipe_full p ≡ false → p.num_in_last_stage + 1 ≤ p.width
  unfolding pipe_full
  still_fits h = let a = v.fits in omega (arith, ne_of_== p.num_in_last_stage p.width h)

  -- `AddToPipe` on a valid pipeline with room in the input stage takes the entry, behind all others,
  -- and the pipeline stays valid.
  pub add_to_pipe-room :
      pipe_full p ≡ false
      → ((add_to_pipe p req).0 ≡ true)
        × (contents (add_to_pipe p req).1 ≡ contents p ++ (req ∷ []))
        × IsValid (add_to_pipe p req).1
  add_to_pipe-room h = rw (add_to_pipe-added h) (
    refl,
    last,
    record {
      deep = v.deep;
      wide = v.wide;
      fits = still_fits h;
      next = omega (arith, v.next);
      free = λ j lo hi. ground (arith, v.free j);
      counted = rw last (omega (arith, v.counted, length-append (contents p) (req ∷ [])));
    },
  )
    where
      last : contents added ≡ contents p ++ (req ∷ [])
      last = entries-put p.pipe req p.where_to_add (p.depth * p.width) (room h) v.free

-- In a valid pipeline, `ClearPipeElt` of an entry that `GetPipeElt` shows takes that one entry out of
-- the order and keeps the pipeline valid.
pub clear_pipe_elt-entry :
    {p : Pipe} (posn : ℕ) (req : ReqPtr)
    → IsValid p
    → get_pipe_elt p posn ≡ some req
    → IsValid (clear_pipe_elt p posn)
      × ((xs : List ReqPtr) × (ys : List ReqPtr) × (contents p ≡ xs ++ (req ∷ ys))
          × (contents (clear_pipe_elt p posn) ≡ xs ++ ys))
unfolding get_pipe_elt clear_pipe_elt
clear_pipe_elt-entry {p} posn req v h = (
  record {
    deep = v.deep;
    wide = v.wide;
    fits = v.fits;
    next = v.next;
    free = λ j lo hi. ground (arith, v.free j);
    counted = omega (
      arith,
      v.counted,
      ap length cut.0,
      ap length cut.1,
      length-append xs (req ∷ ys),
      length-append xs ys,
    );
  },
  (xs, ys, cut.0, cut.1),
)
  where
    total : ℕ
    total = p.depth * p.width

    at : p.pipe posn ≡ some req
    at = ground arith

    inside : posn < total
    inside = let w : posn < p.width = ground arith in omega (arith, size_lem p.depth p.width v.deep)

    xs : List ReqPtr
    xs = entries p.pipe 0 posn

    ys : List ReqPtr
    ys = entries p.pipe (posn + 1) (total - posn - 1)

    cut : (contents p ≡ xs ++ (req ∷ ys)) × (entries (update p.pipe posn none) 0 total ≡ xs ++ ys)
    cut = entries-clear p.pipe req posn total inside at
