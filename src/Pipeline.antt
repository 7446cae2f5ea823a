-- ===== src/Pipeline.antt =====
-- The pipelines of the cache tag and data arrays (MemSys/pipeline.c, incl/MemSys/pipeline.h).
pub mod Entries
pub mod Advance
pub mod Order
mod Tests
use rsim.Prelude.{
  ℕ, zero, suc, ◌+◌, ◌-◌, ◌*◌, max, Bool, true, false, Option, none, some, leb, ltb, ◌==◌,
  if◌then◌else◌, is_some, update,
}

-- `struct YS__Req *`, by its address
abbrev pub ReqPtr : Type 0
ReqPtr = ℕ

-- `Pipeline`; a NULL slot is `none`
pub record Pipe : Type 0 where
  pub depth : ℕ
  pub width : ℕ
  pub pipe : ℕ → Option ReqPtr
  pub num_in_pipe : ℕ
  pub num_in_last_stage : ℕ
  pub where_to_add : ℕ

-- `NewPipeline`
pub new_pipeline : (ports stages : ℕ) → Pipe
new_pipeline ports stages = record {
  depth = stages;
  width = ports;
  pipe = λ i. none;
  num_in_pipe = 0;
  num_in_last_stage = 0;
  where_to_add = ports * (stages - 1);
}

-- `PipeFull`
pub pipe_full : Pipe → Bool
pipe_full p = p.num_in_last_stage == p.width

-- the variables of `CyclePipe`'s loops
pub record Cycle : Type 0 where
  pub pipe : ℕ → Option ReqPtr
  pub freespace : ℕ
  pub ctr : ℕ
  pub in_last : ℕ

-- where the loop over `freespace` stops: at the first NULL slot, or after the rounds left
pub find_space : (ℕ → Option ReqPtr) → ℕ → ℕ → ℕ
find_space pipe zero freespace = freespace
find_space pipe (suc n) freespace = elim (pipe freespace) [
  | none ↦ freespace
  | some r ↦ find_space pipe n (freespace + 1)
]

-- An entry `r` of slot `ctr` goes to slot `stop` if that lies before it, and stays otherwise.
pub place_entry : (dep wid stop : ℕ) → Cycle → ReqPtr → Cycle
place_entry dep wid stop st r =
    if ltb stop st.ctr
    then (record {
      pipe = update (update st.pipe stop (some r)) st.ctr none;
      freespace = stop + 1;
      ctr = st.ctr + 1;
      in_last = if leb (wid * (dep - 1)) stop then st.in_last + 1 else st.in_last;
    })
    else (record {
      pipe = st.pipe;
      freespace = stop + 1;
      ctr = st.ctr + 1;
      in_last = if leb (wid * (dep - 1)) st.ctr then st.in_last + 1 else st.in_last;
    })

-- The body for an entry of stage `i`. `(i-1)*wid` is negative in the head stage, where it loses to
-- `freespace` as 0 does.
pub cycle_entry : (dep wid i : ℕ) → Cycle → ReqPtr → Cycle
cycle_entry dep wid i st r =
    let start = max ((i - 1) * wid) st.freespace in
    place_entry dep wid (find_space st.pipe (st.ctr - start) start) st r

pub cycle_slot : (dep wid i : ℕ) → Cycle → Cycle
cycle_slot dep wid i st = elim (st.pipe st.ctr) [
  | none ↦ record st { ctr = st.ctr + 1 }
  | some r ↦ cycle_entry dep wid i st r
]

-- the loop over `j`, by the rounds left
pub cycle_stage : (dep wid i : ℕ) → ℕ → Cycle → Cycle
cycle_stage dep wid i zero st = st
cycle_stage dep wid i (suc n) st = cycle_stage dep wid i n (cycle_slot dep wid i st)

-- the loop over `i`, by the rounds left
pub cycle_stages : (dep wid : ℕ) → ℕ → ℕ → Cycle → Cycle
cycle_stages dep wid zero i st = st
cycle_stages dep wid (suc n) i st = cycle_stages dep wid n (i + 1) (cycle_stage dep wid i wid st)

pub cycled : Pipe → Cycle
cycled p =
    cycle_stages p.depth p.width p.depth 0
      (record { pipe = p.pipe; freespace = 0; ctr = 0; in_last = 0 })

-- `CyclePipe`; its result is the new `num_in_last_stage`
pub cycle_pipe : Pipe → Pipe
unfolding cycled
cycle_pipe p =
    let st = cycled p in
    record p {
      pipe = st.pipe;
      num_in_last_stage = st.in_last;
      where_to_add = if st.in_last == 0 then (p.depth - 1) * p.width else st.freespace;
    }

-- The loop of `AddToPipe`: whether a NULL slot was found, and the final `WhereToAdd`. The fuel is
-- the number of slots up to the array's end, where the loop gives up.
pub find_slot : (ℕ → Option ReqPtr) → (limit fuel where_to_add : ℕ) → Bool × ℕ
find_slot pipe limit zero w = (false, w)
find_slot pipe limit (suc n) w = elim (pipe w) [
  | none ↦ (true, w)
  | some r ↦ if w + 1 == limit then (false, w + 1) else find_slot pipe limit n (w + 1)
]

-- `AddToPipe`: `true` for the result 0, `false` for -1
pub add_to_pipe : Pipe → ReqPtr → Bool × Pipe
unfolding find_slot
add_to_pipe p req =
    if p.num_in_last_stage == p.width
    then (false, p)
    else let found =
        find_slot p.pipe (p.depth * p.width) (p.depth * p.width - p.where_to_add) p.where_to_add in
      if found.0
      then (
        true,
        record p {
          pipe = update p.pipe found.1 (some req);
          where_to_add = found.1 + 1;
          num_in_pipe = p.num_in_pipe + 1;
          num_in_last_stage = p.num_in_last_stage + 1;
        },
      )
      else (false, record p { where_to_add = found.1 })

-- `GetPipeElt`
pub get_pipe_elt : Pipe → ℕ → Option ReqPtr
get_pipe_elt p posn = if leb p.width posn then none else p.pipe posn

-- `ClearPipeElt`. The C code decrements `NumInPipe` whatever the slot holds.
pub clear_pipe_elt : Pipe → ℕ → Pipe
clear_pipe_elt p posn = record p { pipe = update p.pipe posn none; num_in_pipe = p.num_in_pipe - 1 }

-- `SetPipeElt`
pub set_pipe_elt : Pipe → ℕ → ReqPtr → Pipe
set_pipe_elt p posn nreq = record p { pipe = update p.pipe posn (some nreq) }
