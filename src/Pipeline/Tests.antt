-- ===== src/Pipeline/Tests.antt =====
-- The theorems on the cache pipelines (MemSys/pipeline.c), applied to small pipelines.
use rsim.Prelude.{◌≡◌, refl, false, none, some, [], ◌∷◌, arith, update}
use rsim.Pipeline.{
  Pipe, find_space, place_entry, cycle_entry, cycle_slot, cycle_stage, cycle_stages, cycled,
  cycle_pipe, pipe_full, add_to_pipe,
}
use rsim.Pipeline.Order.{contents, IsValid, contents-cycle_pipe, add_to_pipe-full}

-- two stages of two slots: 7 waits in the head stage, 8 and 9 in the input stage
abbrev waiting : Pipe
waiting = record {
  depth = 2;
  width = 2;
  pipe = update (update (update (λ i. none) 1 (some 7)) 2 (some 8)) 3 (some 9);
  num_in_pipe = 3;
  num_in_last_stage = 2;
  where_to_add = 4;
}

waiting-IsValid : IsValid waiting
waiting-IsValid = record {
  deep = omega arith;
  wide = omega arith;
  fits = omega arith;
  next = refl;
  free = λ j lo hi. absurd (omega arith);
  counted = refl;
}

-- 7 and 8 reach the head stage, 9 moves up behind them
cycle_pipe_runs :
    let p = cycle_pipe waiting in
    (p.pipe 0 ≡ some 7) × (p.pipe 1 ≡ some 8) × (p.pipe 2 ≡ some 9) × (p.where_to_add ≡ 3)
unfolding cycle_pipe cycled cycle_stages cycle_stage cycle_slot cycle_entry place_entry find_space
cycle_pipe_runs = (refl, refl, refl, refl)

contents-cycle_pipe_example : contents (cycle_pipe waiting) ≡ 7 ∷ 8 ∷ 9 ∷ []
contents-cycle_pipe_example = contents-cycle_pipe waiting (omega arith)

add_to_pipe-full_example : add_to_pipe waiting 5 ≡ (false, waiting)
unfolding pipe_full
add_to_pipe-full_example = add_to_pipe-full waiting-IsValid 5 refl

-- one stage of two slots with an entry in the first
abbrev started : Pipe
started = record {
  depth = 1;
  width = 2;
  pipe = update (λ i. none) 0 (some 3);
  num_in_pipe = 1;
  num_in_last_stage = 1;
  where_to_add = 1;
}

started-IsValid : IsValid started
started-IsValid = record {
  deep = omega arith;
  wide = omega arith;
  fits = omega arith;
  next = refl;
  free = λ j lo hi. ground arith;
  counted = refl;
}
