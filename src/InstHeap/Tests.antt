-- ===== src/InstHeap/Tests.antt =====
-- A run of the heap of instructions (Processor/instheap.cc), and the theorems applied to it.
use rsim.Prelude.{ℕ, suc, zero, ◌+◌, ◌≡◌, refl, some, ◌==◌, if◌then◌else◌, arith}
use rsim.InstHeap.{Slot, InstHeap, insert, get_min, put, make_room, sift_up, exchange}
use rsim.InstHeap.Order.{Le, IsHeap}
use rsim.InstHeap.Contents.{total, insert_lem, get_min_lem}

abbrev slot : ℕ → ℕ → Slot
slot ts tag = record { ord = ts; tag = tag; obj = tag }

-- two completions at time 5, by their tags, and one at time 9
abbrev completions : InstHeap
completions = record {
  slots = λ n. if n == 0 then slot 5 3 else if n == 1 then slot 5 4 else slot 9 1;
  size = 8;
  used = 3;
}

completions-IsHeap : IsHeap completions.slots 3
completions-IsHeap zero h k = absurd (omega arith)
completions-IsHeap (suc zero) h k = refl
completions-IsHeap (suc (suc zero)) h k = refl
completions-IsHeap (suc (suc (suc i))) h k = absurd (omega arith)

-- an instruction that completes at time 2 becomes the least
insert_first : ((insert completions (slot 2 8)).slots) 0 ≡ slot 2 8
unfolding insert put make_room sift_up exchange
insert_first = refl

insert_lem_example :
    IsHeap ((insert completions (slot 2 8)).slots) ((insert completions (slot 2 8)).used)
    × (total
          (λ (s : Slot). s.ord)
          (insert completions (slot 2 8)).slots
          (insert completions (slot 2 8)).used
        ≡ 21)
unfolding total
insert_lem_example = insert_lem completions (slot 2 8) (λ (s : Slot). s.ord) completions-IsHeap

get_min_lem_example :
    (o : Slot) × (g : InstHeap) × (get_min completions ≡ some (o, g))
    × Le o (slot 9 1)
    × IsHeap g.slots g.used
    × (g.used + 1 ≡ 3)
    × (total (λ (s : Slot). s.ord) g.slots g.used + o.ord ≡ 19)
unfolding total
get_min_lem_example =
    get_min_lem completions (λ (s : Slot). s.ord) 2 completions-IsHeap (omega arith)
