-- ===== src/CircQ/Tests.antt =====
-- Runs of the circular queue (incl/Processor/circq.h).
use rsim.Prelude.{ℕ, ◌==◌, if◌then◌else◌, ◌≡◌, refl, some, inr, arith, ◌<◌, ap, sym}
use mathlib.Core.Path.{subst}
use rsim.CircQ.{CircQ, search, search_loop, masked}
use rsim.CircQ.Found.{Sorted, key_at, search-found}

-- 11 stands at the end of the array and 12 at its start
abbrev around : CircQ ℕ
around = record {
  arr = λ n. if n == 3 then 11 else 12;
  sz = 4;
  head = 3;
  tail = 1;
  cnt = 2;
  max_elts = 4;
}

-- the search finds the second element
found_second : search (λ (n : ℕ). n) 12 around ≡ some (12, 1)
unfolding search search_loop masked
found_second = refl

-- After the two elements are taken out, head and tail meet as in a full queue, and the search still
-- finds what the array has kept.
abbrev emptied : CircQ ℕ
emptied = record around { head = 1; cnt = 0 }

found_in_empty : search (λ (n : ℕ). n) 12 emptied ≡ some (12, 1)
unfolding search search_loop masked
found_in_empty = refl

around-Sorted : Sorted (λ (n : ℕ). n) around 3 5
unfolding masked
around-Sorted i j h less top =
    let key : ℕ → ℕ = key_at (λ (n : ℕ). n) around in
    let first : key i ≡ 11 = ap key (let e : i ≡ 3 = omega arith in e) in
    let second : key j ≡ 12 = ap key (let e : j ≡ 4 = omega arith in e) in
    subst (λ (a : ℕ). a < key j) (sym first) (subst (λ (b : ℕ). 11 < b) (sym second) (omega arith))

search-found_example : search (λ (n : ℕ). n) 12 around ≡ some (12, 1)
unfolding masked
search-found_example =
    search-found (λ (n : ℕ). n) around 2 1 around-Sorted (inr refl) (omega arith) (omega arith)
      (omega arith)
