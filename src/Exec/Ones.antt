-- ===== src/Exec/Ones.antt =====
-- The population count of Processor/funcs.cc, fnPOPC.
use rsim.Prelude.{
  ℕ, zero, suc, ◌+◌, ◌*◌, ◌/◌, ◌%◌, ◌<◌, ◌≡◌, ◌≢◌, refl, ap, ◌∙◌, Bool, true, ◌&&◌, ◌==◌, some,
  arith,
}
use rsim.Exec.{Instance, with_rd, word}
use rsim.Exec.Arith.{popc_arr, elem, popc_loop, popc_value, popc_result, fn_popc}

-- how many of the low k bits are ones
unfoldable pub ones : ℕ → ℕ → ℕ
ones zero v = 0
ones (suc k) v = v % 2 + ones k (v / 2)

all_agree : (f g : ℕ → ℕ) → ℕ → Bool
all_agree f g zero = true
all_agree f g (suc n) = (f n == g n) && all_agree f g n

all_agree_at : (f g : ℕ → ℕ) (n k : ℕ) → all_agree f g n ≡ true → k < n → f k ≡ g k
unfolding all_agree
all_agree_at f g zero k e h = absurd (omega arith)
all_agree_at f g (suc n) k e h = ground (arith, all_agree_at f g n k)

popc_arr-ones : (r : ℕ) → r < 16 → elem popc_arr r ≡ ones 4 r
unfolding all_agree elem popc_arr ones
popc_arr-ones r h = all_agree_at (elem popc_arr) (ones 4) 16 r refl h

ones_low : (v : ℕ) → ones 4 (v % 16) ≡ ones 4 v
unfolding ones
ones_low v = omega arith

ones_zero : (k : ℕ) → ones k 0 ≡ 0
unfolding ones
ones_zero zero = refl
ones_zero (suc k) = omega (arith, ones_zero k)

-- 4 * n as a successor, and a bound of n hexadecimal digits
abbrev quads : ℕ → ℕ
quads zero = zero
quads (suc n) = suc (suc (suc (suc (quads n))))

abbrev digits_below : ℕ → ℕ
digits_below zero = 1
digits_below (suc n) = digits_below n * 16

ones_quad : (n v : ℕ) → ones (quads (suc n)) v ≡ ones 4 v + ones (quads n) (v / 16)
unfolding ones
ones_quad n v =
    let low : ◌≡◌ {A = ℕ} (v / 16) (v / 2 / 2 / 2 / 2) = omega arith in
    omega (arith, ap (ones (quads n)) low)

popc_step :
    (n v out : ℕ)
    → v ≢ 0
    → popc_loop (suc n) v out ≡ popc_loop n (v / 16) (out + elem popc_arr (v % 16))
unfolding popc_loop
popc_step n v out h = ground arith

popc_stop : (n out : ℕ) → popc_loop (suc n) 0 out ≡ some out
unfolding popc_loop
popc_stop n out = refl

popc_digit : (v : ℕ) → elem popc_arr (v % 16) ≡ ones 4 v
popc_digit v = popc_arr-ones (v % 16) (omega arith) ∙ ones_low v

popc_loop-ones :
    (n v out : ℕ) → v < digits_below n → popc_loop (suc n) v out ≡ some (out + ones (quads n) v)
popc_loop-ones n zero out h = popc_stop n out ∙ ap some (omega (arith, ones_zero (quads n)))
popc_loop-ones zero (suc v) out h = absurd (omega arith)
popc_loop-ones (suc n) (suc v) out h =
    popc_step (suc n) (suc v) out (omega arith)
    ∙ (popc_loop-ones n (suc v / 16) _ (omega arith)
        ∙ ap some (omega (arith, popc_digit (suc v), ones_quad n (suc v))))

-- The loop of fnPOPC ends within its nine tests for every word, and leaves in rdvali how many of the
-- word's 32 bits are ones.
pub popc_lem :
    (i : Instance) → popc_value i < word → fn_popc i ≡ some (with_rd i (ones 32 (popc_value i)))
unfolding fn_popc popc_result
popc_lem i h = ap (popc_result i) (popc_loop-ones 8 (popc_value i) 0 h ∙ ap some (omega arith))
