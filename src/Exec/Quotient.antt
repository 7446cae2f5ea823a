-- ===== src/Exec/Quotient.antt =====
-- The divisions of Processor/funcs.cc: their results, the zero divisor and the condition codes.
use Prim.Native.Nat.{bit_and, bit_or}
use rsim.Prelude.{ℕ, ◌-◌, ◌/◌, ◌<◌, ◌≡◌, ◌≢◌, min, ap, ◌∙◌, Bool, true, false, arith}
use rsim.Exec.{Instance, i_udivcc, operand2, word, ic_zero, icc_zero}
use rsim.Exec.Flags.{or_if}
use rsim.Exec.Divide.{dividend, fn_udiv, set_div, div_cc, is_udivcc}

-- By a divisor that is not 0, fnUDIV leaves the quotient of the 64-bit dividend, cut to the greatest
-- word, and the exception code as it was.
pub udiv_lem :
    (i : Instance)
    → operand2 i ≢ 0
    → ((fn_udiv i).rdvali ≡ min (dividend i / operand2 i) (word - 1))
      × ((fn_udiv i).exception_code ≡ i.exception_code)
unfolding fn_udiv set_div
udiv_lem i h = ground arith

udiv-fits :
    (i : Instance)
    → operand2 i ≢ 0
    → dividend i / operand2 i < word
    → fn_udiv i ≡ set_div i false (dividend i / operand2 i) (is_udivcc i.code.instruction)
unfolding fn_udiv
udiv-fits i h q = ground arith

set_div-zero :
    (i : Instance) (q : ℕ) (setcc : Bool)
    → q ≡ 0
    → setcc ≡ true
    → set_div i false q setcc
      ≡ (record i { rdvali = 0; rccvali = bit_or 0 (bit_and (dividend i) ic_zero) })
unfolding set_div div_cc or_if
set_div-zero i q setcc e t = cc

cc_clear : {x : ℕ} → x ≡ 0 → icc_zero (bit_or 0 x) ≡ false
unfolding icc_zero
cc_clear e = ap (λ (y : ℕ). icc_zero (bit_or 0 y)) e

-- fnUDIVcc of a dividend below the divisor, with bit 2 of the dividend clear, leaves the result 0 and
-- does not set ZERO.
pub udivcc-zero_lost :
    (i : Instance)
    → i.code.instruction ≡ i_udivcc
    → dividend i < operand2 i
    → bit_and (dividend i) ic_zero ≡ 0
    → ((fn_udiv i).rdvali ≡ 0) × (icc_zero ((fn_udiv i).rccvali) ≡ false)
unfolding is_udivcc
udivcc-zero_lost i c h z =
    let nonzero : operand2 i ≢ 0 = omega arith in
    let quot : ◌≡◌ {A = ℕ} (dividend i / operand2 i) 0 = grind arith in
    let result =
      udiv-fits i nonzero (omega (arith, quot)) ∙ set_div-zero i _ _ quot (ap is_udivcc c) in
    (
      ap (λ (j : Instance). j.rdvali) result,
      ap (λ (j : Instance). icc_zero j.rccvali) result ∙ cc_clear z,
    )
