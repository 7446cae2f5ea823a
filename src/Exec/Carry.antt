-- ===== src/Exec/Carry.antt =====
-- The sum and the condition codes of fnADDcc in Processor/funcs.cc.
use rsim.Prelude.{
  ℕ, ◌+◌, ◌%◌, ◌<◌, ◌≡◌, refl, ap, ◌∙◌, Bool, true, ◌&&◌, ltb, leb, ◌==◌, if◌then◌else◌, arith,
}
use rsim.Exec.{
  Instance, operand2, with_rd_cc, is_neg, add32, word, sign_bit, icc_carry, icc_overflow, icc_zero,
  icc_neg,
}
use rsim.Exec.Flags.{or_if, neg_zero, add_overflow, add_carry, set_add, fn_addcc}
use rsim.Exec.Compare.{flags, flags-neg, flags-zero, flags-overflow, flags-carry, biased}

-- The sum of two ints is no int.
abbrev pub sum_out_of_range : ℕ → ℕ → Bool
sum_out_of_range a b =
    if ltb (biased a + biased b) sign_bit then true else leb (word + sign_bit) (biased a + biased b)

-- The unsigned sum is above 2 ^ 32, or is 2 ^ 32 with both operands 2 ^ 31.
abbrev pub carry_found : ℕ → ℕ → Bool
carry_found a b = if ltb word (a + b) then true else (a == sign_bit) && (b == sign_bit)

add_cc :
    (i : Instance) (a b : ℕ)
    → a < word
    → b < word
    → (set_add i a b).rccvali
      ≡ flags (is_neg (add32 a b)) (add32 a b == 0) (sum_out_of_range a b) (carry_found a b)
unfolding set_add with_rd_cc neg_zero add_overflow add_carry or_if
add_cc i a b ha hb = ground arith

-- For words a and b: fnADDcc leaves the sum modulo 2 ^ 32; NEG is its sign, ZERO says that it is 0,
-- OVERFLOW says that the sum of the two ints is no int, and CARRY is set exactly when the unsigned
-- sum is above 2 ^ 32 or is 2 ^ 32 with both operands 2 ^ 31 (so not for the other sums of 2 ^ 32).
pub addcc_lem :
    (i : Instance)
    → i.rs1vali < word
    → operand2 i < word
    → ((fn_addcc i).rdvali ≡ (i.rs1vali + operand2 i) % word)
      × (icc_neg ((fn_addcc i).rccvali) ≡ is_neg ((i.rs1vali + operand2 i) % word))
      × (icc_zero ((fn_addcc i).rccvali) ≡ ((i.rs1vali + operand2 i) % word == 0))
      × (icc_overflow ((fn_addcc i).rccvali) ≡ sum_out_of_range i.rs1vali (operand2 i))
      × (icc_carry ((fn_addcc i).rccvali) ≡ carry_found i.rs1vali (operand2 i))
unfolding fn_addcc set_add with_rd_cc
addcc_lem i h1 h2 =
    let cc = add_cc i i.rs1vali (operand2 i) h1 h2 in
    (
      refl,
      ap icc_neg cc ∙ flags-neg _ _ _ _,
      ap icc_zero cc ∙ flags-zero _ _ _ _,
      ap icc_overflow cc ∙ flags-overflow _ _ _ _,
      ap icc_carry cc ∙ flags-carry _ _ _ _,
    )
