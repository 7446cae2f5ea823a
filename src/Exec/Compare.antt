-- ===== src/Exec/Compare.antt =====
-- What the conditional branches decide after a compare, for Processor/funcs.cc fnSUBcc and fnBPcc.
use rsim.Prelude.{
  ℕ, ◌+◌, ◌-◌, ◌<◌, ◌≡◌, refl, ap, ◌∙◌, Bool, true, false, not, ltb, leb, ◌==◌, if◌then◌else◌,
  arith,
}
use rsim.BranchPred.{Predictor}
use rsim.Exec.{
  Instance, operand2, with_rd_cc, is_neg, add32, sub32, word, sign_bit, ic_carry, ic_overflow,
  ic_zero, ic_neg, icc_carry, icc_overflow, icc_zero, icc_neg, cond_icc,
}
use rsim.Exec.Conditions.{
  BpCond, n_b, e_b, le_b, l_b, leu_b, cs_b, neg_b, vs_b, a_b, ne_b, g_b, ge_b, gu_b, cc_b, pos_b,
  vc_b, bp_cond, bpcc_taken,
}
use rsim.Exec.Branch.{fn_bpcc, branch_to, bpcc_value, bit}
use rsim.Exec.Flags.{or_if, neg_zero, sub_overflow, set_sub, fn_subcc}

-- Four flags put into a word of condition codes, and read back.
abbrev pub flags : Bool → Bool → Bool → Bool → ℕ
flags n z o c = or_if (or_if (or_if (or_if 0 n ic_neg) z ic_zero) o ic_overflow) c ic_carry

abbrev FlagTest : (ℕ → Bool) → (Bool → Bool → Bool → Bool → Bool) → Type 0
FlagTest test f = (n z o c : Bool) → test (flags n z o c) ≡ f n z o c

pub flags-neg : FlagTest icc_neg (λ n z o c. n)
unfolding icc_neg or_if
flags-neg n z o c = ground arith

pub flags-zero : FlagTest icc_zero (λ n z o c. z)
unfolding icc_zero or_if
flags-zero n z o c = ground arith

pub flags-overflow : FlagTest icc_overflow (λ n z o c. o)
unfolding icc_overflow or_if
flags-overflow n z o c = ground arith

pub flags-carry : FlagTest icc_carry (λ n z o c. c)
unfolding icc_carry or_if
flags-carry n z o c = ground arith

-- The value of a word as an int, plus 2 ^ 31.
abbrev pub biased : ℕ → ℕ
biased a = if is_neg a then a - sign_bit else a + sign_bit

-- The difference of the operands, as ints, is no int.
abbrev out_of_range : ℕ → ℕ → Bool
out_of_range a b =
    if ltb (biased a + sign_bit) (biased b) then true else leb (biased b + sign_bit) (biased a)

-- What each condition says of the operands of a compare: the orders are those of ints for Gb, GEb,
-- Lb and LEb, and of unsigneds for GUb, LEUb, CCb and CSb.
unfoldable pub compares : BpCond → ℕ → ℕ → Bool
compares n_b _ _ = false
compares e_b a b = a == b
compares le_b a b = leb (biased a) (biased b)
compares l_b a b = ltb (biased a) (biased b)
compares leu_b a b = leb a b
compares cs_b a b = ltb a b
compares neg_b a b = is_neg (sub32 a b)
compares vs_b a b = out_of_range a b
compares a_b _ _ = true
compares ne_b a b = not (a == b)
compares g_b a b = ltb (biased b) (biased a)
compares ge_b a b = leb (biased b) (biased a)
compares gu_b a b = ltb b a
compares cc_b a b = leb b a
compares pos_b a b = not (is_neg (sub32 a b))
compares vc_b a b = not (out_of_range a b)

-- The four flags of a compare are the result's sign, the equality of the operands, an overflow of
-- their difference and their unsigned order.
compare_cc : ℕ → ℕ → ℕ
compare_cc a b = flags (is_neg (sub32 a b)) (a == b) (out_of_range a b) (ltb a b)

sub_cc : (i : Instance) (a b : ℕ) → a < word → b < word → (set_sub i a b).rccvali ≡ compare_cc a b
unfolding set_sub with_rd_cc neg_zero sub_overflow or_if compare_cc
sub_cc i a b ha hb = ground arith

module _ (a b : ℕ) where
  compare-neg : icc_neg (compare_cc a b) ≡ is_neg (sub32 a b)
  unfolding compare_cc
  compare-neg = flags-neg _ _ _ _

  compare-zero : icc_zero (compare_cc a b) ≡ (a == b)
  unfolding compare_cc
  compare-zero = flags-zero _ _ _ _

  compare-overflow : icc_overflow (compare_cc a b) ≡ out_of_range a b
  unfolding compare_cc
  compare-overflow = flags-overflow _ _ _ _

  compare-carry : icc_carry (compare_cc a b) ≡ ltb a b
  unfolding compare_cc
  compare-carry = flags-carry _ _ _ _

bpcc-compare :
    (c : BpCond) (a b : ℕ) → a < word → b < word → bpcc_taken c (compare_cc a b) ≡ compares c a b
unfolding bpcc_taken compares
bpcc-compare n_b a b ha hb = refl
bpcc-compare e_b a b ha hb = compare-zero a b
bpcc-compare le_b a b ha hb =
    ground (arith, compare-neg a b, compare-zero a b, compare-overflow a b)
bpcc-compare l_b a b ha hb = ground (arith, compare-neg a b, compare-overflow a b)
bpcc-compare leu_b a b ha hb = ground (arith, compare-zero a b, compare-carry a b)
bpcc-compare cs_b a b ha hb = compare-carry a b
bpcc-compare neg_b a b ha hb = compare-neg a b
bpcc-compare vs_b a b ha hb = compare-overflow a b
bpcc-compare a_b a b ha hb = refl
bpcc-compare ne_b a b ha hb = ap not (compare-zero a b)
bpcc-compare g_b a b ha hb = ground (arith, compare-neg a b, compare-zero a b, compare-overflow a b)
bpcc-compare ge_b a b ha hb = ground (arith, compare-neg a b, compare-overflow a b)
bpcc-compare gu_b a b ha hb = ground (arith, compare-zero a b, compare-carry a b)
bpcc-compare cc_b a b ha hb = ground (arith, compare-carry a b)
bpcc-compare pos_b a b ha hb = ap not (compare-neg a b)
bpcc-compare vc_b a b ha hb = ap not (compare-overflow a b)

pub bpcc_value-icc : (b : Instance) → b.code.rs1 ≡ cond_icc → bpcc_value b ≡ b.rs1vali
unfolding bpcc_value
bpcc_value-icc b r = ground arith

taken_after_compare :
    (i b : Instance)
    → i.rs1vali < word
    → operand2 i < word
    → b.code.rs1 ≡ cond_icc
    → b.rs1vali ≡ (fn_subcc i).rccvali
    → bpcc_taken (bp_cond b.code.aux1) (bpcc_value b)
      ≡ compares (bp_cond b.code.aux1) i.rs1vali (operand2 i)
unfolding fn_subcc
taken_after_compare i b h1 h2 r e =
    ap (bpcc_taken (bp_cond b.code.aux1)) (bpcc_value-icc b r ∙ (e ∙ sub_cc i _ _ h1 h2))
    ∙ bpcc-compare (bp_cond b.code.aux1) _ _ h1 h2

-- For words a and b: a branch on icc that reads the condition codes which an fnSUBcc of a and b has
-- set goes to pc + imm when its condition, as the table `compares` gives it (signed and unsigned
-- orders, equality, the difference's sign and overflow), holds of a and b, and to pc + 2 when not;
-- it is mispredicted exactly when `taken` was not that answer as 0 or 1.
pub branch_after_compare :
    (i b : Instance) (p : Predictor)
    → i.rs1vali < word
    → operand2 i < word
    → b.code.rs1 ≡ cond_icc
    → b.rs1vali ≡ (fn_subcc i).rccvali
    → ((fn_bpcc b p).0.newpc ≡ (
        if compares (bp_cond b.code.aux1) i.rs1vali (operand2 i)
        then add32 b.pc b.code.imm
        else add32 b.pc 2))
      × ((fn_bpcc b p).0.mispredicted
          ≡ not (b.taken == bit (compares (bp_cond b.code.aux1) i.rs1vali (operand2 i))))
unfolding fn_bpcc branch_to
branch_after_compare i b p h1 h2 r e =
    let taken = taken_after_compare i b h1 h2 r e in
    (
      ap (λ (t : Bool). if t then add32 b.pc b.code.imm else add32 b.pc 2) taken,
      ap (λ (t : Bool). not (b.taken == bit t)) taken,
    )
