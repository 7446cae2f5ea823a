-- ===== src/Exec/Conditions.antt =====
-- The branch conditions of incl/Processor/table.h and the conditional branches' tests of
-- Processor/funcs.cc, each a clause for a case of the switch, in its order.
use rsim.Exec.{icc_carry, icc_overflow, icc_zero, icc_neg, xor, is_neg}
use rsim.Prelude.{ℕ, Bool, true, false, not, ◌||◌, ◌==◌, if◌then◌else◌, Option, some, none}

-- `enum bp_conds` and `enum fp_conds`
pub data BpCond : Type 0 where
  n_b e_b le_b l_b leu_b cs_b neg_b vs_b a_b ne_b g_b ge_b gu_b cc_b pos_b vc_b : BpCond

pub data FpCond : Type 0 where
  n_f ne_f lg_f ul_f l_f ug_f g_f u_f a_f e_f ue_f ge_f uge_f le_f ule_f o_f : FpCond

-- The enumerator of a field's value. A switch on bp_conds takes any other value for VSb (its
-- default), one on fp_conds does nothing for it.
unfoldable pub bp_cond : ℕ → BpCond
bp_cond n =
    if n == 0
    then n_b
    else if n == 1
    then e_b
    else if n == 2
    then le_b
    else if n == 3
    then l_b
    else if n == 4
    then leu_b
    else if n == 5
    then cs_b
    else if n == 6
    then neg_b
    else if n == 7
    then vs_b
    else if n == 8
    then a_b
    else if n == 9
    then ne_b
    else if n == 10
    then g_b
    else if n == 11
    then ge_b
    else if n == 12
    then gu_b
    else if n == 13
    then cc_b
    else if n == 14
    then pos_b
    else if n == 15
    then vc_b
    else vs_b

unfoldable pub fp_cond : ℕ → Option FpCond
fp_cond n =
    if n == 0
    then some n_f
    else if n == 1
    then some ne_f
    else if n == 2
    then some lg_f
    else if n == 3
    then some ul_f
    else if n == 4
    then some l_f
    else if n == 5
    then some ug_f
    else if n == 6
    then some g_f
    else if n == 7
    then some u_f
    else if n == 8
    then some a_f
    else if n == 9
    then some e_f
    else if n == 10
    then some ue_f
    else if n == 11
    then some ge_f
    else if n == 12
    then some uge_f
    else if n == 13
    then some le_f
    else if n == 14
    then some ule_f
    else if n == 15
    then some o_f
    else none

-- the values of a floating-point condition code
abbrev pub fcc_eq : ℕ
fcc_eq = 0

abbrev pub fcc_lt : ℕ
fcc_lt = 1

abbrev pub fcc_gt : ℕ
fcc_gt = 2

abbrev pub fcc_uo : ℕ
fcc_uo = 3

-- `taken` after the switch of fnBPcc
unfoldable pub bpcc_taken : BpCond → ℕ → Bool
bpcc_taken a_b _ = true
bpcc_taken n_b _ = false
bpcc_taken e_b v1 = icc_zero v1
bpcc_taken ne_b v1 = not (icc_zero v1)
bpcc_taken g_b v1 = not ((icc_zero v1) || (xor (icc_neg v1) (icc_overflow v1)))
bpcc_taken le_b v1 = (icc_zero v1) || (xor (icc_neg v1) (icc_overflow v1))
bpcc_taken ge_b v1 = not (xor (icc_neg v1) (icc_overflow v1))
bpcc_taken l_b v1 = xor (icc_neg v1) (icc_overflow v1)
bpcc_taken gu_b v1 = not ((icc_carry v1) || (icc_zero v1))
bpcc_taken leu_b v1 = (icc_carry v1) || (icc_zero v1)
bpcc_taken cc_b v1 = not (icc_carry v1)
bpcc_taken cs_b v1 = icc_carry v1
bpcc_taken pos_b v1 = not (icc_neg v1)
bpcc_taken neg_b v1 = icc_neg v1
bpcc_taken vc_b v1 = not (icc_overflow v1)
bpcc_taken vs_b v1 = icc_overflow v1

-- `taken` after the switch of fnFBPfcc
unfoldable pub fbpfcc_case : FpCond → ℕ → Bool
fbpfcc_case a_f _ = true
fbpfcc_case u_f v1 = v1 == fcc_uo
fbpfcc_case g_f v1 = v1 == fcc_gt
fbpfcc_case ug_f v1 = (v1 == fcc_uo) || (v1 == fcc_gt)
fbpfcc_case l_f v1 = v1 == fcc_lt
fbpfcc_case ul_f v1 = (v1 == fcc_uo) || (v1 == fcc_lt)
fbpfcc_case lg_f v1 = (v1 == fcc_lt) || (v1 == fcc_gt)
fbpfcc_case ne_f v1 = (v1 == fcc_lt) || ((v1 == fcc_gt) || (v1 == fcc_uo))
fbpfcc_case n_f _ = false
fbpfcc_case e_f v1 = v1 == fcc_eq
fbpfcc_case ue_f v1 = (v1 == fcc_eq) || (v1 == fcc_uo)
fbpfcc_case ge_f v1 = (v1 == fcc_gt) || (v1 == fcc_eq)
fbpfcc_case uge_f v1 = (v1 == fcc_uo) || ((v1 == fcc_gt) || (v1 == fcc_eq))
fbpfcc_case le_f v1 = (v1 == fcc_lt) || (v1 == fcc_eq)
fbpfcc_case ule_f v1 = (v1 == fcc_uo) || ((v1 == fcc_lt) || (v1 == fcc_eq))
fbpfcc_case o_f v1 = (v1 == fcc_eq) || ((v1 == fcc_lt) || (v1 == fcc_gt))

unfoldable pub fbpfcc_taken : Option FpCond → ℕ → Bool
fbpfcc_taken (some c) v1 = fbpfcc_case c v1
fbpfcc_taken none _ = false

-- `taken` after the switch of fnBPr, of a register's value as an int
unfoldable pub bpr_taken : ℕ → ℕ → Bool
bpr_taken aux1 v1 =
    if aux1 == 1
    then v1 == 0
    else if aux1 == 2
    then v1 == 0 || is_neg v1
    else if aux1 == 3
    then is_neg v1
    else if aux1 == 5
    then not (v1 == 0)
    else if aux1 == 6
    then not (v1 == 0 || is_neg v1)
    else if aux1 == 7
    then not (is_neg v1)
    else false
