-- ===== src/Exec/Select.antt =====
-- The conditional moves between integer registers, fnMOVcc and fnMOVR of Processor/funcs.cc.
use rsim.Exec.{
  Instance, operand2, with_rd, cond_icc, cond_xcc, icc_carry, icc_overflow, icc_zero, icc_neg, xor,
  is_neg, xcc_to_icc,
}
use rsim.Exec.Conditions.{
  BpCond, n_b, e_b, le_b, l_b, leu_b, cs_b, neg_b, vs_b, a_b, ne_b, g_b, ge_b, gu_b, cc_b, pos_b,
  vc_b, FpCond, n_f, ne_f, lg_f, ul_f, l_f, ug_f, g_f, u_f, a_f, e_f, ue_f, ge_f, uge_f, le_f,
  ule_f, o_f, bp_cond, fp_cond, fcc_eq, fcc_lt, fcc_gt, fcc_uo,
}
use rsim.Prelude.{ℕ, not, ◌||◌, leb, ◌==◌, if◌then◌else◌, Option, some, none}

module _ {ℓ} where
  -- `out` after the switch on the integer conditions, of the value v1, the new value and `out` before
  unfoldable pub movcc_int : {A : Type ℓ} → BpCond → ℕ → A → A → A
  movcc_int a_b _ v2 _ = v2
  movcc_int n_b _ _ out = out
  movcc_int ne_b v1 v2 out = if not (icc_zero v1) then v2 else out
  movcc_int e_b v1 v2 out = if icc_zero v1 then v2 else out
  movcc_int g_b v1 v2 out =
      if not ((icc_zero v1) || (xor (icc_neg v1) (icc_overflow v1))) then v2 else out
  movcc_int le_b v1 v2 out =
      if (icc_zero v1) || (xor (icc_neg v1) (icc_overflow v1)) then v2 else out
  movcc_int ge_b v1 v2 out = if not (xor (icc_neg v1) (icc_overflow v1)) then v2 else out
  movcc_int l_b v1 v2 out = if xor (icc_neg v1) (icc_overflow v1) then v2 else out
  movcc_int gu_b v1 v2 out = if not ((icc_carry v1) || (icc_zero v1)) then v2 else out
  movcc_int leu_b v1 v2 out = if (icc_carry v1) || (icc_zero v1) then v2 else out
  movcc_int cc_b v1 v2 out = if not (icc_carry v1) then v2 else out
  movcc_int cs_b v1 v2 out = if icc_carry v1 then v2 else out
  movcc_int pos_b v1 v2 out = if not (icc_neg v1) then v2 else out
  movcc_int neg_b v1 v2 out = if icc_neg v1 then v2 else out
  movcc_int vc_b v1 v2 out = if not (icc_overflow v1) then v2 else out
  movcc_int vs_b v1 v2 out = if icc_overflow v1 then v2 else out

  -- and after the switch on the floating-point conditions
  unfoldable pub movcc_fp_case : {A : Type ℓ} → FpCond → ℕ → A → A → A
  movcc_fp_case a_f _ v2 _ = v2
  movcc_fp_case n_f _ _ out = out
  movcc_fp_case u_f v1 v2 out = if v1 == fcc_uo then v2 else out
  movcc_fp_case g_f v1 v2 out = if v1 == fcc_gt then v2 else out
  movcc_fp_case ug_f v1 v2 out = if (v1 == fcc_uo) || (v1 == fcc_gt) then v2 else out
  movcc_fp_case l_f v1 v2 out = if v1 == fcc_lt then v2 else out
  movcc_fp_case ul_f v1 v2 out = if (v1 == fcc_uo) || (v1 == fcc_lt) then v2 else out
  movcc_fp_case lg_f v1 v2 out = if (v1 == fcc_lt) || (v1 == fcc_gt) then v2 else out
  movcc_fp_case ne_f v1 v2 out =
      if (v1 == fcc_lt) || ((v1 == fcc_gt) || (v1 == fcc_uo)) then v2 else out
  movcc_fp_case e_f v1 v2 out = if v1 == fcc_eq then v2 else out
  movcc_fp_case ue_f v1 v2 out = if (v1 == fcc_eq) || (v1 == fcc_uo) then v2 else out
  movcc_fp_case ge_f v1 v2 out = if (v1 == fcc_gt) || (v1 == fcc_eq) then v2 else out
  movcc_fp_case uge_f v1 v2 out =
      if (v1 == fcc_uo) || ((v1 == fcc_gt) || (v1 == fcc_eq)) then v2 else out
  movcc_fp_case le_f v1 v2 out = if (v1 == fcc_lt) || (v1 == fcc_eq) then v2 else out
  movcc_fp_case ule_f v1 v2 out =
      if (v1 == fcc_uo) || ((v1 == fcc_lt) || (v1 == fcc_eq)) then v2 else out
  movcc_fp_case o_f v1 v2 out =
      if (v1 == fcc_eq) || ((v1 == fcc_lt) || (v1 == fcc_gt)) then v2 else out

  unfoldable pub movcc_fp : {A : Type ℓ} → Option FpCond → ℕ → A → A → A
  movcc_fp (some c) v1 v2 out = movcc_fp_case c v1 v2 out
  movcc_fp none _ _ out = out

-- fnMOVcc
unfoldable pub fn_movcc : Instance → Instance
fn_movcc i = with_rd i (
    if leb cond_icc i.code.rscc
    then movcc_int (bp_cond i.code.aux2)
        (if i.code.rscc == cond_xcc then xcc_to_icc i.rsccvali else i.rsccvali) (operand2 i)
        i.rs1vali
    else movcc_fp (fp_cond i.code.aux2) i.rsccvali (operand2 i) i.rs1vali)

-- `out` after the switch of fnMOVR
unfoldable pub movr_out : ℕ → ℕ → ℕ → ℕ → ℕ
movr_out aux2 v1 v2 out =
    if aux2 == 1
    then if v1 == 0 then v2 else out
    else if aux2 == 2
    then if v1 == 0 || is_neg v1 then v2 else out
    else if aux2 == 3
    then if is_neg v1 then v2 else out
    else if aux2 == 5
    then if not (v1 == 0) then v2 else out
    else if aux2 == 6
    then if not (v1 == 0 || is_neg v1) then v2 else out
    else if aux2 == 7
    then if not (is_neg v1) then v2 else out
    else out

-- fnMOVR
unfoldable pub fn_movr : Instance → Instance
fn_movr i = with_rd i (movr_out i.code.aux2 i.rsccvali (operand2 i) i.rs1vali)
