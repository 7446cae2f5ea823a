-- ===== src/Exec/FloatSelect.antt =====
-- The conditional moves and the compares of floating-point registers in Processor/funcs.cc. Their
-- values are of any type A, since the program only copies them; a compare takes the host's tests.
use rsim.Exec.{
  Instr, Except, fperr, cond_icc, cond_xcc, icc_carry, icc_overflow, icc_zero, icc_neg, xor, is_neg,
  xcc_to_icc,
}
use rsim.Exec.Conditions.{
  BpCond, n_b, e_b, le_b, l_b, leu_b, cs_b, neg_b, vs_b, a_b, ne_b, g_b, ge_b, gu_b, cc_b, pos_b,
  vc_b, FpCond, n_f, ne_f, lg_f, ul_f, l_f, ug_f, g_f, u_f, a_f, e_f, ue_f, ge_f, uge_f, le_f,
  ule_f, o_f, bp_cond, fp_cond, fcc_eq, fcc_lt, fcc_gt, fcc_uo,
}
use rsim.Prelude.{ℕ, Bool, not, ◌||◌, leb, ◌==◌, if◌then◌else◌, Option, some, none, ◌⊎◌, inl, inr}

module _ {ℓ} where
  -- `out` after the switch on the integer conditions, of the value v1, the new value and `out` before
  unfoldable pub fmov_int : {A : Type ℓ} → BpCond → ℕ → A → A → A
  fmov_int a_b _ v2 _ = v2
  fmov_int n_b _ _ out = out
  fmov_int ne_b v1 v2 out = if not (icc_zero v1) then v2 else out
  fmov_int e_b v1 v2 out = if icc_zero v1 then v2 else out
  fmov_int g_b v1 v2 out =
      if not ((icc_zero v1) || (xor (icc_neg v1) (icc_overflow v1))) then v2 else out
  fmov_int le_b v1 v2 out =
      if (icc_zero v1) || (xor (icc_neg v1) (icc_overflow v1)) then v2 else out
  fmov_int ge_b v1 v2 out = if not (xor (icc_neg v1) (icc_overflow v1)) then v2 else out
  fmov_int l_b v1 v2 out = if xor (icc_neg v1) (icc_overflow v1) then v2 else out
  fmov_int gu_b v1 v2 out = if not ((icc_carry v1) || (icc_zero v1)) then v2 else out
  fmov_int leu_b v1 v2 out = if (icc_carry v1) || (icc_zero v1) then v2 else out
  fmov_int cc_b v1 v2 out = if not (icc_carry v1) then v2 else out
  fmov_int cs_b v1 v2 out = if icc_carry v1 then v2 else out
  fmov_int pos_b v1 v2 out = if not (icc_neg v1) then v2 else out
  fmov_int neg_b v1 v2 out = if icc_neg v1 then v2 else out
  fmov_int vc_b v1 v2 out = if not (icc_overflow v1) then v2 else out
  fmov_int vs_b v1 v2 out = if icc_overflow v1 then v2 else out

  -- and after the switch on the floating-point conditions
  unfoldable pub fmov_fp_case : {A : Type ℓ} → FpCond → ℕ → A → A → A
  fmov_fp_case a_f _ v2 _ = v2
  fmov_fp_case n_f _ _ out = out
  fmov_fp_case u_f v1 v2 out = if v1 == fcc_uo then v2 else out
  fmov_fp_case g_f v1 v2 out = if v1 == fcc_gt then v2 else out
  fmov_fp_case ug_f v1 v2 out = if (v1 == fcc_uo) || (v1 == fcc_gt) then v2 else out
  fmov_fp_case l_f v1 v2 out = if v1 == fcc_lt then v2 else out
  fmov_fp_case ul_f v1 v2 out = if (v1 == fcc_uo) || (v1 == fcc_lt) then v2 else out
  fmov_fp_case lg_f v1 v2 out = if (v1 == fcc_lt) || (v1 == fcc_gt) then v2 else out
  fmov_fp_case ne_f v1 v2 out =
      if (v1 == fcc_lt) || ((v1 == fcc_gt) || (v1 == fcc_uo)) then v2 else out
  fmov_fp_case e_f v1 v2 out = if v1 == fcc_eq then v2 else out
  fmov_fp_case ue_f v1 v2 out = if (v1 == fcc_eq) || (v1 == fcc_uo) then v2 else out
  fmov_fp_case ge_f v1 v2 out = if (v1 == fcc_gt) || (v1 == fcc_eq) then v2 else out
  fmov_fp_case uge_f v1 v2 out =
      if (v1 == fcc_uo) || ((v1 == fcc_gt) || (v1 == fcc_eq)) then v2 else out
  fmov_fp_case le_f v1 v2 out = if (v1 == fcc_lt) || (v1 == fcc_eq) then v2 else out
  fmov_fp_case ule_f v1 v2 out =
      if (v1 == fcc_uo) || ((v1 == fcc_lt) || (v1 == fcc_eq)) then v2 else out
  fmov_fp_case o_f v1 v2 out =
      if (v1 == fcc_eq) || ((v1 == fcc_lt) || (v1 == fcc_gt)) then v2 else out

  unfoldable pub fmov_fp : {A : Type ℓ} → Option FpCond → ℕ → A → A → A
  fmov_fp (some c) v1 v2 out = fmov_fp_case c v1 v2 out
  fmov_fp none _ _ out = out

  -- fnFMOVd0 and fnFMOVs0 have the same text: the value of rdvalf (rdvalfh), of the instruction and
  -- the sources' values
  unfoldable pub fn_fmovd0 : {A : Type ℓ} → Instr → ℕ → A → A → A
  fn_fmovd0 code rsccvali rs1valf rs2valf =
      if leb cond_icc code.rscc
      then fmov_int (bp_cond code.aux2)
          (if code.rscc == cond_xcc then xcc_to_icc rsccvali else rsccvali) rs2valf rs1valf
      else fmov_fp (fp_cond code.aux2) rsccvali rs2valf rs1valf

  -- fnFMOVRd and fnFMOVRs
  unfoldable pub fn_fmovrd : {A : Type ℓ} → Instr → ℕ → A → A → A
  fn_fmovrd code v1 out v2 =
      if code.aux2 == 1
      then if v1 == 0 then v2 else out
      else if code.aux2 == 2
      then if v1 == 0 || is_neg v1 then v2 else out
      else if code.aux2 == 3
      then if is_neg v1 then v2 else out
      else if code.aux2 == 5
      then if not (v1 == 0) then v2 else out
      else if code.aux2 == 6
      then if not (v1 == 0 || is_neg v1) then v2 else out
      else if code.aux2 == 7
      then if not (is_neg v1) then v2 else out
      else out

  -- The host's tests of two floating-point values, v1 == v2, v1 < v2 and v1 > v2, are parameters.
  -- fnFCMPd and fnFCMPs: the value of rdvali
  unfoldable pub fn_fcmpd :
      {A : Type ℓ} → (A → A → Bool) → (A → A → Bool) → (A → A → Bool) → A → A → ℕ
  fn_fcmpd eq lt gt v1 v2 =
      if eq v1 v2 then fcc_eq else if lt v1 v2 then fcc_lt else if gt v1 v2 then fcc_gt else fcc_uo

  -- fnFCMPEd and fnFCMPEs: the value, or the exception of an unordered pair
  unfoldable pub fn_fcmped :
      {A : Type ℓ} → (A → A → Bool) → (A → A → Bool) → (A → A → Bool) → A → A → ℕ ⊎ Except
  fn_fcmped eq lt gt v1 v2 =
      if eq v1 v2
      then inl fcc_eq
      else if lt v1 v2
      then inl fcc_lt
      else if gt v1 v2
      then inl fcc_gt
      else inr fperr

  -- the single-precision ones, whose text is that of the double-precision ones on rs1valfh, rs2valfh
  -- and rdvalfh
  unfoldable pub fn_fmovs0 : {A : Type ℓ} → Instr → ℕ → A → A → A
  fn_fmovs0 code rsccvali rs1valfh rs2valfh = fn_fmovd0 code rsccvali rs1valfh rs2valfh

  unfoldable pub fn_fmovrs : {A : Type ℓ} → Instr → ℕ → A → A → A
  fn_fmovrs code v1 out v2 = fn_fmovrd code v1 out v2

  unfoldable pub fn_fcmps :
      {A : Type ℓ} → (A → A → Bool) → (A → A → Bool) → (A → A → Bool) → A → A → ℕ
  fn_fcmps eq lt gt v1 v2 = fn_fcmpd eq lt gt v1 v2

  unfoldable pub fn_fcmpes :
      {A : Type ℓ} → (A → A → Bool) → (A → A → Bool) → (A → A → Bool) → A → A → ℕ ⊎ Except
  fn_fcmpes eq lt gt v1 v2 = fn_fcmped eq lt gt v1 v2
