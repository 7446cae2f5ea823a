-- ===== src/Exec/Agree.antt =====
-- The conditional moves and the conditional branches of Processor/funcs.cc test alike, and the
-- conditions come in pairs of a condition and its negation.
use rsim.Prelude.{
  ℕ, zero, suc, ◌+◌, ◌<◌, ◌≡◌, refl, ap, ◌∙◌, Bool, true, false, not, leb, ◌==◌, if◌then◌else◌,
  Option, some, none, arith,
}
use rsim.Exec.{Instance, Instr, operand2, with_rd, cond_icc, cond_xcc, xcc_to_icc}
use rsim.Exec.Conditions.{
  BpCond, n_b, e_b, le_b, l_b, leu_b, cs_b, neg_b, vs_b, a_b, ne_b, g_b, ge_b, gu_b, cc_b, pos_b,
  vc_b, FpCond, n_f, ne_f, lg_f, ul_f, l_f, ug_f, g_f, u_f, a_f, e_f, ue_f, ge_f, uge_f, le_f,
  ule_f, o_f, bp_cond, fp_cond, bpcc_taken, fbpfcc_taken, fbpfcc_case,
}
use rsim.BranchPred.{Predictor}
use rsim.Exec.Branch.{fn_bpcc, fn_fbpfcc, branch_to, bpcc_value}
use rsim.Exec.Select.{movcc_int, movcc_fp, movcc_fp_case, fn_movcc}
use rsim.Exec.FloatSelect.{fmov_int, fmov_fp, fmov_fp_case, fn_fmovd0}

module _ {ℓ} {A : Type ℓ} where
  movcc_int-taken :
      (c : BpCond) (v1 : ℕ) (v2 out : A)
      → movcc_int c v1 v2 out ≡ (if bpcc_taken c v1 then v2 else out)
  unfolding movcc_int bpcc_taken
  movcc_int-taken n_b v1 v2 out = refl
  movcc_int-taken e_b v1 v2 out = refl
  movcc_int-taken le_b v1 v2 out = refl
  movcc_int-taken l_b v1 v2 out = refl
  movcc_int-taken leu_b v1 v2 out = refl
  movcc_int-taken cs_b v1 v2 out = refl
  movcc_int-taken neg_b v1 v2 out = refl
  movcc_int-taken vs_b v1 v2 out = refl
  movcc_int-taken a_b v1 v2 out = refl
  movcc_int-taken ne_b v1 v2 out = refl
  movcc_int-taken g_b v1 v2 out = refl
  movcc_int-taken ge_b v1 v2 out = refl
  movcc_int-taken gu_b v1 v2 out = refl
  movcc_int-taken cc_b v1 v2 out = refl
  movcc_int-taken pos_b v1 v2 out = refl
  movcc_int-taken vc_b v1 v2 out = refl

  movcc_fp-taken :
      (c : FpCond) (v1 : ℕ) (v2 out : A)
      → movcc_fp_case c v1 v2 out ≡ (if fbpfcc_case c v1 then v2 else out)
  unfolding movcc_fp_case fbpfcc_case
  movcc_fp-taken n_f v1 v2 out = refl
  movcc_fp-taken ne_f v1 v2 out = refl
  movcc_fp-taken lg_f v1 v2 out = refl
  movcc_fp-taken ul_f v1 v2 out = refl
  movcc_fp-taken l_f v1 v2 out = refl
  movcc_fp-taken ug_f v1 v2 out = refl
  movcc_fp-taken g_f v1 v2 out = refl
  movcc_fp-taken u_f v1 v2 out = refl
  movcc_fp-taken a_f v1 v2 out = refl
  movcc_fp-taken e_f v1 v2 out = refl
  movcc_fp-taken ue_f v1 v2 out = refl
  movcc_fp-taken ge_f v1 v2 out = refl
  movcc_fp-taken uge_f v1 v2 out = refl
  movcc_fp-taken le_f v1 v2 out = refl
  movcc_fp-taken ule_f v1 v2 out = refl
  movcc_fp-taken o_f v1 v2 out = refl

  fmov_int-taken :
      (c : BpCond) (v1 : ℕ) (v2 out : A)
      → fmov_int c v1 v2 out ≡ (if bpcc_taken c v1 then v2 else out)
  unfolding fmov_int bpcc_taken
  fmov_int-taken n_b v1 v2 out = refl
  fmov_int-taken e_b v1 v2 out = refl
  fmov_int-taken le_b v1 v2 out = refl
  fmov_int-taken l_b v1 v2 out = refl
  fmov_int-taken leu_b v1 v2 out = refl
  fmov_int-taken cs_b v1 v2 out = refl
  fmov_int-taken neg_b v1 v2 out = refl
  fmov_int-taken vs_b v1 v2 out = refl
  fmov_int-taken a_b v1 v2 out = refl
  fmov_int-taken ne_b v1 v2 out = refl
  fmov_int-taken g_b v1 v2 out = refl
  fmov_int-taken ge_b v1 v2 out = refl
  fmov_int-taken gu_b v1 v2 out = refl
  fmov_int-taken cc_b v1 v2 out = refl
  fmov_int-taken pos_b v1 v2 out = refl
  fmov_int-taken vc_b v1 v2 out = refl

  fmov_fp-taken :
      (c : FpCond) (v1 : ℕ) (v2 out : A)
      → fmov_fp_case c v1 v2 out ≡ (if fbpfcc_case c v1 then v2 else out)
  unfolding fmov_fp_case fbpfcc_case
  fmov_fp-taken n_f v1 v2 out = refl
  fmov_fp-taken ne_f v1 v2 out = refl
  fmov_fp-taken lg_f v1 v2 out = refl
  fmov_fp-taken ul_f v1 v2 out = refl
  fmov_fp-taken l_f v1 v2 out = refl
  fmov_fp-taken ug_f v1 v2 out = refl
  fmov_fp-taken g_f v1 v2 out = refl
  fmov_fp-taken u_f v1 v2 out = refl
  fmov_fp-taken a_f v1 v2 out = refl
  fmov_fp-taken e_f v1 v2 out = refl
  fmov_fp-taken ue_f v1 v2 out = refl
  fmov_fp-taken ge_f v1 v2 out = refl
  fmov_fp-taken uge_f v1 v2 out = refl
  fmov_fp-taken le_f v1 v2 out = refl
  fmov_fp-taken ule_f v1 v2 out = refl
  fmov_fp-taken o_f v1 v2 out = refl

-- The decision that a conditional move takes, by the tests of fnBPcc on the integer condition codes
-- and by those of fnFBPfcc on the floating-point ones.
unfoldable pub branch_decision : Instr → ℕ → Bool
branch_decision code vcc =
    if leb cond_icc code.rscc
    then bpcc_taken (bp_cond code.aux2) (if code.rscc == cond_xcc then xcc_to_icc vcc else vcc)
    else fbpfcc_taken (fp_cond code.aux2) vcc

module _ {ℓ} {A : Type ℓ} where
  movcc_fp-decision :
      (c : Option FpCond) (v1 : ℕ) (v2 out : A)
      → movcc_fp c v1 v2 out ≡ (if fbpfcc_taken c v1 then v2 else out)
  unfolding movcc_fp fbpfcc_taken
  movcc_fp-decision none v1 v2 out = refl
  movcc_fp-decision (some c) v1 v2 out = movcc_fp-taken c v1 v2 out

  fmov_fp-decision :
      (c : Option FpCond) (v1 : ℕ) (v2 out : A)
      → fmov_fp c v1 v2 out ≡ (if fbpfcc_taken c v1 then v2 else out)
  unfolding fmov_fp fbpfcc_taken
  fmov_fp-decision none v1 v2 out = refl
  fmov_fp-decision (some c) v1 v2 out = fmov_fp-taken c v1 v2 out

  joined_tests :
      (b p q : Bool) (v2 out : A) {x y : A}
      → x ≡ (if p then v2 else out)
      → y ≡ (if q then v2 else out)
      → (if b then x else y) ≡ (if (if b then p else q) then v2 else out)
  joined_tests true p q v2 out h k = h
  joined_tests false p q v2 out h k = k

  fmovd0-decision :
      (code : Instr) (vcc : ℕ) (v1 v2 : A)
      → fn_fmovd0 code vcc v1 v2 ≡ (if branch_decision code vcc then v2 else v1)
  unfolding fn_fmovd0 branch_decision
  fmovd0-decision code vcc v1 v2 =
      joined_tests (leb cond_icc code.rscc) _ _ _ _ (fmov_int-taken _ _ v2 v1)
        (fmov_fp-decision (fp_cond code.aux2) vcc v2 v1)

movcc-decision :
    (i : Instance)
    → fn_movcc i ≡ with_rd i (if branch_decision i.code i.rsccvali then operand2 i else i.rs1vali)
unfolding fn_movcc branch_decision
movcc-decision i = ap (with_rd i) (
    joined_tests (leb cond_icc i.code.rscc) _ _ _ _ (movcc_int-taken _ _ (operand2 i) i.rs1vali)
      (movcc_fp-decision (fp_cond i.code.aux2) i.rsccvali (operand2 i) i.rs1vali))

negated_bp : (n v1 : ℕ) → n < 8 → bpcc_taken (bp_cond (n + 8)) v1 ≡ not (bpcc_taken (bp_cond n) v1)
unfolding bp_cond bpcc_taken
negated_bp zero v1 h = refl
negated_bp (suc zero) v1 h = refl
negated_bp (suc (suc zero)) v1 h = refl
negated_bp (suc (suc (suc zero))) v1 h = refl
negated_bp (suc (suc (suc (suc zero)))) v1 h = refl
negated_bp (suc (suc (suc (suc (suc zero))))) v1 h = refl
negated_bp (suc (suc (suc (suc (suc (suc zero)))))) v1 h = refl
negated_bp (suc (suc (suc (suc (suc (suc (suc zero))))))) v1 h = refl
negated_bp (suc (suc (suc (suc (suc (suc (suc (suc n)))))))) v1 h = absurd (omega arith)

negated_fp :
    (n v1 : ℕ)
    → n < 8
    → v1 < 4
    → fbpfcc_taken (fp_cond (n + 8)) v1 ≡ not (fbpfcc_taken (fp_cond n) v1)
unfolding fp_cond fbpfcc_taken fbpfcc_case
negated_fp zero v1 h k = ground arith
negated_fp (suc zero) v1 h k = ground arith
negated_fp (suc (suc zero)) v1 h k = ground arith
negated_fp (suc (suc (suc zero))) v1 h k = ground arith
negated_fp (suc (suc (suc (suc zero)))) v1 h k = ground arith
negated_fp (suc (suc (suc (suc (suc zero))))) v1 h k = ground arith
negated_fp (suc (suc (suc (suc (suc (suc zero)))))) v1 h k = ground arith
negated_fp (suc (suc (suc (suc (suc (suc (suc zero))))))) v1 h k = ground arith
negated_fp (suc (suc (suc (suc (suc (suc (suc (suc n)))))))) v1 h k = absurd (omega arith)

-- The numbers n and n + 8 are a condition and its negation: for n < 8 the tests of fnBPcc answer
-- differently on every value, and those of fnFBPfcc on every value of a floating-point condition code.
pub negated_conditions :
    (n icc fcc : ℕ)
    → n < 8
    → fcc < 4
    → (bpcc_taken (bp_cond (n + 8)) icc ≡ not (bpcc_taken (bp_cond n) icc))
      × (fbpfcc_taken (fp_cond (n + 8)) fcc ≡ not (fbpfcc_taken (fp_cond n) fcc))
negated_conditions n icc fcc h k = (negated_bp n icc h, negated_fp n fcc h k)

-- The branch that tests what a move of this instruction tests.
abbrev pub SameTest : Instance → Instance → Type 0
SameTest i b = (b.code.aux1 ≡ i.code.aux2) × (b.code.rs1 ≡ i.code.rscc) × (b.rs1vali ≡ i.rsccvali)

-- what fnBPcc (on the integer condition codes) or fnFBPfcc makes of a branch
abbrev pub branch_of : Bool → Instance → Predictor → Instance
branch_of integer b p = if integer then (fn_bpcc b p).0 else (fn_fbpfcc b p).0

same_value :
    (i b : Instance)
    → SameTest i b
    → bpcc_value b ≡ (if i.code.rscc == cond_xcc then xcc_to_icc i.rsccvali else i.rsccvali)
unfolding bpcc_value
same_value i b (c, r, v) =
    ap (λ (n : ℕ). if n == cond_xcc then xcc_to_icc b.rs1vali else b.rs1vali) r
    ∙ ap (λ (n : ℕ). if i.code.rscc == cond_xcc then xcc_to_icc n else n) v

bpcc_branch :
    (i b : Instance) (p : Predictor)
    → SameTest i b
    → (fn_bpcc b p).0
      ≡ branch_to b (
          bpcc_taken
            (bp_cond i.code.aux2)
            (if i.code.rscc == cond_xcc then xcc_to_icc i.rsccvali else i.rsccvali))
unfolding fn_bpcc
bpcc_branch i b p same =
    ap (λ (n : ℕ). branch_to b (bpcc_taken (bp_cond n) (bpcc_value b))) (same.0)
    ∙ ap (λ (n : ℕ). branch_to b (bpcc_taken (bp_cond i.code.aux2) n)) (same_value i b same)

fbpfcc_branch :
    (i b : Instance) (p : Predictor)
    → SameTest i b
    → (fn_fbpfcc b p).0 ≡ branch_to b (fbpfcc_taken (fp_cond i.code.aux2) i.rsccvali)
unfolding fn_fbpfcc
fbpfcc_branch i b p (c, r, v) =
    ap (λ (n : ℕ). branch_to b (fbpfcc_taken (fp_cond n) b.rs1vali)) c
    ∙ ap (λ (n : ℕ). branch_to b (fbpfcc_taken (fp_cond i.code.aux2) n)) v

joined_branches :
    (b : Instance) (t p q : Bool) {x y : Instance}
    → x ≡ branch_to b p
    → y ≡ branch_to b q
    → (if t then x else y) ≡ branch_to b (if t then p else q)
joined_branches b true p q h k = h
joined_branches b false p q h k = k

branch-decision :
    (i b : Instance) (p : Predictor)
    → SameTest i b
    → branch_of (leb cond_icc i.code.rscc) b p ≡ branch_to b (branch_decision i.code i.rsccvali)
unfolding branch_decision
branch-decision i b p same =
    joined_branches b (leb cond_icc i.code.rscc) _ _ (bpcc_branch i b p same)
      (fbpfcc_branch i b p same)

-- A branch with the condition, the condition code register and its value that a conditional move
-- has, and the move between integer or floating-point registers, take one decision t: the branch
-- (fnBPcc when the register is icc or xcc, fnFBPfcc when not) goes as t says, fnMOVcc leaves the
-- second operand when t holds and the value of rs1 when not, and fnFMOVd0 likewise.
pub one_decision :
    (i b : Instance) (p : Predictor) (A : Type 0) (v1 v2 : A)
    → SameTest i b
    → (t : Bool) × (branch_of (leb cond_icc i.code.rscc) b p ≡ branch_to b t)
      × (fn_movcc i ≡ with_rd i (if t then operand2 i else i.rs1vali))
      × (fn_fmovd0 i.code i.rsccvali v1 v2 ≡ (if t then v2 else v1))
one_decision i b p A v1 v2 same = (
  branch_decision i.code i.rsccvali,
  branch-decision i b p same,
  movcc-decision i,
  fmovd0-decision i.code i.rsccvali v1 v2,
)
