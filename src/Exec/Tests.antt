-- ===== src/Exec/Tests.antt =====
-- Runs of the modelled instructions of Processor/funcs.cc, and the theorems applied to them.
use rsim.Prelude.{ℕ, ◌≡◌, ◌≢◌, refl, Bool, true, false, some, if◌then◌else◌, arith}
use rsim.BranchPred.{Predictor, twobit}
use rsim.Exec.{
  Instr, Instance, Instruction, i_other, i_udivcc, ok_exc, operand2, with_rd, cond_icc, icc_neg,
  icc_zero, icc_overflow, icc_carry,
}
use rsim.Exec.Conditions.{bp_cond}
use rsim.Exec.Branch.{fn_bpcc, branch_to, bit}
use rsim.Exec.Arith.{fn_popc, fn_umul, popc_value}
use rsim.Exec.Flags.{fn_subcc, fn_addcc}
use rsim.Exec.Divide.{dividend, fn_udiv}
use rsim.Exec.Select.{fn_movcc}
use rsim.Exec.FloatSelect.{fn_fmovd0}
use rsim.Exec.Compare.{compares, branch_after_compare}
use rsim.Exec.Carry.{addcc_lem}
use rsim.Exec.Quotient.{udivcc-zero_lost}
use rsim.Exec.Agree.{one_decision, branch_of}
use rsim.Prelude.Result.{ok}
use rsim.BranchPred.{bpb_predict}
use rsim.Exec.Transfer.{Fetch, takeit, decode_branch_instruction}
use rsim.Exec.Followed.{after_slot, predicted_right}
use rsim.Exec.Ones.{popc_lem, ones}
use rsim.Exec.Product.{umul-high_lost}

abbrev code_of : Instruction → (rs1 rscc aux1 aux2 imm : ℕ) → Instr
code_of op rs1 rscc aux1 aux2 imm = record {
  instruction = op;
  rd = 9;
  rs1 = rs1;
  rscc = rscc;
  aux1 = aux1;
  aux2 = aux2;
  imm = imm;
  taken_hint = false;
  annul = 0;
  cond_branch = 1;
  uncond_branch = 0;
}

-- an instance with the code, rs1vali, rs2vali and rsccvali given
abbrev running : Instr → (rs1 rs2 rscc : ℕ) → Instance
running code rs1 rs2 rscc = record {
  code = code;
  pc = 100;
  newpc = 0;
  branch_pred = 0;
  taken = 1;
  mispredicted = false;
  rs1vali = rs1;
  rs2vali = rs2;
  rsccvali = rscc;
  rdvali = 7;
  rccvali = 0;
  lrd = 9;
  branchdep = 0;
  exception_code = ok_exc;
}

abbrev predictor : Predictor
predictor = record {
  bpb_type = twobit;
  sz_buf = 512;
  branch_preds = λ n. true;
  prev_preds = λ n. false;
  ras_stksz = 4;
  return_address_stack = λ n. 0;
  rasptr = 0;
}

-- subcc of 3 and -1, then bg to pc + 40
abbrev compare_3 : Instance
compare_3 = running (code_of i_other 1 0 0 0 0) 3 4294967295 0

abbrev branch_greater : Instance
branch_greater = running (code_of i_other cond_icc 0 10 0 40) ((fn_subcc compare_3).rccvali) 0 0

branch_after_compare_example :
    ((fn_bpcc branch_greater predictor).0.newpc ≡ 140)
    × ((fn_bpcc branch_greater predictor).0.mispredicted ≡ false)
unfolding compares bp_cond operand2 bit
branch_after_compare_example =
    branch_after_compare compare_3 branch_greater predictor (omega arith) (omega arith) refl refl

-- addcc of -1 and 1, whose carry is lost
abbrev add_minus_1 : Instance
add_minus_1 = running (code_of i_other 1 0 1 0 1) 4294967295 0 0

addcc_lem_example :
    ((fn_addcc add_minus_1).rdvali ≡ 0)
    × (icc_neg ((fn_addcc add_minus_1).rccvali) ≡ false)
    × (icc_zero ((fn_addcc add_minus_1).rccvali) ≡ true)
    × (icc_overflow ((fn_addcc add_minus_1).rccvali) ≡ false)
    × (icc_carry ((fn_addcc add_minus_1).rccvali) ≡ false)
unfolding operand2
addcc_lem_example = addcc_lem add_minus_1 (omega arith) (omega arith)

-- udivcc of 1 by 5
abbrev divide_1 : Instance
divide_1 = running (code_of i_udivcc 1 0 0 0 0) 1 5 0

udivcc-zero_lost_example :
    ((fn_udiv divide_1).rdvali ≡ 0) × (icc_zero ((fn_udiv divide_1).rccvali) ≡ false)
unfolding dividend operand2
udivcc-zero_lost_example = udivcc-zero_lost divide_1 refl (omega arith) refl

-- Gb is 10 and LEb is 2; UGf is 5 and LEf is 13
-- movg on the codes of a compare, and the branch that tests alike
abbrev move_greater : Instance
move_greater = running (code_of i_other 1 cond_icc 0 10 0) 5 6 ((fn_subcc compare_3).rccvali)

one_decision_example :
    (t : Bool) × (branch_of true branch_greater predictor ≡ branch_to branch_greater t)
    × (fn_movcc move_greater ≡ with_rd move_greater (if t then 6 else 5))
    × (fn_fmovd0 move_greater.code move_greater.rsccvali true false ≡ (if t then false else true))
unfolding operand2
one_decision_example =
    one_decision move_greater branch_greater predictor Bool true false (refl, refl, refl)

abbrev count_ones : Instance
count_ones = running (code_of i_other 1 0 0 0 0) 4026531847 0 0

popc_lem_example : fn_popc count_ones ≡ some (with_rd count_ones 7)
unfolding popc_value ones
popc_lem_example = popc_lem count_ones (omega arith)

-- umul of 2 ^ 31 and 6
abbrev multiply : Instance
multiply = running (code_of i_other 1 0 0 0 0) 2147483648 6 0

umul-high_lost_example : ((fn_umul multiply).rdvali ≡ 0) × ((fn_umul multiply).rccvali ≢ 3)
unfolding operand2
umul-high_lost_example = umul-high_lost multiply (omega arith)

-- a bg that annuls its delay slot, which the predictor takes, and the same with the operands of the
-- compare above
abbrev branch_code : Instr
branch_code = record (code_of i_other cond_icc 0 10 0 40) { annul = 1 }

abbrev fetched : Instance
fetched = running branch_code 0 0 0

abbrev executed : Instance
executed = running branch_code ((fn_subcc compare_3).rccvali) 0 0

abbrev fetch : Fetch
fetch = record { pc = 100; npc = 101; copymappernext = 0; unpredbranch = 0; predictor = predictor }

executed-right : (fn_bpcc executed predictor).0.mispredicted ≡ false
unfolding bit compares bp_cond operand2
executed-right =
    (branch_after_compare compare_3 executed predictor (omega arith) (omega arith) refl refl).1

predicted_right_example :
    (j : Instance) × (t : Fetch) × (decode_branch_instruction fetched fetch ≡ ok (0, j, t))
    × (j.taken ≡ 1)
    × (after_slot fetched true t ≡ (fn_bpcc executed predictor).0.newpc)
unfolding takeit bpb_predict bit compares bp_cond operand2
predicted_right_example =
    predicted_right fetched executed fetch predictor refl refl refl refl refl executed-right
