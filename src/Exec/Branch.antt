-- ===== src/Exec/Branch.antt =====
-- The control transfers of Processor/funcs.cc: what they set in the instance and how they report
-- the outcome to the branch predictor.
use rsim.Prelude.{ℕ, ◌-◌, ◌*◌, ◌/◌, ◌%◌, Bool, true, false, not, ◌==◌, if◌then◌else◌}
use rsim.BranchPred.{Predictor, bpb_complete}
use rsim.Exec.{Instance, badpc, add32, sub32, is_neg, word, with_rd, cond_xcc, xcc_to_icc}
use rsim.Exec.Conditions.{bp_cond, fp_cond, bpcc_taken, bpr_taken, fbpfcc_taken}

-- 0 or 1, the int that `taken` holds
unfoldable pub bit : Bool → ℕ
bit true = 1
bit false = 0

-- The end of fnBPcc, fnBPr and fnFBPfcc: the new pc and whether the prediction was wrong.
unfoldable pub branch_to : Instance → Bool → Instance
branch_to i taken = record i {
  newpc = if taken then add32 i.pc i.code.imm else add32 i.pc 2;
  mispredicted = not (i.taken == bit taken);
}

-- The value that fnBPcc tests.
unfoldable pub bpcc_value : Instance → ℕ
bpcc_value i = if i.code.rs1 == cond_xcc then xcc_to_icc i.rs1vali else i.rs1vali

-- fnBPcc, of the instruction and the predictor. Nb, whose number is 0, is not reported.
unfoldable pub fn_bpcc : Instance → Predictor → Instance × Predictor
fn_bpcc i p =
    let taken = bpcc_taken (bp_cond i.code.aux1) (bpcc_value i) in
    (branch_to i taken, if i.code.aux1 == 0 then p else bpb_complete p i.pc taken i.code.taken_hint)

-- fnBPr
unfoldable pub fn_bpr : Instance → Predictor → Instance × Predictor
fn_bpr i p =
    let taken = bpr_taken i.code.aux1 i.rs1vali in
    (branch_to i taken, bpb_complete p i.pc taken i.code.taken_hint)

-- fnFBPfcc; Nf is 0
unfoldable pub fn_fbpfcc : Instance → Predictor → Instance × Predictor
fn_fbpfcc i p =
    let taken = fbpfcc_taken (fp_cond i.code.aux1) i.rs1vali in
    (branch_to i taken, if i.code.aux1 == 0 then p else bpb_complete p i.pc taken i.code.taken_hint)

-- InstrNumToAddr and InstrAddrToNum of incl/Processor/state.h, with the number and badpc. The
-- division of an int by 4 rounds towards zero.
unfoldable pub instr_num_to_addr : ℕ → ℕ → ℕ
instr_num_to_addr pcbase pc = add32 (pc * 4) pcbase

unfoldable pub div4 : ℕ → ℕ
div4 x = if is_neg x then (word - (word - x) / 4) % word else x / 4

unfoldable pub instr_addr_to_num : ℕ → ℕ → ℕ × Bool
instr_addr_to_num pcbase addr = (div4 (sub32 addr pcbase), not (addr % 4 == 0))

-- The target that fnJMPL and fnRETURN compute.
unfoldable pub jump_target : ℕ → Instance → ℕ × Bool
jump_target pcbase i =
    instr_addr_to_num pcbase
      (if i.code.aux1 == 0 then add32 i.rs1vali i.rs2vali else add32 i.rs1vali i.code.imm)

-- Their common end: the exception of a bad pc, newpc and mispredicted.
unfoldable pub jump_to : Instance → ℕ → Bool → Instance
jump_to i tmp bad = record i {
  exception_code = if bad then badpc else i.exception_code;
  newpc = tmp;
  mispredicted = not (tmp == i.branch_pred);
}

-- fnCALL, fnJMPL and fnRETURN
unfoldable pub fn_call : ℕ → Instance → Instance
fn_call pcbase i = with_rd i (instr_num_to_addr pcbase i.pc)

unfoldable pub fn_return : ℕ → Instance → Instance
fn_return pcbase i = jump_to i ((jump_target pcbase i).0) ((jump_target pcbase i).1)

unfoldable pub fn_jmpl : ℕ → Instance → Instance
fn_jmpl pcbase i = fn_return pcbase (fn_call pcbase i)
