-- ===== src/BranchPred/Tests.antt =====
-- Runs of the branch predictor (Processor/branchpred.cc), and the theorems applied to them.
use rsim.Prelude.{◌<◌, ◌≡◌, refl, false, [], ◌∷◌, arith}
use rsim.Prelude.Masks.{four-IsMaskSize}
use rsim.BranchPred.{
  Predictor, twobitagree, bpb_predict, bpb_setup, ras_setup, ras_insert, eq_bit, posn,
}
use rsim.BranchPred.Returns.{Holds, ras_insert-Holds}

abbrev fresh : Predictor
fresh = record {
  bpb_type = twobitagree;
  sz_buf = 512;
  branch_preds = λ n. false;
  prev_preds = λ n. false;
  ras_stksz = 4;
  return_address_stack = λ n. n;
  rasptr = 3;
}

-- after RASSetup and BPBSetup a branch is predicted by its hint
setup_agrees : bpb_predict (ras_setup (bpb_setup fresh)) 77 false ≡ false
unfolding bpb_predict ras_setup bpb_setup eq_bit posn
setup_agrees = refl

-- the stack above holds 2 and 1, and the insertion goes around its end
ras_insert-Holds_example :
    Holds (ras_insert fresh 50) (50 ∷ 2 ∷ 1 ∷ [])
    × ((ras_insert fresh 50).rasptr < (ras_insert fresh 50).ras_stksz)
ras_insert-Holds_example =
    ras_insert-Holds fresh 50 (2 ∷ 1 ∷ []) four-IsMaskSize (omega arith) (omega arith)
      (refl, (refl, tt))
