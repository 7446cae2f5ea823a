-- ===== src/BranchPred.antt =====
-- The branch predictor and the return address stack of src/Processor/branchpred.cc.
mod History
mod Returns
mod Tests
use Prim.Native.Nat.{bit_and}
use rsim.Prelude.{ℕ, ◌+◌, ◌-◌, Bool, true, false, if◌then◌else◌, ltb, ◌==◌, update}

-- `bptype`, the kinds of prediction
pub data BpType : Type 0 where
  twobit twobitagree static : BpType

-- What BPB_TYPE, SZ_BUF, RAS_STKSZ and the predictor's fields of class state hold. An array is a
-- function of its index; the entries of BranchPred and PrevPred are 0 or 1.
pub record Predictor : Type 0 where
  pub bpb_type : BpType
  pub sz_buf : ℕ
  pub branch_preds : ℕ → Bool
  pub prev_preds : ℕ → Bool
  pub ras_stksz : ℕ
  pub return_address_stack : ℕ → ℕ
  pub rasptr : ℕ

-- the truth value a == b of two bits
unfoldable pub eq_bit : Bool → Bool → Bool
eq_bit true b = b
eq_bit false true = false
eq_bit false false = true

-- a table entry's index, bpc & (SZ_BUF - 1)
unfoldable pub posn : Predictor → ℕ → ℕ
posn p bpc = bit_and bpc (p.sz_buf - 1)

-- state::BPBSetup
unfoldable pub bpb_setup : Predictor → Predictor
bpb_setup p =
    if ltb 0 p.sz_buf
    then elim p.bpb_type [
      | static ↦ p
      | _ ↦ record p { branch_preds = λ n. true; prev_preds = λ n. false }
    ]
    else record p { bpb_type = static }

-- state::BPBPredict
unfoldable pub bpb_predict : Predictor → ℕ → Bool → Bool
bpb_predict p bpc statpred = elim p.bpb_type [
  | twobit ↦ p.branch_preds (posn p bpc)
  | twobitagree ↦ eq_bit (p.branch_preds (posn p bpc)) statpred
  | static ↦ statpred
]

-- The end of state::BPBComplete: an entry takes the bit `inbit`.
unfoldable pub train : Predictor → ℕ → Bool → Predictor
train p n inbit =
    if eq_bit (p.prev_preds n) (p.branch_preds n)
    then record p { prev_preds = update p.prev_preds n inbit }
    else record p {
      branch_preds = update p.branch_preds n inbit;
      prev_preds = update p.prev_preds n inbit;
    }

-- state::BPBComplete
unfoldable pub bpb_complete : Predictor → ℕ → Bool → Bool → Predictor
bpb_complete p bpc taken statpred = elim p.bpb_type [
  | twobit ↦ train p (posn p bpc) taken
  | twobitagree ↦ train p (posn p bpc) (eq_bit taken statpred)
  | static ↦ p
]

-- state::RASSetup
unfoldable pub ras_setup : Predictor → Predictor
ras_setup p =
    if ltb 0 p.ras_stksz
    then record p { return_address_stack = λ n. 0; rasptr = 0 }
    else record p { rasptr = 0 }

-- state::RASInsert
unfoldable pub ras_insert : Predictor → ℕ → Predictor
ras_insert p retpc =
    if ltb 0 p.ras_stksz
    then record p {
      return_address_stack = update p.return_address_stack p.rasptr retpc;
      rasptr = bit_and (p.rasptr + 1) (p.ras_stksz - 1);
    }
    else p

-- --rasptr, as an unsigned, then its low bits
unfoldable pub ras_top : Predictor → ℕ
ras_top p = bit_and (if p.rasptr == 0 then 4294967295 else p.rasptr - 1) (p.ras_stksz - 1)

-- state::RASPredict: the predicted address and the popped stack
unfoldable pub ras_predict : Predictor → ℕ × Predictor
ras_predict p =
    if ltb 0 p.ras_stksz
    then (p.return_address_stack (ras_top p), record p { rasptr = ras_top p })
    else (0, p)
