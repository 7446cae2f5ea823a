-- ===== src/Exec/Transfer.antt =====
-- What the decoding of a control transfer does, StartCtlXfer and decode_branch_instruction of
-- src/Processor/branchpred.cc: the prediction, and where instructions are fetched next.
use rsim.Prelude.{ℕ, ◌-◌, Bool, true, ◌&&◌, not, ◌==◌, if◌then◌else◌}
use rsim.Prelude.Result.{Result, ok, fatal}
use rsim.BranchPred.{Predictor, bpb_predict, ras_insert, ras_predict}
use rsim.Exec.{Instance, add32, word}
use rsim.Exec.Branch.{bit}

-- The fields of class state that decoding reads and writes
pub record Fetch : Type 0 where
  pub pc : ℕ
  pub npc : ℕ
  pub copymappernext : ℕ
  pub unpredbranch : ℕ
  pub predictor : Predictor

-- -1 as an int
abbrev pub minus_one : ℕ
minus_one = word - 1

-- inst->branch_pred = target and inst->taken = result
unfoldable pub predicted : Instance → (target result : ℕ) → Instance
predicted i target result = record i { branch_pred = target; taken = result }

-- a branch or call whose address is in the instruction
unfoldable pub known_target : Instance → Fetch → Instance × Fetch
known_target i s = (
  record i {
    branch_pred = add32 s.pc i.code.imm;
    newpc = add32 s.pc i.code.imm;
    taken = minus_one;
  },
  if i.code.uncond_branch == 3
      then record s { predictor = ras_insert s.predictor (add32 i.pc 2) }
      else s,
)

-- a return, by the return address stack
unfoldable pub return_target : Instance → Fetch → Instance × Fetch
return_target i s = (
  predicted i ((ras_predict s.predictor).0) 1,
  record s { predictor = (ras_predict s.predictor).1 },
)

-- `takeit` for a conditional branch; one that is never taken is mispredicted on purpose
unfoldable pub takeit : Instance → Fetch → Bool
takeit i s =
    if not (i.code.cond_branch == 0) && (i.code.aux1 == 0)
    then true
    else bpb_predict s.predictor i.pc i.code.taken_hint

unfoldable pub conditional_target : Instance → Bool → Instance
conditional_target i take =
    predicted i (if take then add32 i.pc i.code.imm else add32 i.pc 2) (bit take)

-- StartCtlXfer; its result is the new inst->taken
unfoldable pub start_ctl_xfer : Instance → Fetch → Instance × Fetch
start_ctl_xfer i s =
    if i.code.uncond_branch == 2
    then known_target i s
    else if i.code.uncond_branch == 3
    then known_target i s
    else if i.code.uncond_branch == 4
    then return_target i s
    else if not (i.code.uncond_branch == 0)
    then (predicted i minus_one 2, s)
    else (conditional_target i (takeit i s), s)

-- The four switches of decode_branch_instruction on inst->taken, with its result, which is 1 when
-- the fetch has to wait; the ends of the simulation are `fatal`.
unfoldable pub decode_uncond : Instance → Fetch → Result (ℕ × Instance × Fetch)
decode_uncond i s =
    if i.taken == 1
    then ok (0, i, record s { copymappernext = 1; pc = s.npc; npc = i.branch_pred })
    else if i.taken == minus_one
    then ok (0, i, record s { pc = s.npc; npc = i.branch_pred })
    else if i.taken == 2
    then ok (
      1,
      record i { branchdep = 1 },
      record s { pc = s.npc; npc = i.branch_pred; unpredbranch = 1 },
    )
    else fatal

unfoldable pub decode_uncond_annulled : Instance → Fetch → Result (ℕ × Instance × Fetch)
decode_uncond_annulled i s =
    if i.taken == 1
    then ok (
      0,
      record i { branchdep = 2 },
      record s { pc = i.branch_pred; npc = add32 i.branch_pred 1 },
    )
    else if i.taken == minus_one
    then ok (0, i, record s { pc = i.branch_pred; npc = add32 i.branch_pred 1 })
    else if i.taken == 2
    then ok (0, record i { branchdep = 1 }, record s { pc = i.branch_pred; unpredbranch = 1 })
    else fatal

unfoldable pub decode_cond : Instance → Fetch → Result (ℕ × Instance × Fetch)
decode_cond i s =
    if i.taken == 0
    then ok (0, i, record s { copymappernext = 1; pc = s.npc; npc = add32 s.npc 1 })
    else if i.taken == 1
    then ok (0, i, record s { copymappernext = 1; pc = s.npc; npc = i.branch_pred })
    else fatal

unfoldable pub decode_cond_annulled : Instance → Fetch → Result (ℕ × Instance × Fetch)
decode_cond_annulled i s =
    if i.taken == 0
    then ok (
      0,
      record i { branchdep = 2 },
      record s { pc = add32 s.npc 1; npc = add32 (add32 s.npc 1) 1 },
    )
    else if i.taken == 1
    then ok (0, record i { branchdep = 2 }, record s { pc = s.npc; npc = i.branch_pred })
    else fatal

-- decode_branch_instruction after StartCtlXfer, and the whole
unfoldable pub decode_by : Instance × Fetch → Result (ℕ × Instance × Fetch)
decode_by (i, s) =
    if not (i.code.uncond_branch == 0)
    then if i.code.annul == 0 then decode_uncond i s else decode_uncond_annulled i s
    else if i.code.annul == 0
    then decode_cond i s
    else decode_cond_annulled i s

unfoldable pub decode_branch_instruction : Instance → Fetch → Result (ℕ × Instance × Fetch)
decode_branch_instruction i s = decode_by (start_ctl_xfer i s)
