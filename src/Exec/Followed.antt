-- ===== src/Exec/Followed.antt =====
-- Decoding a conditional branch and executing it (Processor/branchpred.cc and funcs.cc) agree.
use rsim.Prelude.{ℕ, ◌≡◌, refl, ap, ◌∙◌, sym, Bool, true, false, not, ◌==◌, if◌then◌else◌, arith}
use rsim.Prelude.Result.{Result, ok}
use rsim.BranchPred.{Predictor}
use rsim.Exec.{Instr, Instance, add32}
use rsim.Exec.Conditions.{bp_cond, bpcc_taken}
use rsim.Exec.Branch.{bit, branch_to, fn_bpcc, bpcc_value}
use rsim.Exec.Transfer.{
  Fetch, predicted, takeit, conditional_target, start_ctl_xfer, decode_cond, decode_cond_annulled,
  decode_by, decode_branch_instruction,
}

-- Where the fetch goes on after the delay slot, which a branch that annuls it and is not taken skips
abbrev pub after_slot : Instance → Bool → Fetch → ℕ
after_slot i take s = if i.code.annul == 0 then s.npc else if take then s.npc else s.pc

start-conditional :
    (i : Instance) (s : Fetch)
    → i.code.uncond_branch ≡ 0
    → start_ctl_xfer i s ≡ (conditional_target i (takeit i s), s)
unfolding start_ctl_xfer
start-conditional i s h = ground arith

-- what decoding leaves for a prediction
decoded : Instance → Fetch → Bool → Result (ℕ × Instance × Fetch)
decoded i s take = decode_by (conditional_target i take, s)

decode-decoded :
    (i : Instance) (s : Fetch)
    → i.code.uncond_branch ≡ 0
    → decode_branch_instruction i s ≡ decoded i s (takeit i s)
unfolding decode_branch_instruction decoded
decode-decoded i s h = ap decode_by (start-conditional i s h)

-- the instance and the fetch after decoding with a prediction
decoded_inst : Instance → Bool → Instance
decoded_inst i take =
    if i.code.annul == 0
    then conditional_target i take
    else record (conditional_target i take) { branchdep = 2 }

decoded_fetch : Instance → Fetch → Bool → Fetch
decoded_fetch i s true =
    if i.code.annul == 0
    then record s { copymappernext = 1; pc = s.npc; npc = add32 i.pc i.code.imm }
    else record s { pc = s.npc; npc = add32 i.pc i.code.imm }
decoded_fetch i s false =
    if i.code.annul == 0
    then record s { copymappernext = 1; pc = s.npc; npc = add32 s.npc 1 }
    else record s { pc = add32 s.npc 1; npc = add32 (add32 s.npc 1) 1 }

decoded-ok :
    (i : Instance) (s : Fetch) (take : Bool)
    → i.code.uncond_branch ≡ 0
    → decoded i s take ≡ ok (0, decoded_inst i take, decoded_fetch i s take)
unfolding decoded decode_by conditional_target predicted decode_cond decode_cond_annulled bit
    decoded_inst decoded_fetch
decoded-ok i s true h = ground arith
decoded-ok i s false h = ground arith

decoded_inst-taken : (i : Instance) (take : Bool) → (decoded_inst i take).taken ≡ bit take
unfolding decoded_inst conditional_target predicted
decoded_inst-taken i take = ground arith

after_slot-decoded :
    (i : Instance) (s : Fetch) (take : Bool)
    → s.npc ≡ add32 i.pc 1
    → after_slot i take (decoded_fetch i s take)
      ≡ (if take then add32 i.pc i.code.imm else add32 i.pc 2)
unfolding decoded_fetch
after_slot-decoded i s true e = ground arith
after_slot-decoded i s false e = ground arith

bit-same : (a b : Bool) → not (bit a == bit b) ≡ false → a ≡ b
unfolding bit
bit-same true true h = refl
bit-same true false h = absurd (cc)
bit-same false true h = absurd (cc)
bit-same false false h = refl

target-same :
    (i k : Instance) (take outcome : Bool)
    → k.code ≡ i.code
    → k.pc ≡ i.pc
    → take ≡ outcome
    → (if take then add32 i.pc i.code.imm else add32 i.pc 2)
      ≡ (if outcome then add32 k.pc k.code.imm else add32 k.pc 2)
target-same i k take outcome c pc e =
    ap (λ (t : Bool). if t then add32 i.pc i.code.imm else add32 i.pc 2) e
    ∙ (ap (λ (n : ℕ). if outcome then add32 n i.code.imm else add32 n 2) (sym pc)
        ∙ ap (λ (x : Instr). if outcome then add32 k.pc x.imm else add32 k.pc 2) (sym c))

-- A conditional branch i that is decoded with npc right behind it is decoded without a failure. When
-- then the same branch k, with the prediction that decoding has put in `taken` and with whatever
-- operands it is executed with, is found not mispredicted by fnBPcc, the instruction that decoding
-- has had fetched after the delay slot (or in its place, when the branch annuls it and is predicted
-- not taken) is the one at the newpc that the execution computes.
pub predicted_right :
    (i k : Instance) (s : Fetch) (p : Predictor)
    → i.code.uncond_branch ≡ 0
    → s.npc ≡ add32 i.pc 1
    → k.code ≡ i.code
    → k.pc ≡ i.pc
    → k.taken ≡ bit (takeit i s)
    → (fn_bpcc k p).0.mispredicted ≡ false
    → (j : Instance) × (t : Fetch) × (decode_branch_instruction i s ≡ ok (0, j, t))
      × (j.taken ≡ k.taken)
      × (after_slot i (takeit i s) t ≡ (fn_bpcc k p).0.newpc)
unfolding fn_bpcc branch_to
predicted_right i k s p h e c pc taken right =
    let take : Bool = takeit i s in
    let outcome : Bool = bpcc_taken (bp_cond k.code.aux1) (bpcc_value k) in
    let same : take ≡ outcome =
      bit-same take outcome (ap (λ (n : ℕ). not (n == bit outcome)) (sym taken) ∙ right) in
    (
      decoded_inst i take,
      decoded_fetch i s take,
      decode-decoded i s h ∙ decoded-ok i s take h,
      decoded_inst-taken i take ∙ sym taken,
      after_slot-decoded i s take e ∙ target-same i k take outcome c pc same,
    )
