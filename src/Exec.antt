-- ===== src/Exec.antt =====
-- The instruction emulation of src/Processor/funcs.cc: the words it computes on and the record of an
-- executing instruction (incl/Processor/instance.h, instruction.h). A C int or unsigned is its
-- 32-bit pattern, a number below 2 ^ 32; what is negative as an int has the top bit set.
pub mod Conditions
pub mod Branch
pub mod Arith
pub mod Flags
pub mod Divide
pub mod Select
pub mod FloatSelect
mod Compare
mod Carry
mod Quotient
mod Agree
mod Ones
mod Product
pub mod Transfer
mod Followed
mod Tests
use Prim.Native.Nat.{bit_and, bit_or}
use rsim.Prelude.{
  ℕ, ◌+◌, ◌-◌, ◌*◌, ◌/◌, ◌%◌, ◌^◌, Bool, true, false, not, ◌&&◌, ◌||◌, ltb, leb, ◌==◌,
  if◌then◌else◌,
}

-- `enum except`, what an instruction reports
pub data Except : Type 0 where
  ok_exc div0 fperr segv buserr systrap wintrap : Except
  soft_limbo soft_sl_cohe soft_sl_repl serialize privileged illegal badpc : Except

-- the instruction codes that the division routines ask about
pub data Instruction : Type 0 where
  i_udiv i_udivcc i_sdiv i_sdivcc i_other : Instruction

-- The fields of a static `instr` that the emulation reads. `aux1` and `aux2` are the immediate flag
-- or a branch condition, as the instruction's format has it.
pub record Instr : Type 0 where
  pub instruction : Instruction
  pub rd : ℕ
  pub rs1 : ℕ
  pub rscc : ℕ
  pub aux1 : ℕ
  pub aux2 : ℕ
  pub imm : ℕ
  pub taken_hint : Bool
  pub annul : ℕ
  pub cond_branch : ℕ
  pub uncond_branch : ℕ

-- The fields of a dynamic `instance` that the integer instructions read and write.
pub record Instance : Type 0 where
  pub code : Instr
  pub pc : ℕ
  pub newpc : ℕ
  pub branch_pred : ℕ
  pub taken : ℕ
  pub mispredicted : Bool
  pub rs1vali : ℕ
  pub rs2vali : ℕ
  pub rsccvali : ℕ
  pub rdvali : ℕ
  pub rccvali : ℕ
  pub lrd : ℕ
  pub branchdep : ℕ
  pub exception_code : Except

-- the register numbers of incl/Processor/archregnums.h
abbrev pub cond_icc : ℕ
cond_icc = 36

abbrev pub cond_xcc : ℕ
cond_xcc = 38

abbrev pub state_y : ℕ
state_y = 40

abbrev pub state_ccr : ℕ
state_ccr = 42

abbrev pub state_asi : ℕ
state_asi = 43

abbrev pub state_fprs : ℕ
state_fprs = 46

abbrev pub state_membar : ℕ
state_membar = 55

-- 2 ^ 32 and 2 ^ 31
abbrev pub word : ℕ
word = 4294967296

abbrev pub sign_bit : ℕ
sign_bit = 2147483648

-- x < 0 for an int x
abbrev pub is_neg : ℕ → Bool
is_neg x = leb sign_bit x

-- +, - and * of ints or unsigneds, which wrap
abbrev pub add32 : ℕ → ℕ → ℕ
add32 a b = (a + b) % word

abbrev pub sub32 : ℕ → ℕ → ℕ
sub32 a b = (a + (word - b)) % word

unfoldable pub mul32 : ℕ → ℕ → ℕ
mul32 a b = (a * b) % word

-- ~x
abbrev pub not32 : ℕ → ℕ
not32 x = word - 1 - x

-- x >> k of an int, which copies the sign
unfoldable pub sra32 : ℕ → ℕ → ℕ
sra32 x k = if is_neg x then x / 2 ^ k + (word - word / 2 ^ k) else x / 2 ^ k

-- inline int xor(int a, int b), as a truth value
abbrev pub xor : Bool → Bool → Bool
xor a b = (a || b) && not (a && b)

-- icCARRY, icOVERFLOW, icZERO, icNEG
abbrev pub ic_carry : ℕ
ic_carry = 1

abbrev pub ic_overflow : ℕ
ic_overflow = 2

abbrev pub ic_zero : ℕ
ic_zero = 4

abbrev pub ic_neg : ℕ
ic_neg = 8

-- the tests iccCARRY, iccOVERFLOW, iccZERO, iccNEG of a value v1
unfoldable pub icc_carry : ℕ → Bool
icc_carry v1 = not (bit_and v1 ic_carry == 0)

unfoldable pub icc_overflow : ℕ → Bool
icc_overflow v1 = not (bit_and v1 ic_overflow == 0)

unfoldable pub icc_zero : ℕ → Bool
icc_zero v1 = not (bit_and v1 ic_zero == 0)

unfoldable pub icc_neg : ℕ → Bool
icc_neg v1 = not (bit_and v1 ic_neg == 0)

-- xccTOicc
unfoldable pub xcc_to_icc : ℕ → ℕ
xcc_to_icc x = sra32 x 16

-- The second operand: the immediate when aux1 is set, else the register.
unfoldable pub operand2 : Instance → ℕ
operand2 i = if i.code.aux1 == 0 then i.rs2vali else i.code.imm

-- the carry that an ADDC or SUBC takes in, `vcc & icCARRY`
unfoldable pub carry_in : Instance → ℕ
carry_in i =
    bit_and (if i.code.rscc == cond_xcc then xcc_to_icc i.rsccvali else i.rsccvali) ic_carry

-- inst->rdvali = x, and with inst->rccvali = cc
unfoldable pub with_rd : Instance → ℕ → Instance
with_rd i x = record i { rdvali = x }

unfoldable pub with_rd_cc : Instance → ℕ → ℕ → Instance
with_rd_cc i x cc = record i { rdvali = x; rccvali = cc }

-- inst->exception_code = e
unfoldable pub raise : Instance → Except → Instance
raise i e = record i { exception_code = e }

-- fnRESERVED, fnTcc, fnIMPDEP1 and fnIMPDEP2; fnRDPR and fnWRPR
unfoldable pub fn_reserved : Instance → Instance
fn_reserved i = raise i illegal

unfoldable pub fn_tcc : Instance → Instance
fn_tcc i = raise i illegal

unfoldable pub fn_rdpr : Instance → Instance
fn_rdpr i = raise i privileged

unfoldable pub fn_wrpr : Instance → Instance
fn_wrpr i = raise i privileged

-- fnILLTRAP
unfoldable pub fn_illtrap : Instance → Instance
fn_illtrap i = if ltb i.code.aux2 4096 then raise i systrap else with_rd i i.rs1vali

-- fnDONERETRY and fnSAVRESTD, of the processor's privstate
unfoldable pub fn_doneretry : Bool → Instance → Instance
fn_doneretry privstate i = if privstate then raise i serialize else raise i privileged

unfoldable pub fn_savrestd : Bool → Instance → Instance
fn_savrestd privstate i = if privstate then raise i serialize else raise i privileged
