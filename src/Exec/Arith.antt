-- ===== src/Exec/Arith.antt =====
-- The integer instructions of Processor/funcs.cc that leave the condition codes alone: arithmetic,
-- logic, products, shifts and the population count.
use Prim.Native.Nat.{bit_and, bit_or, bit_xor}
use rsim.Prelude.{
  ℕ, zero, suc, ◌+◌, ◌-◌, ◌*◌, ◌/◌, ◌%◌, ◌^◌, ◌||◌, ◌==◌, if◌then◌else◌, Option, none, some, List,
  [], ◌∷◌,
}
use rsim.Exec.{
  Instance, illegal, serialize, raise, operand2, carry_in, with_rd, with_rd_cc, add32, sub32, mul32,
  not32, sra32, is_neg, word, state_y, state_ccr, state_asi, state_fprs, state_membar,
}

-- fnSETHI
unfoldable pub fn_sethi : Instance → Instance
fn_sethi i = with_rd i ((i.code.imm * 1024) % word)

-- fnADD to fnXNOR, fnADDC, fnSUBC and fnMULX
unfoldable pub fn_add : Instance → Instance
fn_add i = with_rd i (add32 i.rs1vali (operand2 i))

unfoldable pub fn_and : Instance → Instance
fn_and i = with_rd i (bit_and i.rs1vali (operand2 i))

unfoldable pub fn_or : Instance → Instance
fn_or i = with_rd i (bit_or i.rs1vali (operand2 i))

unfoldable pub fn_xor : Instance → Instance
fn_xor i = with_rd i (bit_xor i.rs1vali (operand2 i))

unfoldable pub fn_sub : Instance → Instance
fn_sub i = with_rd i (sub32 i.rs1vali (operand2 i))

unfoldable pub fn_andn : Instance → Instance
fn_andn i = with_rd i (bit_and i.rs1vali (not32 (operand2 i)))

unfoldable pub fn_orn : Instance → Instance
fn_orn i = with_rd i (bit_or i.rs1vali (not32 (operand2 i)))

unfoldable pub fn_xnor : Instance → Instance
fn_xnor i = with_rd i (not32 (bit_xor i.rs1vali (operand2 i)))

unfoldable pub fn_addc : Instance → Instance
fn_addc i = with_rd i (add32 (add32 i.rs1vali (operand2 i)) (carry_in i))

unfoldable pub fn_subc : Instance → Instance
fn_subc i = with_rd i (sub32 (sub32 i.rs1vali (operand2 i)) (carry_in i))

unfoldable pub fn_mulx : Instance → Instance
fn_mulx i = with_rd i (mul32 i.rs1vali (operand2 i))

-- fnUMUL. The product of two UINT32 is a UINT32, whatever the width of `destval` it is put in.
unfoldable pub fn_umul : Instance → Instance
fn_umul i =
    let destval : ℕ = mul32 i.rs1vali (operand2 i) in with_rd_cc i (destval % word) (destval / word)

-- The 64 bits of an int, whose sign is copied.
unfoldable pub sext64 : ℕ → ℕ
sext64 x = if is_neg x then (word - 1) * word + x else x

-- fnSMUL. The product of two INT32 is an INT32, whose sign `destval` copies.
unfoldable pub fn_smul : Instance → Instance
fn_smul i =
    let destval : ℕ = sext64 (mul32 i.rs1vali (operand2 i)) in
    with_rd_cc i (destval % word) (destval / word)

-- The amount of a shift, of which the machine reads the low five bits.
unfoldable pub shift_amount : Instance → ℕ
shift_amount i = (if bit_and i.code.aux1 2 == 0 then i.rs2vali else i.code.imm) % 32

-- fnSLL, fnSRL and fnSRA
unfoldable pub fn_sll : Instance → Instance
fn_sll i = with_rd i ((i.rs1vali * 2 ^ shift_amount i) % word)

unfoldable pub fn_srl : Instance → Instance
fn_srl i = with_rd i (i.rs1vali / 2 ^ shift_amount i)

unfoldable pub fn_sra : Instance → Instance
fn_sra i = with_rd i (sra32 i.rs1vali (shift_amount i))

-- fnarithSPECIAL1: a membar, or a copy
unfoldable pub fn_arith_special1 : Instance → Instance
fn_arith_special1 i =
    if i.code.rs1 == state_membar
    then if i.code.rd == 0 then i else raise i illegal
    else with_rd i i.rs1vali

-- fnarithSPECIAL2, less its message
unfoldable pub fn_arith_special2 : Instance → Instance
fn_arith_special2 i =
    if i.code.rd == state_y || i.code.rd == state_ccr
    then with_rd i i.rs1vali
    else if i.code.rd == state_asi || i.code.rd == state_fprs
    then raise i serialize
    else i

-- POPC_arr
unfoldable pub popc_arr : List ℕ
popc_arr = 0 ∷ 1 ∷ 1 ∷ 2 ∷ 1 ∷ 2 ∷ 2 ∷ 3 ∷ 1 ∷ 2 ∷ 2 ∷ 3 ∷ 2 ∷ 3 ∷ 3 ∷ 4 ∷ []

-- an array's element
unfoldable pub elem : List ℕ → ℕ → ℕ
elem [] n = 0
elem (x ∷ xs) zero = x
elem (x ∷ xs) (suc n) = elem xs n

-- The loop of fnPOPC, by at most the given number of tests of its condition: the final `out`.
unfoldable pub popc_loop : ℕ → ℕ → ℕ → Option ℕ
popc_loop zero v1 out = none
popc_loop (suc n) v1 out =
    let rest = popc_loop n (v1 / 16) (out + elem popc_arr (v1 % 16)) in
    if v1 == 0 then some out else rest

-- The word that fnPOPC counts, and fnPOPC
unfoldable pub popc_value : Instance → ℕ
popc_value i = if i.code.aux1 == 0 then i.rs1vali else i.code.imm

unfoldable pub popc_result : Instance → Option ℕ → Option Instance
popc_result i none = none
popc_result i (some out) = some (with_rd i out)

unfoldable pub fn_popc : Instance → Option Instance
fn_popc i = popc_result i (popc_loop 9 (popc_value i) 0)
