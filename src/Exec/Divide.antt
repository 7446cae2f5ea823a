-- ===== src/Exec/Divide.antt =====
-- The divisions of Processor/funcs.cc. A signed division works on the sign and the magnitude and
-- rounds towards zero.
use Prim.Native.Nat.{bit_and}
use rsim.Prelude.{
  ℕ, ◌+◌, ◌-◌, ◌*◌, ◌/◌, ◌%◌, Bool, true, false, not, ◌&&◌, ltb, leb, ◌==◌, if◌then◌else◌,
}
use rsim.Exec.{
  Instance, Instruction, i_udivcc, i_sdivcc, div0, raise, with_rd, operand2, is_neg, word, sign_bit,
  xor, ic_overflow, ic_zero, ic_neg,
}
use rsim.Exec.Flags.{or_if}

-- fnUDIVX
unfoldable pub fn_udivx : Instance → Instance
fn_udivx i = if operand2 i == 0 then raise i div0 else with_rd i (i.rs1vali / operand2 i)

-- the magnitude of an int, and of a 64-bit one with its sign
unfoldable pub mag32 : ℕ → ℕ
mag32 x = if is_neg x then word - x else x

unfoldable pub is_neg64 : ℕ → Bool
is_neg64 x = leb (sign_bit * word) x

unfoldable pub mag64 : ℕ → ℕ
mag64 x = if is_neg64 x then word * word - x else x

-- the pattern of a magnitude with a sign
unfoldable pub signed32 : Bool → ℕ → ℕ
signed32 neg m = if neg then (word - m % word) % word else m % word

-- fnSDIVX
unfoldable pub fn_sdivx : Instance → Instance
fn_sdivx i =
    if operand2 i == 0
    then raise i div0
    else with_rd i (
        signed32 (xor (is_neg i.rs1vali) (is_neg (operand2 i)))
          (mag32 i.rs1vali / mag32 (operand2 i)))

-- Y ## lower 32 of rs1
unfoldable pub dividend : Instance → ℕ
dividend i = i.rsccvali * word + i.rs1vali

-- `rccvali |= iccOVERFLOW`, `iccZERO`, `iccNEG` as the code has them, with the tests of v1 as masks
unfoldable pub div_cc : ℕ → Bool → ℕ → ℕ
div_cc v1 overflow rd =
    or_if (or_if (or_if 0 overflow (bit_and v1 ic_overflow)) (rd == 0) (bit_and v1 ic_zero))
      (is_neg rd) (bit_and v1 ic_neg)

-- The end of a division with a result, an overflow and whether the instruction sets the codes.
unfoldable pub set_div : Instance → Bool → ℕ → Bool → Instance
set_div i overflow rd setcc = record i {
  rdvali = rd;
  rccvali = if setcc then div_cc (dividend i) overflow rd else i.rccvali;
}

-- The exception of a zero divisor; the codes were cleared before.
unfoldable pub div_by_zero : Instance → Bool → Instance
div_by_zero i setcc = record i { exception_code = div0; rccvali = if setcc then 0 else i.rccvali }

unfoldable pub is_udivcc : Instruction → Bool
is_udivcc i_udivcc = true
is_udivcc _ = false

unfoldable pub is_sdivcc : Instruction → Bool
is_sdivcc i_sdivcc = true
is_sdivcc _ = false

-- fnUDIV, also as fnUDIVcc
unfoldable pub fn_udiv : Instance → Instance
fn_udiv i =
    let setcc : Bool = is_udivcc i.code.instruction in
    let quot : ℕ = dividend i / operand2 i in
    if operand2 i == 0
    then div_by_zero i setcc
    else if ltb (word - 1) quot
    then set_div i true (word - 1) setcc
    else set_div i false quot setcc

-- fnSDIV, also as fnSDIVcc: the quotient's sign and magnitude, cut to INT32_MIN or INT32_MAX
unfoldable pub sdiv_result : Bool → ℕ → Bool × ℕ
sdiv_result neg m =
    if neg && ltb sign_bit m
    then (true, sign_bit)
    else if not neg && ltb (sign_bit - 1) m
    then (true, sign_bit - 1)
    else (false, signed32 neg m)

unfoldable pub sdiv_quotient : Instance → Bool × ℕ
sdiv_quotient i =
    sdiv_result (xor (is_neg64 (dividend i)) (is_neg (operand2 i)))
      (mag64 (dividend i) / mag32 (operand2 i))

unfoldable pub fn_sdiv : Instance → Instance
fn_sdiv i =
    let setcc : Bool = is_sdivcc i.code.instruction in
    if operand2 i == 0
    then div_by_zero i setcc
    else set_div i ((sdiv_quotient i).0) ((sdiv_quotient i).1) setcc
