-- ===== src/Exec/Flags.antt =====
-- The integer instructions of Processor/funcs.cc that set the condition codes, and those of them
-- that run serialised on the processor's register files.
use Prim.Native.Nat.{bit_and, bit_or, bit_xor}
use rsim.Prelude.{
  ℕ, ◌+◌, ◌-◌, ◌*◌, ◌/◌, Bool, not, ◌&&◌, ◌||◌, ltb, leb, ◌==◌, if◌then◌else◌, update,
}
use rsim.Exec.{
  Instance, serialize, raise, operand2, carry_in, with_rd_cc, add32, sub32, not32, is_neg, sign_bit,
  ic_carry, ic_overflow, ic_zero, ic_neg, cond_icc, cond_xcc, state_y,
}
use rsim.Exec.Arith.{fn_umul, fn_smul}

-- if (b) cc |= mask
unfoldable pub or_if : ℕ → Bool → ℕ → ℕ
or_if cc b mask = if b then bit_or cc mask else cc

-- NEG and ZERO of a result
unfoldable pub neg_zero : ℕ → ℕ
neg_zero tmp = or_if (or_if 0 (is_neg tmp) ic_neg) (tmp == 0) ic_zero

-- The tests of OVERFLOW and CARRY after an addition v1 + v2 with the int result tmp
unfoldable pub add_overflow : ℕ → ℕ → ℕ → Bool
add_overflow v1 v2 tmp =
    (not (is_neg v1) && (not (is_neg v2) && is_neg tmp))
    || (is_neg v1 && (is_neg v2 && not (is_neg tmp)))

unfoldable pub add_carry : ℕ → ℕ → ℕ → Bool
add_carry v1 v2 tmp =
    (is_neg v1 && is_neg v2) || ((not (is_neg tmp) && not (tmp == 0)) && (is_neg v1 || is_neg v2))

-- and after a subtraction v1 - v2
unfoldable pub sub_overflow : ℕ → ℕ → ℕ → Bool
sub_overflow v1 v2 tmp =
    (not (is_neg v1) && (is_neg v2 && is_neg tmp))
    || (is_neg v1 && (not (is_neg v2) && not (is_neg tmp)))

-- The common text of fnADDcc and fnADDCcc, and of fnSUBcc and fnSUBCcc, from v1 and v2 on
unfoldable pub set_add : Instance → ℕ → ℕ → Instance
set_add i v1 v2 =
    let tmp : ℕ = add32 v1 v2 in
    with_rd_cc i tmp (
      or_if (or_if (neg_zero tmp) (add_overflow v1 v2 tmp) ic_overflow) (add_carry v1 v2 tmp)
        ic_carry)

unfoldable pub set_sub : Instance → ℕ → ℕ → Instance
set_sub i v1 v2 =
    let tmp : ℕ = sub32 v1 v2 in
    with_rd_cc i tmp
      (or_if (or_if (neg_zero tmp) (sub_overflow v1 v2 tmp) ic_overflow) (ltb v1 v2) ic_carry)

unfoldable pub fn_addcc : Instance → Instance
fn_addcc i = set_add i i.rs1vali (operand2 i)

unfoldable pub fn_addccc : Instance → Instance
fn_addccc i = set_add i i.rs1vali (add32 (operand2 i) (carry_in i))

unfoldable pub fn_subcc : Instance → Instance
fn_subcc i = set_sub i i.rs1vali (operand2 i)

unfoldable pub fn_subccc : Instance → Instance
fn_subccc i = set_sub i i.rs1vali (add32 (operand2 i) (carry_in i))

-- fnANDcc, fnORcc, fnXORcc, fnANDNcc, fnORNcc and fnXNORcc
unfoldable pub set_logic : Instance → ℕ → Instance
set_logic i tmp = with_rd_cc i tmp (neg_zero tmp)

unfoldable pub fn_andcc : Instance → Instance
fn_andcc i = set_logic i (bit_and i.rs1vali (operand2 i))

unfoldable pub fn_orcc : Instance → Instance
fn_orcc i = set_logic i (bit_or i.rs1vali (operand2 i))

unfoldable pub fn_xorcc : Instance → Instance
fn_xorcc i = set_logic i (bit_xor i.rs1vali (operand2 i))

unfoldable pub fn_andncc : Instance → Instance
fn_andncc i = set_logic i (bit_and i.rs1vali (not32 (operand2 i)))

unfoldable pub fn_orncc : Instance → Instance
fn_orncc i = set_logic i (bit_or i.rs1vali (not32 (operand2 i)))

unfoldable pub fn_xnorcc : Instance → Instance
fn_xnorcc i = set_logic i (not32 (bit_xor i.rs1vali (operand2 i)))

-- fnUMULcc, fnSMULcc and fnMULScc wait until the processor is idle.
unfoldable pub fn_umulcc : Instance → Instance
fn_umulcc i = raise i serialize

unfoldable pub fn_smulcc : Instance → Instance
fn_smulcc i = raise i serialize

unfoldable pub fn_mulscc : Instance → Instance
fn_mulscc i = raise i serialize

-- The register files and the window of class state
pub record RegFiles : Type 0 where
  pub cwp : ℕ
  pub num_wins : ℕ
  pub physical_int_reg_file : ℕ → ℕ
  pub logical_int_reg_file : ℕ → ℕ

-- convert_to_logical of incl/Processor/state.h, with WINSTART = 48
unfoldable pub convert_to_logical : ℕ → ℕ → ℕ → ℕ
convert_to_logical num_wins cwp iarch =
    if ltb iarch 8
    then iarch
    else let arch : ℕ = if iarch == cond_xcc then cond_icc else iarch in
      if leb 32 arch
      then arch - 24
      else if leb 16 arch
      then 48 + 16 * bit_and cwp (num_wins - 1) + (arch - 16)
      else 48 + 16 * bit_and (sub32 cwp 1) (num_wins - 1) + arch

-- proc->physical_int_reg_file[n] = proc->logical_int_reg_file[n] = x
unfoldable pub write_both : RegFiles → ℕ → ℕ → RegFiles
write_both r n x = record r {
  physical_int_reg_file = update r.physical_int_reg_file n x;
  logical_int_reg_file = update r.logical_int_reg_file n x;
}

-- and at an architectural register's place
unfoldable pub write_arch : RegFiles → ℕ → ℕ → RegFiles
write_arch r iarch x = write_both r (convert_to_logical r.num_wins r.cwp iarch) x

unfoldable pub read_arch : RegFiles → ℕ → ℕ
read_arch r iarch = r.logical_int_reg_file (convert_to_logical r.num_wins r.cwp iarch)

-- What follows the product in fnUMULcc_serialized and fnSMULcc_serialized
unfoldable pub write_product : Instance → RegFiles → RegFiles
write_product i r =
    write_arch (write_arch (write_both r i.lrd i.rdvali) state_y i.rccvali) cond_icc
      (neg_zero i.rdvali)

unfoldable pub fn_umulcc_serialized : Instance → RegFiles → Instance × RegFiles
fn_umulcc_serialized i r = (fn_umul i, write_product (fn_umul i) r)

unfoldable pub fn_smulcc_serialized : Instance → RegFiles → Instance × RegFiles
fn_smulcc_serialized i r = (fn_smul i, write_product (fn_smul i) r)

-- The sum and the condition codes of one step of fnMULScc_serialized, of `oldtmpval`, whether the
-- multiplicand is added, and the multiplicand
unfoldable pub mulscc_sum : ℕ → Bool → ℕ → ℕ
mulscc_sum old lsb multiplicand = if lsb then add32 old multiplicand else old

unfoldable pub mulscc_cc : ℕ → Bool → ℕ → ℕ
mulscc_cc old lsb m =
    let tmpval : ℕ = mulscc_sum old lsb m in
    or_if (or_if (or_if 0 (lsb && add_overflow old m tmpval) ic_overflow) (is_neg tmpval) ic_neg)
      (tmpval == 0) ic_zero

-- rs1 shifted right, with N ^ V as its high bit
unfoldable pub mulscc_shifted : Instance → RegFiles → ℕ
mulscc_shifted i r =
    let vcc : ℕ = read_arch r cond_icc in
    let neg : Bool = not (bit_and vcc ic_neg == 0) in
    let ovf : Bool = not (bit_and vcc ic_overflow == 0) in
    bit_or (i.rs1vali / 2) (if (neg && not ovf) || (not neg && ovf) then sign_bit else 0)

-- fnMULScc_serialized
unfoldable pub fn_mulscc_serialized : Instance → RegFiles → RegFiles
fn_mulscc_serialized i r =
    let vy : ℕ = read_arch r state_y in
    let lsb : Bool = not (bit_and vy 1 == 0) in
    let old : ℕ = mulscc_shifted i r in
    write_arch
      (write_arch (write_both r i.lrd (mulscc_sum old lsb (operand2 i))) cond_icc
        (mulscc_cc old lsb (operand2 i)))
      state_y (bit_or (vy / 2) (bit_and i.rs1vali 1 * sign_bit))
