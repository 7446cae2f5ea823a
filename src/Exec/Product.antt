-- ===== src/Exec/Product.antt =====
-- The products of Processor/funcs.cc.
use rsim.Prelude.{◌*◌, ◌/◌, ◌%◌, ◌≤◌, ◌≡◌, ◌≢◌, arith}
use rsim.Exec.{Instance, operand2, with_rd_cc, word, mul32}
use rsim.Exec.Arith.{fn_umul}

-- When the product of the operands is not below 2 ^ 32, fnUMUL leaves its low word in rd, and what it
-- leaves for the Y register is not its high word.
pub umul-high_lost :
    (i : Instance)
    → word ≤ i.rs1vali * operand2 i
    → ((fn_umul i).rdvali ≡ (i.rs1vali * operand2 i) % word)
      × ((fn_umul i).rccvali ≢ (i.rs1vali * operand2 i) / word)
unfolding fn_umul mul32 with_rd_cc
umul-high_lost i h = (omega arith, λ e. omega arith)
