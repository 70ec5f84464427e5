-- ===== src/Ginkgo/Opcode/Laws.antt =====
-- The byte of an opcode names it, and the bytes from 29 on name none.
use poplar.Prelude.{ℕ, ◌≤◌, ◌<◌, ◌≡◌, refl, none, some, arith}
use poplar.Ginkgo.Opcode.{Opcode, as_u8, try_from}

pub read_back : (op : Opcode) → (try_from (as_u8 op) ≡ some op) × (as_u8 op < 29)
read_back Opcode.return = (refl, omega arith)
read_back Opcode.constant = (refl, omega arith)
read_back Opcode.negate = (refl, omega arith)
read_back Opcode.add = (refl, omega arith)
read_back Opcode.subtract = (refl, omega arith)
read_back Opcode.multiply = (refl, omega arith)
read_back Opcode.divide = (refl, omega arith)
read_back Opcode.push_true = (refl, omega arith)
read_back Opcode.push_false = (refl, omega arith)
read_back Opcode.bitwise_and = (refl, omega arith)
read_back Opcode.bitwise_or = (refl, omega arith)
read_back Opcode.bitwise_xor = (refl, omega arith)
read_back Opcode.equal = (refl, omega arith)
read_back Opcode.not_equal = (refl, omega arith)
read_back Opcode.less_than = (refl, omega arith)
read_back Opcode.less_equal = (refl, omega arith)
read_back Opcode.greater_than = (refl, omega arith)
read_back Opcode.greater_equal = (refl, omega arith)
read_back Opcode.pop = (refl, omega arith)
read_back Opcode.define_global = (refl, omega arith)
read_back Opcode.get_global = (refl, omega arith)
read_back Opcode.set_global = (refl, omega arith)
read_back Opcode.get_local = (refl, omega arith)
read_back Opcode.set_local = (refl, omega arith)
read_back Opcode.jump = (refl, omega arith)
read_back Opcode.jump_if_true = (refl, omega arith)
read_back Opcode.jump_if_false = (refl, omega arith)
read_back Opcode.call = (refl, omega arith)
read_back Opcode.push_unit = (refl, omega arith)

-- An opcode that is written as a byte is read back as itself, its byte is below 29, and a byte from
-- 29 on is read as no opcode.
pub try_from-as_u8 :
    ((op : Opcode) → (try_from (as_u8 op) ≡ some op) × (as_u8 op < 29))
    × ((byte : ℕ) → 29 ≤ byte → try_from byte ≡ none)
try_from-as_u8 = (read_back, λ byte h. ground (arith, h))
