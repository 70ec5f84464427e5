-- ===== src/Ginkgo/Opcode.antt =====
-- ginkgo/src/vm.rs: the opcodes and their bytes.
pub mod Laws
use poplar.Prelude.{ℕ, Option, none, some, List, [], ◌∷◌}
use poplar.Syscall.Repr.{first_match}

pub data Opcode : Type 0 where
  return constant negate add subtract multiply divide push_true push_false : Opcode
  bitwise_and bitwise_or bitwise_xor equal not_equal less_than less_equal : Opcode
  greater_than greater_equal pop define_global get_global set_global : Opcode
  get_local set_local jump jump_if_true jump_if_false call push_unit : Opcode

-- `op as u8`
abbrev pub as_u8 : Opcode → ℕ
as_u8 return = 0
as_u8 constant = 1
as_u8 negate = 2
as_u8 add = 3
as_u8 subtract = 4
as_u8 multiply = 5
as_u8 divide = 6
as_u8 push_true = 7
as_u8 push_false = 8
as_u8 bitwise_and = 9
as_u8 bitwise_or = 10
as_u8 bitwise_xor = 11
as_u8 equal = 12
as_u8 not_equal = 13
as_u8 less_than = 14
as_u8 less_equal = 15
as_u8 greater_than = 16
as_u8 greater_equal = 17
as_u8 pop = 18
as_u8 define_global = 19
as_u8 get_global = 20
as_u8 set_global = 21
as_u8 get_local = 22
as_u8 set_local = 23
as_u8 jump = 24
as_u8 jump_if_true = 25
as_u8 jump_if_false = 26
as_u8 call = 27
as_u8 push_unit = 28

-- `TryFrom<u8>`
abbrev pub try_from : ℕ → Option Opcode
try_from = first_match (
    (0, return)
    ∷ (1, constant)
    ∷ (2, negate)
    ∷ (3, add)
    ∷ (4, subtract)
    ∷ (5, multiply)
    ∷ (6, divide)
    ∷ (7, push_true)
    ∷ (8, push_false)
    ∷ (9, bitwise_and)
    ∷ (10, bitwise_or)
    ∷ (11, bitwise_xor)
    ∷ (12, equal)
    ∷ (13, not_equal)
    ∷ (14, less_than)
    ∷ (15, less_equal)
    ∷ (16, greater_than)
    ∷ (17, greater_equal)
    ∷ (18, pop)
    ∷ (19, define_global)
    ∷ (20, get_global)
    ∷ (21, set_global)
    ∷ (22, get_local)
    ∷ (23, set_local)
    ∷ (24, jump)
    ∷ (25, jump_if_true)
    ∷ (26, jump_if_false)
    ∷ (27, call)
    ∷ (28, push_unit)
    ∷ [])
