-- ===== src/Ginkgo/Chunk.antt =====
-- ginkgo/src/vm.rs, `Chunk`, and the emitters of ginkgo/src/parse.rs.
use poplar.Prelude.{
  ℕ, ◌+◌, Option, none, some, List, [], ◌∷◌, ◌++◌, length, set, ltb, if◌then◌else◌, Outcome, done,
  panic, ◌>>=◌,
}
use poplar.Ginkgo.Integer.{difference_bytes}
use poplar.Ginkgo.Value.{Value, Chunk}
use poplar.Ginkgo.Opcode.{Opcode, as_u8, try_from}

abbrev pub new : Chunk
new = record { code = []; constants = [] }

unfoldable pub push : ℕ → Chunk → Chunk
push byte c = record c { code = c.code ++ (byte ∷ []) }

-- The index of the constant, and the chunk.
unfoldable pub create_constant : Value → Chunk → ℕ × Chunk
create_constant value c = (length c.constants, record c { constants = c.constants ++ (value ∷ []) })

-- `Vec::pop`
abbrev pub pop_code : List ℕ → Option ℕ × List ℕ
pop_code [] = (none, [])
pop_code (b ∷ []) = (some b, [])
pop_code (b ∷ c ∷ bs) = let (last, rest) = pop_code (c ∷ bs) in (last, b ∷ rest)

unfoldable pub pop_last : Chunk → Option ℕ × Chunk
pop_last c = ((pop_code c.code).0, record c { code = (pop_code c.code).1 })

unfoldable pub pop_last_op : Chunk → Option Opcode × Chunk
pop_last_op c = (
  elim ((pop_code c.code).0) [ none ↦ none | some b ↦ try_from b ],
  record c { code = (pop_code c.code).1 },
)

unfoldable pub current_offset : Chunk → ℕ
current_offset c = length c.code

-- `self.code[index] = byte`
abbrev pub write_code : ℕ → ℕ → Chunk → Outcome Chunk
write_code index byte c =
    if ltb index (length c.code) then done (record c { code = set c.code index byte }) else panic

unfoldable pub patch_jump : ℕ → Chunk → Outcome Chunk
patch_jump operand c = difference_bytes (length c.code) (operand + 2) >>= λ (b0, b1).
    write_code operand b0 c >>= λ c'. write_code (operand + 1) b1 c'

-- `Parser::emit`, `emit2`, `emit_jump` and `emit_jump_to`, on the chunk of the current function.
unfoldable pub emit : Opcode → Chunk → Chunk
unfolding push
emit op c = push (as_u8 op) c

unfoldable pub emit2 : Opcode → ℕ → Chunk → Chunk
unfolding push
emit2 op operand c = push operand (push (as_u8 op) c)

-- The offset of the operand, to be patched later.
unfoldable pub emit_jump : Opcode → Chunk → ℕ × Chunk
unfolding emit push
emit_jump op c = (length (emit op c).code, push 0 (push 0 (emit op c)))

unfoldable pub emit_jump_to : Opcode → ℕ → Chunk → Outcome Chunk
unfolding emit push
emit_jump_to op target c = difference_bytes target (length (emit op c).code + 2) >>= λ (b0, b1).
    done (push b1 (push b0 (emit op c)))
