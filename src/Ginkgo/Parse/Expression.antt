-- ===== src/Ginkgo/Parse/Expression.antt =====
-- ginkgo/src/parse.rs: expressions, by their parselets. Each call and each run of a loop takes one
-- unit of fuel.
use poplar.Prelude.{
  ℕ, zero, suc, ◌+◌, ◌%◌, Bool, true, false, Option, none, some, ltb, if◌then◌else◌, Outcome, done,
  panic,
}
use poplar.Ginkgo.Integer.{of_word}
use poplar.Ginkgo.Value.{integer, Name, ginkgo_string}
use poplar.Ginkgo.Opcode.{Opcode}
use poplar.Ginkgo.Chunk
use poplar.Ginkgo.Lex.{TokenType, Token, token_to_integer_literal}
use poplar.Ginkgo.Parse.{
  end_of_token_stream_in_expression, unrecognised_prefix_operator, unrecognised_infix_operator,
  Parse, pure, reject, stop, starve, ◌>>=◌, ◌>>◌, with_chunk, emit, emit2, emit_jump, patch_jump,
  constant, new_object, next_token, peek_token, matches, consume, token_text, find_local,
}

abbrev pub precedence_assignment : ℕ
precedence_assignment = 1

abbrev pub precedence_prefix : ℕ
precedence_prefix = 11

pub data PrefixParselet : Type 0 where
  name_prefix integer_prefix string_prefix negation grouping : PrefixParselet
  bool_literal : Bool → PrefixParselet

pub data InfixParselet : Type 0 where
  binary_op : Opcode → InfixParselet
  logical_and logical_or assignment function_call : InfixParselet

-- The prefix parselets that are registered.
abbrev pub prefix_for : TokenType → Option PrefixParselet
prefix_for TokenType.identifier = some name_prefix
prefix_for TokenType.integer = some integer_prefix
prefix_for TokenType.string = some string_prefix
prefix_for TokenType.true_keyword = some (bool_literal true)
prefix_for TokenType.false_keyword = some (bool_literal false)
prefix_for TokenType.minus = some negation
prefix_for TokenType.left_paren = some grouping
prefix_for typ = none

-- The infix parselets that are registered, with their precedences.
abbrev pub registered : TokenType → Option (ℕ × InfixParselet)
registered TokenType.plus = some (8, binary_op Opcode.add)
registered TokenType.minus = some (8, binary_op Opcode.subtract)
registered TokenType.asterix = some (9, binary_op Opcode.multiply)
registered TokenType.slash = some (9, binary_op Opcode.divide)
registered TokenType.ampersand = some (7, binary_op Opcode.bitwise_and)
registered TokenType.pipe = some (5, binary_op Opcode.bitwise_or)
registered TokenType.caret = some (6, binary_op Opcode.bitwise_xor)
registered TokenType.equals_equals = some (4, binary_op Opcode.equal)
registered TokenType.bang_equals = some (4, binary_op Opcode.not_equal)
registered TokenType.greater_than = some (4, binary_op Opcode.greater_than)
registered TokenType.greater_equal = some (4, binary_op Opcode.greater_equal)
registered TokenType.less_than = some (4, binary_op Opcode.less_than)
registered TokenType.less_equal = some (4, binary_op Opcode.less_equal)
registered TokenType.ampersand_ampersand = some (3, logical_and)
registered TokenType.pipe_pipe = some (2, logical_or)
registered TokenType.equals = some (precedence_assignment, assignment)
registered TokenType.left_paren = some (14, function_call)
registered typ = none

-- `next.map_or(false, ..)`: whether an infix operator follows that binds tighter.
abbrev pub binds : ℕ → Option Token → Bool
binds precedence none = false
binds precedence (some token) = elim (registered token.typ) [
  | none ↦ false
  | some (next_precedence, infix_op) ↦ ltb precedence next_precedence
]

abbrev pub emit_name : Option ℕ → Name → Parse (Unit {0})
emit_name (some index) name = emit2 Opcode.get_local (index % 256)
emit_name none name = do
  value ← new_object (ginkgo_string name)
  index ← constant value
  emit2 Opcode.get_global index

unfoldable pub resolve_name : Name → Parse (Unit {0})
resolve_name name s = emit_name (find_local name s.current_function.locals) name s

abbrev pub emit_integer : Outcome ℕ → Parse (Unit {0})
emit_integer panic = stop
emit_integer (done value) =
    constant (integer (of_word value)) >>= λ index. emit2 Opcode.constant index

-- The operand and the opcode that are taken off the end of the chunk.
abbrev pub pop_operand : Parse (Option ℕ)
pop_operand = with_chunk Chunk.pop_last

abbrev pub pop_opcode : Parse (Option Opcode)
pop_opcode = with_chunk Chunk.pop_last_op

abbrev pub set_opcode : Option Opcode → Option Opcode
set_opcode (some Opcode.get_global) = some Opcode.set_global
set_opcode (some Opcode.get_local) = some Opcode.set_local
set_opcode op = none

module _ (is_xid_start is_xid_continue : ℕ → Bool) where
  abbrev some_token : Option Token → Parse Token
  some_token none = reject end_of_token_stream_in_expression
  some_token (some token) = pure token

  -- After `peek` has shown a token.
  abbrev unwrap_token : Option Token → Parse Token
  unwrap_token none = stop
  unwrap_token (some token) = pure token

  -- The parselets, over the calls of `expression` for the fuel that is left.
  module _ (expression : ℕ → Parse (Unit {0})) where
    unfoldable pub run_prefix : Option PrefixParselet → Token → Parse (Unit {0})
    run_prefix none token = reject (unrecognised_prefix_operator token.typ)
    run_prefix (some name_prefix) token = token_text token >>= λ name. resolve_name name
    run_prefix (some integer_prefix) token =
        token_text token >>= λ text. emit_integer (token_to_integer_literal text)
    run_prefix (some string_prefix) token = do
      text ← token_text token
      value ← new_object (ginkgo_string text)
      index ← constant value
      emit2 Opcode.constant index
    run_prefix (some (bool_literal true)) token = emit Opcode.push_true
    run_prefix (some (bool_literal false)) token = emit Opcode.push_false
    run_prefix (some negation) token = expression precedence_prefix >> emit Opcode.negate
    run_prefix (some grouping) token = do
      expression 0
      closing ← consume is_xid_start is_xid_continue TokenType.right_paren
      pure tt

    abbrev assign_to : Option ℕ → Option Opcode → Parse (Unit {0})
    assign_to none op = stop
    assign_to (some operand) none = stop
    assign_to (some operand) (some op) = expression 0 >> emit2 op operand

    unfoldable pub run_infix : Parse ℕ → Option (ℕ × InfixParselet) → Token → Parse (Unit {0})
    run_infix arguments none token = reject (unrecognised_infix_operator token.typ)
    run_infix arguments (some (precedence, binary_op op)) token = expression precedence >> emit op
    run_infix arguments (some (precedence, logical_and)) token = do
      jump ← emit_jump Opcode.jump_if_false
      emit Opcode.pop
      expression precedence
      patch_jump jump
    run_infix arguments (some (precedence, logical_or)) token = do
      jump ← emit_jump Opcode.jump_if_true
      emit Opcode.pop
      expression precedence
      patch_jump jump
    run_infix arguments (some (precedence, assignment)) token = do
      operand ← pop_operand
      op ← pop_opcode
      assign_to operand (set_opcode op)
    run_infix arguments (some (precedence, function_call)) token =
        arguments >>= λ arg_count. emit2 Opcode.call arg_count

    -- The rest of the argument list, if it is not closed. `arg_count` is a `u8`.
    abbrev pub arguments_unless : (ℕ → Parse ℕ) → ℕ → Bool → Parse ℕ
    arguments_unless arguments arg_count true = pure arg_count
    arguments_unless arguments arg_count false = do
      expression 0
      comma ← matches is_xid_start is_xid_continue TokenType.comma
      (if ltb arg_count 255 then arguments (arg_count + 1) else stop)

  -- The next token, if it is an infix operator that binds, and what follows.
  abbrev pub infix_if : (Token → Parse (Unit {0})) → Bool → Parse (Unit {0})
  infix_if follow false = pure tt
  infix_if follow true = do
    next ← next_token is_xid_start is_xid_continue
    token ← unwrap_token next
    follow token

  unfoldable mutual
    pub expression : ℕ → ℕ → Parse (Unit {0})
    expression zero precedence = starve
    expression (suc fuel) precedence = do
      next ← next_token is_xid_start is_xid_continue
      token ← some_token next
      run_prefix (expression fuel) (prefix_for token.typ) token
      expression_loop fuel precedence

    pub expression_loop : ℕ → ℕ → Parse (Unit {0})
    expression_loop zero precedence = starve
    expression_loop (suc fuel) precedence = do
      next ← peek_token is_xid_start is_xid_continue
      infix_if
          (λ token.
            run_infix (expression fuel) (arguments fuel 0) (registered token.typ) token
            >> expression_loop fuel precedence)
          (binds precedence next)

    pub arguments : ℕ → ℕ → Parse ℕ
    arguments zero arg_count = starve
    arguments (suc fuel) arg_count = do
      closed ← matches is_xid_start is_xid_continue TokenType.right_paren
      arguments_unless (expression fuel) (arguments fuel) arg_count closed
