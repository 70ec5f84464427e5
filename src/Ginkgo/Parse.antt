-- ===== src/Ginkgo/Parse.antt =====
-- ginkgo/src/parse.rs: the state of the parser, its errors, and what its functions share. The
-- parser owns the heap that its objects are put in: `heap` and the number of the next object.
pub mod Expression
pub mod Statement
pub mod Stream
pub mod Reference
pub mod Emitted
pub mod Chunks
pub mod Fuel
pub mod Steps
pub mod Compiles
pub mod Evals
pub mod Placed
pub mod Runs
pub mod Alone
pub mod Program
pub mod Scopes
pub mod Examples
use poplar.Prelude.{
  ℕ, zero, suc, ◌+◌, ◌-◌, ◌%◌, Bool, true, false, Option, none, some, List, [], ◌∷◌, length, ltb,
  ◌==◌, if◌then◌else◌, Outcome, done, panic,
}
use poplar.Ginkgo.Value.{Value, obj, Chunk, Name, Object, ginkgo_string, Heap, name_eq}
use poplar.Ginkgo.Opcode.{Opcode}
use poplar.Ginkgo.Chunk
use poplar.Ginkgo.Lex.{
  TokenType, Token, Lex, next, peek, LexError, ended, lexed, wrong, crash, shown, refused, panicked,
  slice,
}

pub record Local : Type 0 where
  pub name : Name
  pub depth : ℕ

-- The locals are listed from the last one that was pushed.
pub record Function : Type 0 where
  pub chunk : Chunk
  pub scope_depth : ℕ
  pub locals : List Local

pub record Parser : Type 0 where
  pub stream : Lex
  pub current_function : Function
  pub func_stack : List Function
  pub heap : Heap
  pub next_object : ℕ

pub data ParseError : Type 0 where
  lex_error : LexError → ParseError
  unexpected_end_of_token_stream : TokenType → ParseError
  end_of_token_stream_in_expression : ParseError
  expected_token_but_got : TokenType → TokenType → ParseError
  unrecognised_prefix_operator unrecognised_infix_operator : TokenType → ParseError

-- A value, an error, a panic, or more fuel that is needed.
pub data Parsed (A : Type 0) : Type 0 where
  parsed : A → Parser → Parsed A
  rejected : ParseError → Parsed A
  crashed starved : Parsed A

abbrev pub Parse : Type 0 → Type 0
Parse A = Parser → Parsed A

abbrev pub pure : {A : Type 0} → A → Parse A
pure a s = parsed a s

abbrev pub reject : {A : Type 0} → ParseError → Parse A
reject e s = rejected e

abbrev pub stop : {A : Type 0} → Parse A
stop s = crashed

abbrev pub starve : {A : Type 0} → Parse A
starve s = starved

module _ {A B : Type 0} where
  abbrev pub bind : Parsed A → (A → Parse B) → Parsed B
  bind (parsed a s) f = f a s
  bind (rejected e) f = rejected e
  bind crashed f = crashed
  bind starved f = starved

  infixl 1 ◌>>=◌ ◌>>◌
  abbrev pub ◌>>=◌ : Parse A → (A → Parse B) → Parse B
  p >>= f = λ s. bind (p s) f

  abbrev pub ◌>>◌ : Parse A → Parse B → Parse B
  p >> q = p >>= λ a. q

-- The derived `==`, by the place of the variant.
abbrev pub variant : TokenType → ℕ
variant TokenType.plus = 0
variant TokenType.minus = 1
variant TokenType.dot = 2
variant TokenType.equals = 3
variant TokenType.equals_equals = 4
variant TokenType.asterix = 5
variant TokenType.slash = 6
variant TokenType.colon = 7
variant TokenType.semicolon = 8
variant TokenType.comma = 9
variant TokenType.bang = 10
variant TokenType.bang_equals = 11
variant TokenType.left_paren = 12
variant TokenType.right_paren = 13
variant TokenType.left_brace = 14
variant TokenType.right_brace = 15
variant TokenType.less_than = 16
variant TokenType.less_equal = 17
variant TokenType.greater_than = 18
variant TokenType.greater_equal = 19
variant TokenType.question_mark = 20
variant TokenType.caret = 21
variant TokenType.ampersand = 22
variant TokenType.ampersand_ampersand = 23
variant TokenType.pipe = 24
variant TokenType.pipe_pipe = 25
variant TokenType.identifier = 26
variant TokenType.string = 27
variant TokenType.integer = 28
variant TokenType.decimal = 29
variant TokenType.let_keyword = 30
variant TokenType.if_keyword = 31
variant TokenType.else_keyword = 32
variant TokenType.for_keyword = 33
variant TokenType.loop_keyword = 34
variant TokenType.while_keyword = 35
variant TokenType.true_keyword = 36
variant TokenType.false_keyword = 37
variant TokenType.return_keyword = 38
variant TokenType.fn_keyword = 39
variant TokenType.class_keyword = 40
variant TokenType.ginkgo_self = 41

abbrev pub same_type : TokenType → TokenType → Bool
same_type a b = variant a == variant b

abbrev pub new_function : Function
new_function = record { chunk = Chunk.new; scope_depth = 0; locals = [] }

-- What is done to the chunk of the current function.
abbrev pub with_chunk : {A : Type 0} → (Chunk → A × Chunk) → Parse A
with_chunk f s = parsed (f s.current_function.chunk).0 (record s {
  current_function = record s.current_function { chunk = (f s.current_function.chunk).1 };
})

abbrev pub put_chunk : Outcome Chunk → Parse (Unit {0})
put_chunk panic s = crashed
put_chunk (done chunk) s =
    parsed tt (record s { current_function = record s.current_function { chunk = chunk } })

unfoldable pub emit : Opcode → Parse (Unit {0})
unfolding Chunk.emit
emit op = with_chunk (λ c. (tt, Chunk.emit op c))

unfoldable pub emit2 : Opcode → ℕ → Parse (Unit {0})
unfolding Chunk.emit2
emit2 op operand = with_chunk (λ c. (tt, Chunk.emit2 op operand c))

unfoldable pub emit_jump : Opcode → Parse ℕ
unfolding Chunk.emit_jump
emit_jump op = with_chunk (Chunk.emit_jump op)

unfoldable pub emit_jump_to : Opcode → ℕ → Parse (Unit {0})
unfolding Chunk.emit_jump_to
emit_jump_to op target s = put_chunk (Chunk.emit_jump_to op target s.current_function.chunk) s

unfoldable pub patch_jump : ℕ → Parse (Unit {0})
unfolding Chunk.patch_jump
patch_jump operand s = put_chunk (Chunk.patch_jump operand s.current_function.chunk) s

-- The index of a new constant, `as u8`.
unfoldable pub constant : Value → Parse ℕ
unfolding Chunk.create_constant
constant value = with_chunk (Chunk.create_constant value) >>= λ index. pure (index % 256)

-- `Value::Obj(..new(..).erase())`
unfoldable pub new_object : Object → Parse Value
new_object object s = parsed (obj s.next_object) (record s {
  heap = λ o. if o == s.next_object then object else s.heap o;
  next_object = s.next_object + 1;
})

module _ (is_xid_start is_xid_continue : ℕ → Bool) where
  -- `stream.next()`, its error returned by `?`.
  unfoldable pub next_token : Parse (Option Token)
  unfolding next
  next_token s = elim (next is_xid_start is_xid_continue s.stream) [
    | ended l ↦ parsed none (record s { stream = l })
    | lexed token l ↦ parsed (some token) (record s { stream = l })
    | wrong e l ↦ rejected (lex_error e)
    | crash ↦ crashed
  ]

  unfoldable pub peek_token : Parse (Option Token)
  unfolding peek
  peek_token s = elim (peek is_xid_start is_xid_continue s.stream) [
    | shown token l ↦ parsed token (record s { stream = l })
    | refused e l ↦ rejected (lex_error e)
    | panicked ↦ crashed
  ]

  abbrev pub take_if : Bool → Parse Bool
  take_if true = next_token >>= λ token. pure true
  take_if false = pure false

  abbrev pub is_type : TokenType → Option Token → Bool
  is_type typ none = false
  is_type typ (some token) = same_type token.typ typ

  unfoldable pub matches : TokenType → Parse Bool
  matches typ = peek_token >>= λ token. take_if (is_type typ token)

  abbrev pub expect : TokenType → Option Token → Parse Token
  expect typ none = reject (unexpected_end_of_token_stream typ)
  expect typ (some token) =
      if same_type token.typ typ then pure token else reject (expected_token_but_got typ token.typ)

  unfoldable pub consume : TokenType → Parse Token
  consume typ = next_token >>= λ token. expect typ token

-- The source text of a token.
unfoldable pub token_text : Token → Parse (List ℕ)
unfolding slice
token_text token s = elim (slice s.stream.source token.offset token.byte_length) [
  | done text ↦ parsed text s
  | panic ↦ crashed
]

unfoldable pub begin_scope : Parse (Unit {0})
begin_scope s = parsed tt (record s {
  current_function = record s.current_function { scope_depth = s.current_function.scope_depth + 1 };
})

abbrev pub deeper : ℕ → List Local → ℕ
deeper depth [] = 0
deeper depth (local ∷ locals) = (if ltb depth local.depth then 1 else 0) + deeper depth locals

abbrev pub drop_locals : ℕ → List Local → List Local
drop_locals zero locals = locals
drop_locals (suc n) [] = []
drop_locals (suc n) (local ∷ locals) = drop_locals n locals

abbrev pub emit_pops : ℕ → Parse (Unit {0})
emit_pops zero = pure tt
emit_pops (suc n) = emit Opcode.pop >> emit_pops n

-- The depth is above 0 wherever it is called.
unfoldable pub end_scope : Parse (Unit {0})
end_scope s =
    let function = s.current_function in
    let depth = function.scope_depth - 1 in
    let locals_to_pop = deeper depth function.locals in
    if function.scope_depth == 0
    then crashed
    else emit_pops locals_to_pop (record s {
      current_function = record function {
        scope_depth = depth;
        locals = drop_locals locals_to_pop function.locals;
      };
    })

unfoldable pub push_local : Name → Parse (Unit {0})
push_local name s = parsed tt (record s {
  current_function = record s.current_function {
    locals =
        record { name = name; depth = s.current_function.scope_depth } ∷ s.current_function.locals;
  };
})

-- The place of the last local with a name, counted from the first one.
abbrev pub find_local : Name → List Local → Option ℕ
find_local name [] = none
find_local name (local ∷ locals) =
    if name_eq local.name name then some (length locals) else find_local name locals

module _ (is_xid_start is_xid_continue : ℕ → Bool) where
  unfoldable pub identifier : Parse Name
  identifier =
      consume is_xid_start is_xid_continue TokenType.identifier >>= λ token. token_text token
