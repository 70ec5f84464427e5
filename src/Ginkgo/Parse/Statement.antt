-- ===== src/Ginkgo/Parse/Statement.antt =====
-- ginkgo/src/parse.rs: statements and declarations of functions, and `parse`. Each call and each run
-- of a loop takes one unit of fuel.
use poplar.Prelude.{
  ℕ, zero, suc, ◌+◌, Bool, true, false, none, some, List, [], ◌∷◌, ltb, ◌==◌, if◌then◌else◌,
}
use poplar.Ginkgo.Value.{Chunk, Name, Heap, ginkgo_string, ginkgo_function}
use poplar.Ginkgo.Opcode.{Opcode}
use poplar.Ginkgo.Chunk
use poplar.Ginkgo.Lex
use poplar.Ginkgo.Lex.{TokenType}
use poplar.Ginkgo.Parse.{
  Function, Parser, Parse, parsed, crashed, pure, starve, ◌>>=◌, ◌>>◌, new_function, with_chunk,
  emit, emit2, emit_jump, emit_jump_to, patch_jump, constant, new_object, peek_token, matches,
  consume, begin_scope, end_scope, push_local, identifier,
}
use poplar.Ginkgo.Parse.Expression.{expression}

-- `Parser::new`. The heap may hold objects already.
unfoldable pub new : List ℕ → Heap → ℕ → Parser
unfolding Lex.new
new source heap next_object = record {
  stream = Lex.new source;
  current_function = new_function;
  func_stack = [];
  heap = heap;
  next_object = next_object;
}

abbrev pub scope_depth : Parse ℕ
scope_depth s = parsed s.current_function.scope_depth s

abbrev pub current_offset : Parse ℕ
current_offset = with_chunk (λ c. (Chunk.current_offset c, c))

-- A global of the name, of the value that the code leaves on the stack.
abbrev pub define_global : Name → Parse (Unit {0})
define_global name = do
  value ← new_object (ginkgo_string name)
  index ← constant value
  emit2 Opcode.constant index
  emit Opcode.define_global

abbrev pub when : Bool → Parse (Unit {0}) → Parse (Unit {0})
when true p = p
when false p = pure tt

-- `self.func_stack.push(mem::replace(&mut self.current_function, Function::new()))`
unfoldable pub enter_function : Parse (Unit {0})
enter_function s =
    parsed tt
      (record s { current_function = new_function; func_stack = s.current_function ∷ s.func_stack })

abbrev pub pop_function : List Function → Parse Chunk
pop_function [] s = crashed
pop_function (function ∷ functions) s =
    parsed s.current_function.chunk
      (record s { current_function = function; func_stack = functions })

unfoldable pub leave_function : Parse Chunk
leave_function s = pop_function s.func_stack s

module _ (is_xid_start is_xid_continue : ℕ → Bool) where
  abbrev expr : ℕ → Parse (Unit {0})
  expr fuel = expression is_xid_start is_xid_continue fuel 0

  abbrev found : TokenType → Parse Bool
  found typ = matches is_xid_start is_xid_continue typ

  abbrev needed : TokenType → Parse (Unit {0})
  needed typ = consume is_xid_start is_xid_continue typ >>= λ token. pure tt

  abbrev name_token : Parse Name
  name_token = identifier is_xid_start is_xid_continue

  -- The first of the arms whose token comes next, or the last one.
  abbrev pub match_first : List (TokenType × Parse (Unit {0})) → Parse (Unit {0}) → Parse (Unit {0})
  match_first [] otherwise = otherwise
  match_first ((typ, arm) ∷ arms) otherwise =
      found typ >>= λ here. (if here then arm else match_first arms otherwise)

  unfoldable pub let_statement : Parse (Unit {0}) → Parse (Unit {0})
  let_statement expression = do
    name ← name_token
    depth ← scope_depth
    when (ltb 0 depth) (push_local name)
    needed TokenType.equals
    expression
    needed TokenType.semicolon
    depth ← scope_depth
    when (depth == 0) (define_global name)

  -- The statements up to a closing brace, in a scope of their own.
  abbrev pub scoped : Parse (Unit {0}) → Parse (Unit {0})
  scoped statements = begin_scope >> statements >> end_scope

  unfoldable pub if_statement : Parse (Unit {0}) → Parse (Unit {0}) → Parse (Unit {0})
  if_statement expression statements = do
    expression
    then_jump ← emit_jump Opcode.jump_if_false
    emit Opcode.pop
    needed TokenType.left_brace
    scoped statements
    else_jump ← emit_jump Opcode.jump
    patch_jump then_jump
    emit Opcode.pop
    otherwise ← found TokenType.else_keyword
    when otherwise (needed TokenType.left_brace >> scoped statements)
    patch_jump else_jump

  unfoldable pub while_statement : Parse (Unit {0}) → Parse (Unit {0}) → Parse (Unit {0})
  while_statement expression statements = do
    loop_jump ← current_offset
    expression
    exit_jump ← emit_jump Opcode.jump_if_false
    emit Opcode.pop
    needed TokenType.left_brace
    scoped statements
    emit_jump_to Opcode.jump loop_jump
    patch_jump exit_jump

  unfoldable pub return_statement : Parse (Unit {0}) → Parse (Unit {0})
  return_statement expression = do
    nothing ← found TokenType.semicolon
    (if nothing then emit Opcode.push_unit else (expression >> needed TokenType.semicolon))
    emit Opcode.return

  unfoldable pub expression_statement : Parse (Unit {0}) → Parse (Unit {0})
  expression_statement expression = do
    expression
    ends ← found TokenType.semicolon
    when ends (emit Opcode.pop)

  unfoldable pub function_decl : Parse ℕ → Parse (Unit {0}) → Parse (Unit {0})
  function_decl parameters statements = do
    name ← name_token
    enter_function
    begin_scope
    push_local name
    needed TokenType.left_paren
    empty ← found TokenType.right_paren
    arity ← (if empty then pure 0 else parameters)
    needed TokenType.left_brace
    statements
    end_scope
    chunk ← leave_function
    value ← new_object (ginkgo_function name arity chunk)
    index ← constant value
    emit2 Opcode.constant index
    depth ← scope_depth
    when (depth == 0) (define_global name)

  -- The parameters, of which there are some already, and the closing parenthesis.
  pub parameters : ℕ → ℕ → Parse ℕ
  parameters zero arity = starve
  parameters (suc fuel) arity = do
    name ← name_token
    push_local name
    more ← found TokenType.comma
    (if more
        then parameters fuel (arity + 1)
        else (needed TokenType.right_paren >> pure (arity + 1)))

  -- The arms of `statement`, by the token that comes first.
  abbrev pub arms :
      Parse (Unit {0}) → Parse (Unit {0}) → Parse ℕ → List (TokenType × Parse (Unit {0}))
  arms expression statements parameters =
      (TokenType.let_keyword, let_statement expression)
      ∷ (TokenType.left_brace, scoped statements)
      ∷ (TokenType.if_keyword, if_statement expression statements)
      ∷ (TokenType.while_keyword, while_statement expression statements)
      ∷ (TokenType.fn_keyword, function_decl parameters statements)
      ∷ (TokenType.return_keyword, return_statement expression)
      ∷ []

  unfoldable mutual
    pub statement : ℕ → Parse (Unit {0})
    statement zero = starve
    statement (suc fuel) =
        match_first (arms (expr fuel) (statements fuel) (parameters fuel 0))
          (expression_statement (expr fuel))

    -- `while !self.matches(RightBrace)? { self.statement()?; }`
    pub statements : ℕ → Parse (Unit {0})
    statements zero = starve
    statements (suc fuel) = found TokenType.right_brace >>= λ closed.
        (if closed then pure tt else (statement fuel >> statements fuel))

  unfoldable pub parse_loop : ℕ → Parse (Unit {0})
  parse_loop zero = starve
  parse_loop (suc fuel) = peek_token is_xid_start is_xid_continue >>= λ next. elim next [
    | none ↦ pure tt
    | some token ↦ statement fuel >> parse_loop fuel
  ]

  unfoldable pub parse : ℕ → Parse Chunk
  unfolding parse_loop
  parse fuel = do parse_loop fuel; emit Opcode.return; with_chunk (λ c. (c, Chunk.new))
