-- ===== src/Ginkgo/Parse/Examples.antt =====
-- Programs of ginkgo, from their text to the machine's stack.
use poplar.Prelude.{
  ℕ, ◌≡◌, refl, Bool, true, false, ◌&&◌, ◌||◌, Option, none, some, List, [], ◌∷◌, leb, ◌==◌, arith,
}
use poplar.Ginkgo.Integer.{difference_bytes, add_signed, from_le_bytes}
use poplar.Ginkgo.Value.{Value, bool, Chunk, Heap, ginkgo_string}
use poplar.Ginkgo.Vm.{Vm, Step, running, finished, failed, crash, run, step, execute, start}
use poplar.Ginkgo.Parse.{
  ◌>>◌, Parser, Parsed, parsed, matches, peek_token, next_token, consume, emit, emit_jump,
  emit_jump_to, patch_jump, begin_scope, end_scope,
}
use poplar.Ginkgo.Parse.Statement.{new, parse, parse_loop, statement, statements, while_statement}
use poplar.Ginkgo.Chunk
use poplar.Ginkgo.Vm
use poplar.Ginkgo.Parse.Evals.{Evals}
use poplar.Ginkgo.Parse.Scopes.{push_locals, end_scope-push_locals}
use poplar.Ginkgo.Lex
use poplar.Ginkgo.Lex.{Lex, lex_identifier, next_no_peeking, lex_char, slice}
use poplar.Ginkgo.Parse.Expression.{expression, expression_loop, run_prefix}
use poplar.Ginkgo.Parse.Reference.{Expr, number, binary, plus, times, code, both, truth}

abbrev xid_start : ℕ → Bool
xid_start c = (leb 97 c && leb c 122) || (leb 65 c && leb c 90)

abbrev xid_continue : ℕ → Bool
xid_continue c = xid_start c || (leb 48 c && leb c 57) || (c == 95)

abbrev no_objects : Heap
no_objects o = ginkgo_string []

abbrev parse_text : List ℕ → ℕ → Parsed Chunk
parse_text text fuel = parse xid_start xid_continue fuel (new text no_objects 0)

abbrev stack_of : Option Step → Option (List Value)
stack_of (some (finished vm)) = some vm.stack
stack_of (some (running vm)) = none
stack_of (some (failed e vm)) = none
stack_of (some crash) = none
stack_of none = none

abbrev outcome : Parsed Chunk → ℕ → Option (List Value)
outcome (parsed chunk s) fuel = stack_of (run s.heap fuel (start chunk Vm.new))
outcome r fuel = none

-- `1+2*3`, and its parts.
abbrev sum_text : List ℕ
sum_text = 49 ∷ 43 ∷ 50 ∷ 42 ∷ 51 ∷ []

abbrev product : Expr
product = binary times (number (50 ∷ []) 2) (number (51 ∷ []) 3)

abbrev sum : Expr
sum = binary plus (number (49 ∷ []) 1) product

abbrev lexer : List ℕ → List ℕ → ℕ → ℕ → ℕ → Lex
lexer source more offset start_offset current_length = record {
  source = source;
  stream = more;
  offset = offset;
  start_offset = start_offset;
  current_length = current_length;
  peek = none;
  peek_next = none;
}

-- `true&&2||3`, of which `true&&2` is the left operand of `||`.
abbrev choice_text : List ℕ
choice_text = 116 ∷ 114 ∷ 117 ∷ 101 ∷ 38 ∷ 38 ∷ 50 ∷ 124 ∷ 124 ∷ 51 ∷ []

abbrev choice : Expr
choice = both (truth true) (number (50 ∷ []) 2)

-- The parser in a block that has a local.
abbrev in_block : Parser
in_block = record (new [] no_objects 0) {
  current_function = record {
    chunk = Chunk.new;
    scope_depth = 1;
    locals = record { name = 97 ∷ []; depth = 1 } ∷ [];
  };
}

end_scope-push_locals_example :
    (begin_scope >> push_locals ((98 ∷ []) ∷ (99 ∷ []) ∷ []) >> end_scope) in_block
    ≡ parsed tt (record in_block {
      current_function = record in_block.current_function {
        chunk = record Chunk.new { code = 18 ∷ 18 ∷ [] };
      };
    })
end_scope-push_locals_example =
    end_scope-push_locals ((98 ∷ []) ∷ (99 ∷ []) ∷ []) in_block (omega arith, tt)

-- `while false {}`
while_leaves_condition :
    outcome
      (parse_text
        (119 ∷ 104 ∷ 105 ∷ 108 ∷ 101 ∷ 32 ∷ 102 ∷ 97 ∷ 108 ∷ 115 ∷ 101 ∷ 32 ∷ 123 ∷ 125 ∷ [])
        20)
      20
    ≡ some (bool false ∷ [])
unfolding parse parse_loop statement statements while_statement expression expression_loop matches
    peek_token next_token consume emit emit_jump emit_jump_to patch_jump begin_scope end_scope
    run_prefix run step execute new next_no_peeking lex_char lex_identifier slice difference_bytes
    Chunk.current_offset add_signed from_le_bytes start
while_leaves_condition = refl
