-- ===== src/Ginkgo/Parse/Reference.antt =====
-- The expressions of ginkgo without names, strings, assignments and calls: how they are written, the
-- bytecode that they stand for, and their values. It is the reference for ginkgo/src/parse.rs.
use poplar.Prelude.{
  ℕ, ◌+◌, ◌/◌, ◌%◌, ◌^◌, ◌≤◌, ◌<◌, ◌≡◌, Bool, true, false, List, [], ◌∷◌, ◌++◌, length, done,
}
use poplar.Ginkgo.Integer.{of_word}
use poplar.Ginkgo.Value.{Value, integer}
use poplar.Ginkgo.Opcode.{Opcode, as_u8}
use poplar.Ginkgo.Lex.{TokenType, token_to_integer_literal}
use poplar.Ginkgo.Parse.Stream.{Lexeme}

pub data Operator : Type 0 where
  plus minus times over bit_and bit_or bit_xor : Operator
  equal not_equal greater greater_equal less less_equal : Operator

pub data Expr : Type 0 where
  number : List ℕ → ℕ → Expr
  truth : Bool → Expr
  negative grouped : Expr → Expr
  binary : Operator → Expr → Expr → Expr
  both either : Expr → Expr → Expr

abbrev pub written : Operator → TokenType
written plus = TokenType.plus
written minus = TokenType.minus
written times = TokenType.asterix
written over = TokenType.slash
written bit_and = TokenType.ampersand
written bit_or = TokenType.pipe
written bit_xor = TokenType.caret
written equal = TokenType.equals_equals
written not_equal = TokenType.bang_equals
written greater = TokenType.greater_than
written greater_equal = TokenType.greater_equal
written less = TokenType.less_than
written less_equal = TokenType.less_equal

-- How a token that is not a literal is spelled.
abbrev pub spelling : TokenType → List ℕ
spelling TokenType.plus = 43 ∷ []
spelling TokenType.minus = 45 ∷ []
spelling TokenType.asterix = 42 ∷ []
spelling TokenType.slash = 47 ∷ []
spelling TokenType.ampersand = 38 ∷ []
spelling TokenType.pipe = 124 ∷ []
spelling TokenType.caret = 94 ∷ []
spelling TokenType.equals_equals = 61 ∷ 61 ∷ []
spelling TokenType.bang_equals = 33 ∷ 61 ∷ []
spelling TokenType.greater_than = 62 ∷ []
spelling TokenType.greater_equal = 62 ∷ 61 ∷ []
spelling TokenType.less_than = 60 ∷ []
spelling TokenType.less_equal = 60 ∷ 61 ∷ []
spelling TokenType.ampersand_ampersand = 38 ∷ 38 ∷ []
spelling TokenType.pipe_pipe = 124 ∷ 124 ∷ []
spelling TokenType.left_paren = 40 ∷ []
spelling TokenType.right_paren = 41 ∷ []
spelling TokenType.true_keyword = 116 ∷ 114 ∷ 117 ∷ 101 ∷ []
spelling TokenType.false_keyword = 102 ∷ 97 ∷ 108 ∷ 115 ∷ 101 ∷ []
spelling typ = []

abbrev pub symbol : TokenType → Lexeme
symbol typ = (typ, spelling typ)

abbrev pub opcode : Operator → Opcode
opcode plus = Opcode.add
opcode minus = Opcode.subtract
opcode times = Opcode.multiply
opcode over = Opcode.divide
opcode bit_and = Opcode.bitwise_and
opcode bit_or = Opcode.bitwise_or
opcode bit_xor = Opcode.bitwise_xor
opcode equal = Opcode.equal
opcode not_equal = Opcode.not_equal
opcode greater = Opcode.greater_than
opcode greater_equal = Opcode.greater_equal
opcode less = Opcode.less_than
opcode less_equal = Opcode.less_equal

-- How tight an operator binds, from 4 to 9; `&&` is 3 and `||` is 2.
abbrev pub level : Operator → ℕ
level plus = 8
level minus = 8
level times = 9
level over = 9
level bit_and = 7
level bit_or = 5
level bit_xor = 6
level other = 4

-- The tokens of an expression, in order.
unfoldable pub lexemes : Expr → List Lexeme
lexemes (number text value) = (TokenType.integer, text) ∷ []
lexemes (truth true) = symbol TokenType.true_keyword ∷ []
lexemes (truth false) = symbol TokenType.false_keyword ∷ []
lexemes (negative e) = symbol TokenType.minus ∷ lexemes e
lexemes (grouped e) =
    symbol TokenType.left_paren ∷ (lexemes e ++ (symbol TokenType.right_paren ∷ []))
lexemes (binary op l r) = lexemes l ++ (symbol (written op) ∷ lexemes r)
lexemes (both l r) = lexemes l ++ (symbol TokenType.ampersand_ampersand ∷ lexemes r)
lexemes (either l r) = lexemes l ++ (symbol TokenType.pipe_pipe ∷ lexemes r)

-- The constants of an expression.
unfoldable pub literals : Expr → List Value
literals (number text value) = integer (of_word value) ∷ []
literals (truth b) = []
literals (negative e) = literals e
literals (grouped e) = literals e
literals (binary op l r) = literals l ++ literals r
literals (both l r) = literals l ++ literals r
literals (either l r) = literals l ++ literals r

-- A jump over some code that first pops the condition.
abbrev pub jump_over : Opcode → List ℕ → List ℕ
jump_over op more =
    as_u8 op ∷ (length more + 1) % 256 ∷ (length more + 1) / 256 ∷ as_u8 Opcode.pop ∷ more

-- The bytecode of an expression whose constants begin at an index.
unfoldable pub code : Expr → ℕ → List ℕ
unfolding literals
code (number text value) base = as_u8 Opcode.constant ∷ base % 256 ∷ []
code (truth true) base = as_u8 Opcode.push_true ∷ []
code (truth false) base = as_u8 Opcode.push_false ∷ []
code (negative e) base = code e base ++ (as_u8 Opcode.negate ∷ [])
code (grouped e) base = code e base
code (binary op l r) base =
    code l base ++ (code r (base + length (literals l)) ++ (as_u8 (opcode op) ∷ []))
code (both l r) base =
    code l base ++ jump_over Opcode.jump_if_false (code r (base + length (literals l)))
code (either l r) base =
    code l base ++ jump_over Opcode.jump_if_true (code r (base + length (literals l)))

-- An expression whose operators, outside parentheses, bind at least as tight as a level: the right
-- operand of an operator has tighter ones only. Numbers have values, and no jump is too far.
unfoldable pub IsWritten : ℕ → Expr → Type 0
unfolding code
IsWritten m (number text value) = token_to_integer_literal text ≡ done value
IsWritten m (truth b) = Unit {0}
IsWritten m (negative e) = IsWritten 12 e
IsWritten m (grouped e) = IsWritten 1 e
IsWritten m (binary op l r) = (m ≤ level op) × IsWritten (level op) l × IsWritten (level op + 1) r
IsWritten m (both l r) = (m ≤ 3) × IsWritten 3 l × IsWritten 4 r × (length (code r 0) + 1 < 2 ^ 15)
IsWritten m (either l r) =
    (m ≤ 2) × IsWritten 2 l × IsWritten 3 r × (length (code r 0) + 1 < 2 ^ 15)
