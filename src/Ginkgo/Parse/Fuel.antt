-- ===== src/Ginkgo/Parse/Fuel.antt =====
-- The fuel that `expression` of ginkgo/src/parse.rs takes for the expressions of
-- Ginkgo/Parse/Reference.
use poplar.Prelude.{ℕ, ◌+◌, ◌*◌, ◌≤◌, true, false, [], ◌∷◌, length, length-append, arith}
use poplar.Ginkgo.Lex.{TokenType}
use poplar.Ginkgo.Parse.Reference.{
  symbol, Expr, number, truth, negative, grouped, binary, both, either, written, lexemes,
}

-- The runs of the loop that read an expression from its first operand on, and the fuel that its
-- operands need.
abbrev pub runs : Expr → ℕ
runs (binary op l r) = runs l + 1
runs (both l r) = runs l + 1
runs (either l r) = runs l + 1
runs e = 1

abbrev pub need : Expr → ℕ
need (number text value) = 0
need (truth b) = 0
need (negative e) = runs e + need e + 1
need (grouped e) = runs e + need e + 1
need (binary op l r) = need l + (runs r + need r + 1)
need (both l r) = need l + (runs r + need r + 1)
need (either l r) = need l + (runs r + need r + 1)

-- Two units of fuel for each token are enough.
pub enough_lem : (e : Expr) → runs e + need e + 1 ≤ 2 * length (lexemes e)
unfolding lexemes
enough_lem (number text value) = omega arith
enough_lem (truth true) = omega arith
enough_lem (truth false) = omega arith
enough_lem (negative e) = let ih = enough_lem e in omega (arith, ih)
enough_lem (grouped e) =
    let ih = enough_lem e in
    omega (arith, ih, length-append (lexemes e) (symbol TokenType.right_paren ∷ []))
enough_lem (binary op l r) =
    let il = enough_lem l in
    let ir = enough_lem r in
    omega (arith, il, ir, length-append (lexemes l) (symbol (written op) ∷ lexemes r))
enough_lem (both l r) =
    let il = enough_lem l in
    let ir = enough_lem r in
    omega
      (arith, il, ir, length-append (lexemes l) (symbol TokenType.ampersand_ampersand ∷ lexemes r))
enough_lem (either l r) =
    let il = enough_lem l in
    let ir = enough_lem r in
    omega (arith, il, ir, length-append (lexemes l) (symbol TokenType.pipe_pipe ∷ lexemes r))
