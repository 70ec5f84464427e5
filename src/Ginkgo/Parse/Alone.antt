-- ===== src/Ginkgo/Parse/Alone.antt =====
-- What ginkgo/src/parse.rs makes of the text of an expression alone.
use poplar.Prelude.{
  ℕ, suc, ◌+◌, ◌-◌, ◌*◌, ◌≤◌, ◌≡◌, refl, sym, ap, ◌∙◌, subst, Bool, true, false, not, ◌&&◌, List,
  [], ◌∷◌, ◌++◌, length, arith,
}
use poplar.Ginkgo.Value.{Chunk, Heap}
use poplar.Ginkgo.Opcode.{Opcode, as_u8}
use poplar.Ginkgo.Chunk
use poplar.Ginkgo.Lex
use poplar.Ginkgo.Lex.{TokenType, Lex}
use poplar.Ginkgo.Parse.{Parser, Parse, parsed, matches, same_type, emit}
use poplar.Ginkgo.Parse.Expression.{expression}
use poplar.Ginkgo.Parse.Statement.{
  new, match_first, arms, parameters, statement, statements, expression_statement, parse_loop,
  parse,
}
use poplar.Ginkgo.Parse.Stream.{Lexeme, at, Gives, peek_end, peek_first}
use poplar.Ginkgo.Parse.Reference.{
  symbol, Expr, number, truth, negative, grouped, binary, both, either, written, code, literals,
  lexemes, IsWritten,
}
use poplar.Ginkgo.Parse.Emitted.{append-nil, extended}
use poplar.Ginkgo.Parse.Compiles.{expression-Compiles}

-- The first token of an expression, and the others.
abbrev first : Expr → Lexeme
first (number text value) = (TokenType.integer, text)
first (truth true) = symbol TokenType.true_keyword
first (truth false) = symbol TokenType.false_keyword
first (negative e) = symbol TokenType.minus
first (grouped e) = symbol TokenType.left_paren
first (binary op l r) = first l
first (both l r) = first l
first (either l r) = first l

first_lem : (e : Expr) → (others : List Lexeme) × (lexemes e ≡ first e ∷ others)
unfolding lexemes
first_lem (number text value) = ([], refl)
first_lem (truth true) = ([], refl)
first_lem (truth false) = ([], refl)
first_lem (negative e) = (lexemes e, refl)
first_lem (grouped e) = (lexemes e ++ (symbol TokenType.right_paren ∷ []), refl)
first_lem (binary op l r) =
    let (others, h) = first_lem l in
    (
      others ++ (symbol (written op) ∷ lexemes r),
      ap (λ ts. ts ++ (symbol (written op) ∷ lexemes r)) h,
    )
first_lem (both l r) =
    let (others, h) = first_lem l in
    let more = symbol TokenType.ampersand_ampersand ∷ lexemes r in
    (others ++ more, ap (λ ts. ts ++ more) h)
first_lem (either l r) =
    let (others, h) = first_lem l in
    let more = symbol TokenType.pipe_pipe ∷ lexemes r in (others ++ more, ap (λ ts. ts ++ more) h)

-- None of some arms is for the token.
abbrev all_other : TokenType → List TokenType → Bool
all_other typ [] = true
all_other typ (arm ∷ arms) = not (same_type typ arm) && all_other typ arms

abbrev arm_types : List (TokenType × Parse (Unit {0})) → List TokenType
arm_types [] = []
arm_types ((typ, arm) ∷ arms) = typ ∷ arm_types arms

abbrev keywords : List TokenType
keywords =
    TokenType.let_keyword ∷ TokenType.left_brace ∷ TokenType.if_keyword ∷ TokenType.while_keyword
    ∷ TokenType.fn_keyword ∷ TokenType.return_keyword ∷ []

first-all_other : (e : Expr) → all_other (first e).0 keywords ≡ true
first-all_other (number text value) = refl
first-all_other (truth true) = refl
first-all_other (truth false) = refl
first-all_other (negative e) = refl
first-all_other (grouped e) = refl
first-all_other (binary op l r) = first-all_other l
first-all_other (both l r) = first-all_other l
first-all_other (either l r) = first-all_other l

-- The chunk of a program that is one expression.
abbrev pub program : Expr → Chunk
program e = record { code = code e 0 ++ (as_u8 Opcode.return ∷ []); constants = literals e }

module _ (xid_start xid_continue : ℕ → Bool) where
  found_other :
      {typ : TokenType} {text : List ℕ} {ts : List Lexeme} {lex : Lex}
      → Gives xid_start xid_continue ((typ, text) ∷ ts) lex
      → (arm : TokenType) (c : Chunk) (s : Parser) → same_type typ arm ≡ false
      → (lex' : Lex) × Gives xid_start xid_continue ((typ, text) ∷ ts) lex'
        × (matches xid_start xid_continue arm (at lex c s) ≡ parsed false (at lex' c s))
  unfolding matches
  found_other gives arm c s differs =
      let (offset, size, lex', gives', e) = peek_first xid_start xid_continue gives c s in
      (lex', gives', rw (e, differs) refl)

  found_end :
      {lex : Lex}
      → Gives xid_start xid_continue [] lex
      → (arm : TokenType) (c : Chunk) (s : Parser)
      → (lex' : Lex) × Gives xid_start xid_continue [] lex'
        × (matches xid_start xid_continue arm (at lex c s) ≡ parsed false (at lex' c s))
  unfolding matches
  found_end gives arm c s =
      let (lex', gives', e) = peek_end xid_start xid_continue gives c s in
      (lex', gives', rw (e) refl)

  -- No arm is taken.
  no_arm :
      {typ : TokenType} {text : List ℕ} {ts : List Lexeme}
      (arms : List (TokenType × Parse (Unit {0}))) (otherwise : Parse (Unit {0})) {lex : Lex}
      → Gives xid_start xid_continue ((typ, text) ∷ ts) lex
      → (c : Chunk) (s : Parser) → all_other typ (arm_types arms) ≡ true
      → (lex' : Lex) × Gives xid_start xid_continue ((typ, text) ∷ ts) lex'
        × (match_first xid_start xid_continue arms otherwise (at lex c s) ≡ otherwise (at lex' c s))
  no_arm [] otherwise {lex} gives c s h = (lex, gives, refl)
  no_arm {typ} ((arm, body) ∷ arms) otherwise gives c s h =
      let differs : same_type typ arm ≡ false = ground (arith, h) in
      let others : all_other typ (arm_types arms) ≡ true = ground (arith, h) in
      let (lex1, gives1, e1) = found_other gives arm c s differs in
      let (lex2, gives2, e2) = no_arm arms otherwise gives1 c s others in (lex2, gives2, rw (e1) e2)

  statement_lem :
      (e : Expr) {lex : Lex}
      → Gives xid_start xid_continue (lexemes e) lex
      → (fuel : ℕ) (c : Chunk) (s : Parser)
      → (lex' : Lex) × Gives xid_start xid_continue (lexemes e) lex'
        × (statement xid_start xid_continue (suc fuel) (at lex c s)
            ≡ expression_statement xid_start xid_continue
                (expression xid_start xid_continue fuel 0)
                (at lex' c s))
  unfolding statement
  statement_lem e {lex} gives fuel c s =
      let (others, whole) = first_lem e in
      let (lex', gives', h) =
        no_arm
          (arms xid_start xid_continue (expression xid_start xid_continue fuel 0)
            (statements xid_start xid_continue fuel) (parameters xid_start xid_continue fuel 0))
          (expression_statement xid_start xid_continue (expression xid_start xid_continue fuel 0))
          (subst (λ ts. Gives xid_start xid_continue ts lex) whole gives) c s (first-all_other e) in
      (lex', subst (λ ts. Gives xid_start xid_continue ts lex') (sym whole) gives', h)

  -- An expression alone is a statement that leaves its value.
  alone_lem :
      (e : Expr) {lex : Lex}
      → Gives xid_start xid_continue (lexemes e) lex
      → (fuel : ℕ) (c : Chunk) (s : Parser) → IsWritten 1 e
      → 2 * length (lexemes e) ≤ fuel
      → (lex' : Lex) × Gives xid_start xid_continue [] lex'
        × (statement xid_start xid_continue (suc fuel) (at lex c s)
            ≡ parsed tt (at lex' (extended e c) s))
  unfolding expression_statement
  alone_lem e gives fuel c s w enough =
      let (lex1, gives1, e1) = statement_lem e gives fuel c s in
      let (lex2, gives2, e2) =
        expression-Compiles xid_start xid_continue e 0 fuel [] lex1 c s w
          (subst (λ ts. Gives xid_start xid_continue ts lex1) (sym (append-nil (lexemes e))) gives1)
          refl refl enough in
      let (lex3, gives3, e3) = found_end gives2 TokenType.semicolon (extended e c) s in
      (lex3, gives3, e1 ∙ rw (e2, e3) refl)

  loop_lem :
      (e : Expr) {lex : Lex}
      → Gives xid_start xid_continue (lexemes e) lex
      → (fuel : ℕ) (c : Chunk) (s : Parser) → IsWritten 1 e
      → 2 * length (lexemes e) ≤ fuel
      → (lex' : Lex) × (parse_loop xid_start xid_continue (suc (suc fuel)) (at lex c s)
          ≡ parsed tt (at lex' (extended e c) s))
  unfolding parse_loop
  loop_lem e {lex} gives fuel c s w enough =
      let (others, whole) = first_lem e in
      let (offset, size, lex1, gives1, e1) =
        peek_first xid_start xid_continue
          (subst (λ ts. Gives xid_start xid_continue ts lex) whole gives) c s in
      let (lex2, gives2, e2) =
        alone_lem e (subst (λ ts. Gives xid_start xid_continue ts lex1) (sym whole) gives1) fuel c s
          w enough in
      let (lex3, gives3, e3) = peek_end xid_start xid_continue gives2 (extended e c) s in
      (lex3, rw (e1, parse_loop, e2, e3) refl)

  pub parse_lem :
      (e : Expr) (fuel : ℕ) (source : List ℕ) (heap : Heap) (next_object : ℕ)
      → Gives xid_start xid_continue (lexemes e) (Lex.new source)
      → IsWritten 1 e
      → 2 * length (lexemes e) + 2 ≤ fuel
      → (s : Parser) × (parse xid_start xid_continue fuel (new source heap next_object)
          ≡ parsed (program e) s)
  unfolding parse emit Chunk.emit Chunk.push new
  parse_lem e fuel source heap next_object gives w enough =
      let left = fuel - 2 in
      let all : fuel ≡ suc (suc left) = omega (arith, enough) in
      let (lex', e1) =
        loop_lem e gives left Chunk.new (new source heap next_object) w (omega (arith, enough)) in
      (at lex' Chunk.new (new source heap next_object), rw (all, e1) refl)
