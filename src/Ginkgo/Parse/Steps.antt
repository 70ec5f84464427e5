-- ===== src/Ginkgo/Parse/Steps.antt =====
-- One step of `expression` of ginkgo/src/parse.rs and of its loop, on given tokens.
use poplar.Prelude.{
  ℕ, suc, ◌≤◌, ◌<◌, ◌≡◌, refl, sym, ◌∙◌, Bool, true, false, some, List, [], ◌∷◌, ltb, done, arith,
  Option-cases, inl, inr,
}
use poplar.Ginkgo.Value.{Chunk}
use poplar.Ginkgo.Lex.{TokenType, Token, Lex, slice}
use poplar.Ginkgo.Parse.{Parser, parsed, bind, consume, same_type}
use poplar.Ginkgo.Parse.Expression.{
  InfixParselet, binary_op, prefix_for, registered, binds, run_prefix, run_infix, expression,
  expression_loop, arguments,
}
use poplar.Ginkgo.Parse.Stream.{Lexeme, token, first_binds, at, Gives, next_lem, peek_lem}
use poplar.Ginkgo.Parse.Reference.{
  Operator, plus, minus, times, over, bit_and, bit_or, bit_xor, equal, not_equal, greater,
  greater_equal, less, less_equal, written, opcode, level,
}

pub registered_lem :
    (op : Operator) → registered (written op) ≡ some (level op, binary_op (opcode op))
registered_lem plus = refl
registered_lem minus = refl
registered_lem times = refl
registered_lem over = refl
registered_lem bit_and = refl
registered_lem bit_or = refl
registered_lem bit_xor = refl
registered_lem equal = refl
registered_lem not_equal = refl
registered_lem greater = refl
registered_lem greater_equal = refl
registered_lem less = refl
registered_lem less_equal = refl

pub level_small : (op : Operator) → level op < 11
level_small plus = omega arith
level_small minus = omega arith
level_small times = omega arith
level_small over = omega arith
level_small bit_and = omega arith
level_small bit_or = omega arith
level_small bit_xor = omega arith
level_small op = omega arith

pub binds_lem :
    (p q : ℕ) (op : InfixParselet) (typ : TokenType)
    → registered typ ≡ some (q, op)
    → binds p (some (token typ 0 0)) ≡ ltb p q
binds_lem p q op typ e = rw (e) refl

-- What binds above a precedence binds above a lower one.
pub first_binds_mono :
    (p q : ℕ) (ts : List Lexeme) → p ≤ q → first_binds p ts ≡ false → first_binds q ts ≡ false
first_binds_mono p q [] h e = refl
first_binds_mono p q ((typ, text) ∷ ts) h e = elim (Option-cases (registered typ)) [
  | inl none_here ↦ rw (none_here) refl
  | inr ((n, op), here) ↦
      let low : ltb p n ≡ false = sym (binds_lem p n op typ here) ∙ e in
      binds_lem q n op typ here ∙ ground (arith, h, low)
]

module _ (xid_start xid_continue : ℕ → Bool) where
  pub prefix_step :
      {typ : TokenType} {text : List ℕ} {ts : List Lexeme} {lex : Lex}
      → Gives xid_start xid_continue ((typ, text) ∷ ts) lex
      → (fuel p : ℕ) (c : Chunk) (s : Parser)
      → (offset : ℕ) × (size : ℕ) × (lex' : Lex) × Gives xid_start xid_continue ts lex'
        × (slice lex'.source offset size ≡ done text)
        × (expression xid_start xid_continue (suc fuel) p (at lex c s)
            ≡ bind
                (run_prefix xid_start xid_continue
                  (expression xid_start xid_continue fuel)
                  (prefix_for typ)
                  (token typ offset size)
                  (at lex' c s))
                (λ u. expression_loop xid_start xid_continue fuel p))
  unfolding expression
  prefix_step gives fuel p c s =
      let (offset, size, lex', gives', text, e) = next_lem xid_start xid_continue gives c s in
      (offset, size, lex', gives', text, rw (e, expression) refl)

  pub loop_stop :
      (ts : List Lexeme) {lex : Lex}
      → Gives xid_start xid_continue ts lex
      → (fuel p : ℕ) (c : Chunk) (s : Parser) → first_binds p ts ≡ false
      → (lex' : Lex) × Gives xid_start xid_continue ts lex'
        × (expression_loop xid_start xid_continue (suc fuel) p (at lex c s)
            ≡ parsed tt (at lex' c s))
  unfolding expression_loop
  loop_stop ts gives fuel p c s stops =
      let (next, lex', gives', same, e) = peek_lem xid_start xid_continue ts gives c s in
      let not_here : binds p next ≡ false = same p ∙ stops in
      (lex', gives', rw (e, expression_loop, not_here) refl)

  pub loop_step :
      {typ : TokenType} {text : List ℕ} (ts : List Lexeme) {lex : Lex}
      → Gives xid_start xid_continue ((typ, text) ∷ ts) lex
      → (fuel p : ℕ) (c : Chunk) (s : Parser) → (q : ℕ) (op : InfixParselet)
      → registered typ ≡ some (q, op)
      → p < q
      → (offset : ℕ) × (size : ℕ) × (lex' : Lex) × Gives xid_start xid_continue ts lex'
        × (expression_loop xid_start xid_continue (suc fuel) p (at lex c s)
            ≡ bind
                (run_infix xid_start xid_continue
                  (expression xid_start xid_continue fuel)
                  (arguments xid_start xid_continue fuel 0)
                  (some (q, op))
                  (token typ offset size)
                  (at lex' c s))
                (λ u. expression_loop xid_start xid_continue fuel p))
  unfolding expression_loop
  loop_step {typ} {text} ts gives fuel p c s q op reg above =
      let (next, lex1, gives1, same, e) =
        peek_lem xid_start xid_continue ((typ, text) ∷ ts) gives c s in
      let (offset, size, lex2, gives2, found, e') = next_lem xid_start xid_continue gives1 c s in
      let is_here : binds p next ≡ true =
        same p ∙ binds_lem p q op typ reg ∙ ground (arith, above) in
      (offset, size, lex2, gives2, rw (e, expression_loop, is_here, e', reg) refl)

  pub consume_lem :
      {typ : TokenType} {text : List ℕ} {ts : List Lexeme} {lex : Lex}
      → Gives xid_start xid_continue ((typ, text) ∷ ts) lex
      → (c : Chunk) (s : Parser) → same_type typ typ ≡ true
      → (found : Token) × (lex' : Lex) × Gives xid_start xid_continue ts lex'
        × (consume xid_start xid_continue typ (at lex c s) ≡ parsed found (at lex' c s))
  unfolding consume
  consume_lem {typ} gives c s same =
      let (offset, size, lex', gives', text, e) = next_lem xid_start xid_continue gives c s in
      (token typ offset size, lex', gives', rw (e, same) refl)
