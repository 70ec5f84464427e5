-- ===== src/Ginkgo/Parse/Compiles.antt =====
-- `expression` of ginkgo/src/parse.rs emits the bytecode of the expressions of Ginkgo/Parse/Reference.
use poplar.Prelude.{
  ℕ, suc, ◌+◌, ◌-◌, ◌*◌, ◌%◌, ◌^◌, ◌≤◌, ◌<◌, ◌≡◌, refl, ap, ◌∙◌, subst, Bool, true, false, some,
  List, [], ◌∷◌, ◌++◌, length, done, arith,
}
use poplar.Ginkgo.Value.{Chunk}
use poplar.Ginkgo.Opcode.{Opcode, as_u8}
use poplar.Ginkgo.Chunk
use poplar.Ginkgo.Lex.{TokenType, Lex, slice, token_to_integer_literal}
use poplar.Ginkgo.Parse.{
  Parser, Parse, parsed, bind, ◌>>=◌, ◌>>◌, emit, emit2, emit_jump, patch_jump, constant,
  token_text,
}
use poplar.Ginkgo.Parse.Expression.{
  InfixParselet, integer_prefix, binary_op, logical_and, logical_or, registered, run_prefix,
  run_infix, expression, expression_loop, arguments,
}
use poplar.Ginkgo.Parse.Stream.{Lexeme, token, first_binds, at, Gives}
use poplar.Ginkgo.Parse.Reference.{
  symbol, Operator, Expr, number, truth, negative, grouped, binary, both, either, written, opcode,
  level, lexemes, literals, code, jump_over, IsWritten,
}
use poplar.Ginkgo.Parse.Emitted.{append_assoc, extended, length-code, patch_lem}
use poplar.Ginkgo.Parse.Fuel.{runs, need, enough_lem}
use poplar.Ginkgo.Parse.Chunks.{emit_lem, truth_lem, negative_lem, binary_lem, jumped_lem}
use poplar.Ginkgo.Parse.Steps.{
  registered_lem, level_small, binds_lem, first_binds_mono, prefix_step, loop_stop, loop_step,
  consume_lem,
}

module _ (xid_start xid_continue : ℕ → Bool) where
  abbrev GivesAll : List Lexeme → Lex → Type 0
  GivesAll ts lex = Gives xid_start xid_continue ts lex

  abbrev expr : ℕ → ℕ → Parse (Unit {0})
  expr fuel p = expression xid_start xid_continue fuel p

  abbrev expr_loop : ℕ → ℕ → Parse (Unit {0})
  expr_loop fuel p = expression_loop xid_start xid_continue fuel p

  -- What comes after an expression of a level does not belong to it.
  abbrev pub Stops : ℕ → List Lexeme → Type 0
  Stops m rest = (first_binds m rest ≡ false) × (first_binds 11 rest ≡ false)

  -- The expression is read up to its last operator, and the loop goes on behind it.
  abbrev pub Reads : ℕ → Expr → Type 0
  Reads m e =
      (rest : List Lexeme) (lex : Lex) (fuel p : ℕ) (c : Chunk) (s : Parser)
      → GivesAll (lexemes e ++ rest) lex
      → Stops m rest
      → p < m
      → need e ≤ fuel
      → (lex' : Lex) × GivesAll rest lex'
        × (expr (runs e + fuel) p (at lex c s) ≡ expr_loop fuel p (at lex' (extended e c) s))

  -- The expression is read to its end.
  Reads-whole :
      (m p : ℕ) (e : Expr) (rest : List Lexeme) (lex : Lex) (fuel : ℕ) (c : Chunk) (s : Parser)
      → Reads m e
      → GivesAll (lexemes e ++ rest) lex
      → Stops m rest
      → first_binds p rest ≡ false
      → p < m
      → runs e + need e < fuel
      → (lex' : Lex) × GivesAll rest lex'
        × (expr fuel p (at lex c s) ≡ parsed tt (at lex' (extended e c) s))
  Reads-whole m p e rest lex fuel c s reads gives ends stops low enough =
      let left = fuel - runs e - 1 in
      let (lex1, gives1, e1) =
        reads rest lex (suc left) p c s gives ends low (omega (arith, enough)) in
      let (lex2, gives2, e2) =
        loop_stop xid_start xid_continue rest gives1 left p (extended e c) s stops in
      let all : fuel ≡ runs e + suc left = omega (arith, enough) in
      (lex2, gives2, ap (λ n. expr n p (at lex c s)) all ∙ e1 ∙ e2)

  number_read :
      (text : List ℕ) (value offset size : ℕ) (lex : Lex) (c : Chunk) (s : Parser)
      (expression : ℕ → Parse (Unit {0}))
      → token_to_integer_literal text ≡ done value
      → slice lex.source offset size ≡ done text
      → run_prefix xid_start xid_continue expression
          (some integer_prefix)
          (token TokenType.integer offset size)
          (at lex c s)
        ≡ parsed tt (at lex (extended (number text value) c) s)
  unfolding run_prefix token_text constant emit2 Chunk.emit2 Chunk.create_constant Chunk.push code
      literals
  number_read text value offset size lex c s expression valued found =
      rw (found, token_text, valued, append_assoc c.code (1 ∷ []) (length c.constants % 256 ∷ []))
        refl

  number-Reads :
      (m : ℕ) (text : List ℕ) (value : ℕ)
      → token_to_integer_literal text ≡ done value
      → Reads m (number text value)
  unfolding lexemes
  number-Reads m text value valued rest lex fuel p c s gives ends low enough =
      let (offset, size, lex', gives', found, e) =
        prefix_step xid_start xid_continue gives fuel p c s in
      let read = number_read text value offset size lex' c s (expr fuel) valued found in
      let one : 1 + fuel ≡ suc fuel = omega arith in
      (lex', gives', ap (λ n. expr n p (at lex c s)) one ∙ e ∙ rw (read) refl)

  truth-Reads : (m : ℕ) (b : Bool) → Reads m (truth b)
  unfolding lexemes run_prefix
  truth-Reads m true rest lex fuel p c s gives ends low enough =
      let (offset, size, lex', gives', found, e) =
        prefix_step xid_start xid_continue gives fuel p c s in
      let one : 1 + fuel ≡ suc fuel = omega arith in
      (
        lex',
        gives',
        ap (λ n. expr n p (at lex c s)) one
            ∙ e
            ∙ rw (emit_lem Opcode.push_true lex' c s, truth_lem true c) refl,
      )
  truth-Reads m false rest lex fuel p c s gives ends low enough =
      let (offset, size, lex', gives', found, e) =
        prefix_step xid_start xid_continue gives fuel p c s in
      let one : 1 + fuel ≡ suc fuel = omega arith in
      (
        lex',
        gives',
        ap (λ n. expr n p (at lex c s)) one
            ∙ e
            ∙ rw (emit_lem Opcode.push_false lex' c s, truth_lem false c) refl,
      )

  negative-Reads : (m : ℕ) (e : Expr) → Reads 12 e → Reads m (negative e)
  unfolding lexemes run_prefix
  negative-Reads m e reads rest lex fuel p c s gives (ends, ends11) low enough =
      let (offset, size, lex1, gives1, found, e1) =
        prefix_step xid_start xid_continue gives fuel p c s in
      let (lex2, gives2, e2) =
        Reads-whole 12 11 e rest lex1 fuel c s reads gives1
          (first_binds_mono 11 12 rest (omega arith) ends11, ends11) ends11 (omega arith)
          (omega (arith, enough)) in
      let one : 1 + fuel ≡ suc fuel = omega arith in
      (
        lex2,
        gives2,
        ap (λ n. expr n p (at lex c s)) one
            ∙ e1
            ∙ rw (e2, emit_lem Opcode.negate lex2 (extended e c) s, negative_lem e c) refl,
      )

  grouped-Reads : (m : ℕ) (e : Expr) → Reads 1 e → Reads m (grouped e)
  unfolding lexemes run_prefix code literals
  grouped-Reads m e reads rest lex fuel p c s gives ends low enough =
      let (offset, size, lex1, gives1, found, e1) =
        prefix_step xid_start xid_continue gives fuel p c s in
      let closing : Lexeme = symbol TokenType.right_paren in
      let gives1' =
        subst (λ ts. GivesAll ts lex1) (append_assoc (lexemes e) (closing ∷ []) rest) gives1 in
      let (lex2, gives2, e2) =
        Reads-whole 1 0 e (closing ∷ rest) lex1 fuel c s reads gives1' (refl, refl) refl
          (omega arith) (omega (arith, enough)) in
      let (paren, lex3, gives3, e3) =
        consume_lem xid_start xid_continue gives2 (extended e c) s refl in
      let one : 1 + fuel ≡ suc fuel = omega arith in
      (lex3, gives3, ap (λ n. expr n p (at lex c s)) one ∙ e1 ∙ rw (e2, e3) refl)

  -- What an infix parselet does with the right operand, behind the left one.
  abbrev Right : ℕ → InfixParselet → TokenType → Expr → Expr → Expr → Type 0
  Right q op typ l r whole =
      (rest : List Lexeme) (lex : Lex) (fuel offset size : ℕ) (c : Chunk) (s : Parser)
      → GivesAll (lexemes r ++ rest) lex
      → Stops (q + 1) rest
      → first_binds q rest ≡ false
      → runs r + need r < fuel
      → (lex' : Lex) × GivesAll rest lex'
        × (run_infix xid_start xid_continue (expr fuel) (arguments xid_start xid_continue fuel 0)
              (some (q, op)) (token typ offset size) (at lex (extended l c) s)
            ≡ parsed tt (at lex' (extended whole c) s))

  -- One run of the loop, on an operator and its right operand.
  operator_run :
      (m q : ℕ) (l r whole : Expr) (typ : TokenType) (op : InfixParselet)
      → registered typ ≡ some (q, op)
      → m ≤ q
      → Right q op typ l r whole
      → (rest : List Lexeme) (lex : Lex) (fuel p : ℕ) (c : Chunk) (s : Parser)
      → GivesAll (symbol typ ∷ (lexemes r ++ rest)) lex
      → Stops m rest
      → p < m
      → runs r + need r < fuel
      → (lex' : Lex) × GivesAll rest lex'
        × (expr_loop (suc fuel) p (at lex (extended l c) s)
            ≡ expr_loop fuel p (at lex' (extended whole c) s))
  operator_run m q l r whole typ op reg m_low right rest lex fuel p c s gives (ends, ends11) low
        enough =
      let (offset, size, lex2, gives2, e2) =
        loop_step xid_start xid_continue (lexemes r ++ rest) gives fuel p (extended l c) s q op reg
          (omega (arith, low, m_low)) in
      let (lex3, gives3, e3) =
        right rest lex2 fuel offset size c s gives2
          (first_binds_mono m (q + 1) rest (omega (arith, m_low)) ends, ends11)
          (first_binds_mono m q rest m_low ends) enough in
      (lex3, gives3, e2 ∙ ap (λ r. bind r (λ u. expr_loop fuel p)) e3)

  operator-Reads :
      (m q : ℕ) (l r whole : Expr) (typ : TokenType) (op : InfixParselet)
      → registered typ ≡ some (q, op)
      → q < 11
      → m ≤ q
      → lexemes whole ≡ lexemes l ++ (symbol typ ∷ lexemes r)
      → runs whole ≡ runs l + 1
      → need whole ≡ need l + (runs r + need r + 1)
      → Reads q l
      → Right q op typ l r whole
      → Reads m whole
  operator-Reads m q l r whole typ op reg tight m_low tokens count cost left right rest lex fuel p c
        s gives ends low enough =
      let after = symbol typ ∷ (lexemes r ++ rest) in
      let gives' =
        subst (λ ts. GivesAll ts lex)
          (ap (λ ts. ts ++ rest) tokens ∙ append_assoc (lexemes l) (symbol typ ∷ lexemes r) rest)
          gives in
      let not11 : first_binds 11 after ≡ false =
        binds_lem 11 q op typ reg ∙ ground (arith, tight) in
      let not_q : first_binds q after ≡ false = binds_lem q q op typ reg ∙ ground arith in
      let (lex1, gives1, e1) =
        left after lex (suc fuel) p c s gives' (not_q, not11) (omega (arith, low, m_low))
          (omega (arith, enough, cost)) in
      let (lex2, gives2, e2) =
        operator_run m q l r whole typ op reg m_low right rest lex1 fuel p c s gives1 ends low
          (omega (arith, enough, cost)) in
      let all : runs whole + fuel ≡ runs l + suc fuel = omega (arith, count) in
      (lex2, gives2, ap (λ n. expr n p (at lex c s)) all ∙ e1 ∙ e2)

  binary-Reads :
      (m : ℕ) (op : Operator) (l r : Expr)
      → m ≤ level op
      → Reads (level op) l
      → Reads (level op + 1) r
      → Reads m (binary op l r)
  unfolding run_infix lexemes
  binary-Reads m op l r low left right =
      operator-Reads m (level op) l r (binary op l r) (written op) (binary_op (opcode op))
        (registered_lem op) (level_small op) low refl refl refl left
        (λ rest lex fuel offset size c s gives ends stops enough.
          let (lex', gives', e) =
            Reads-whole (level op + 1) (level op) r rest lex fuel (extended l c) s right gives ends
              stops (omega arith) enough in
          (
            lex',
            gives',
            rw (e, emit_lem (opcode op) lex' (extended r (extended l c)) s, binary_lem op l r c)
                refl,
          ))

  -- The right operand of `&&` and of `||`.
  jump_right :
      (op : Opcode) (l r whole : Expr) (q : ℕ) (rest : List Lexeme) (lex : Lex) (fuel : ℕ)
      (c : Chunk) (s : Parser)
      → ((c : Chunk)
          → record {
            code = (extended l c).code ++ jump_over op (code r (length (extended l c).constants));
            constants = (extended l c).constants ++ literals r;
          }
            ≡ extended whole c)
      → length (code r 0) + 1 < 2 ^ 15
      → Reads (q + 1) r
      → GivesAll (lexemes r ++ rest) lex
      → Stops (q + 1) rest
      → first_binds q rest ≡ false
      → runs r + need r < fuel
      → (lex' : Lex) × GivesAll rest lex'
        × (((emit_jump op >>= λ jump. emit Opcode.pop >> (expr fuel q >> patch_jump jump))
              (at lex (extended l c) s))
            ≡ parsed tt (at lex' (extended whole c) s))
  unfolding emit_jump emit patch_jump Chunk.emit_jump Chunk.emit Chunk.push
  jump_right op l r whole q rest lex fuel c s wholly near reads gives ends stops enough =
      let c1 = extended l c in
      let code2 =
        (((c1.code ++ (as_u8 op ∷ [])) ++ (0 ∷ [])) ++ (0 ∷ [])) ++ (as_u8 Opcode.pop ∷ []) in
      let (lex', gives', e) =
        Reads-whole (q + 1) q r rest lex fuel (record c1 { code = code2 }) s reads gives ends stops
          (omega arith) enough in
      let base = length c1.constants in
      let short : length (code r base) + 1 < 2 ^ 15 = omega (arith, near, length-code r base 0) in
      let patched = patch_lem c1.code (code r base) (c1.constants ++ literals r) op short in
      (lex', gives', rw (e, patched, wholly c) refl)

  all-Reads : (m : ℕ) (e : Expr) → IsWritten m e → Reads m e
  unfolding IsWritten lexemes run_infix code literals
  all-Reads m (number text value) valued = number-Reads m text value valued
  all-Reads m (truth b) w = truth-Reads m b
  all-Reads m (negative e) w = negative-Reads m e (all-Reads 12 e w)
  all-Reads m (grouped e) w = grouped-Reads m e (all-Reads 1 e w)
  all-Reads m (binary op l r) (low, wl, wr) =
      binary-Reads m op l r low (all-Reads (level op) l wl) (all-Reads (level op + 1) r wr)
  all-Reads m (both l r) (low, wl, wr, near) =
      operator-Reads m 3 l r (both l r) TokenType.ampersand_ampersand logical_and refl (omega arith)
        low refl refl refl (all-Reads 3 l wl)
        (λ rest lex fuel offset size c s.
          jump_right Opcode.jump_if_false l r (both l r) 3 rest lex fuel c s
            (λ c. jumped_lem Opcode.jump_if_false l r (both l r) c refl refl) near
            (all-Reads 4 r wr))
  all-Reads m (either l r) (low, wl, wr, near) =
      operator-Reads m 2 l r (either l r) TokenType.pipe_pipe logical_or refl (omega arith) low refl
        refl refl (all-Reads 2 l wl)
        (λ rest lex fuel offset size c s.
          jump_right Opcode.jump_if_true l r (either l r) 2 rest lex fuel c s
            (λ c. jumped_lem Opcode.jump_if_true l r (either l r) c refl refl) near
            (all-Reads 3 r wr))

  pub expression-Compiles :
      (e : Expr) (precedence fuel : ℕ) (rest : List Lexeme) (lex : Lex) (c : Chunk) (s : Parser)
      → IsWritten (precedence + 1) e
      → Gives xid_start xid_continue (lexemes e ++ rest) lex
      → first_binds precedence rest ≡ false
      → first_binds 11 rest ≡ false
      → 2 * length (lexemes e) ≤ fuel
      → (lex' : Lex) × Gives xid_start xid_continue rest lex'
        × (expression xid_start xid_continue fuel precedence (at lex c s)
            ≡ parsed tt (at lex' (extended e c) s))
  expression-Compiles e precedence fuel rest lex c s w gives stops stops11 enough =
      Reads-whole (precedence + 1) precedence e rest lex fuel c s (all-Reads (precedence + 1) e w)
        gives (first_binds_mono precedence (precedence + 1) rest (omega arith) stops, stops11) stops
        (omega arith) (let bound = enough_lem e in omega (arith, enough, bound))
