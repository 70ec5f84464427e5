-- ===== src/Ginkgo/Parse/Stream.antt =====
-- The tokens that a lexer gives to the parser of ginkgo/src/parse.rs, whether or not it holds one that
-- was peeked at.
use poplar.Prelude.{ℕ, ◌≡◌, refl, ap, ◌∙◌, Bool, false, Option, none, some, List, [], ◌∷◌, done}
use poplar.Ginkgo.Value.{Chunk}
use poplar.Ginkgo.Lex.{
  TokenType, Token, Lex, lexed, ended, next_no_peeking, next, peek, slice, lex_loop,
}
use poplar.Ginkgo.Lex.Ahead.{hold, hold_next, next_no_peeking-hold}
use poplar.Ginkgo.Parse.{Parser, parsed, next_token, peek_token}
use poplar.Ginkgo.Parse.Expression.{binds}

-- A token's type and its text.
abbrev pub Lexeme : Type 0
Lexeme = TokenType × List ℕ

abbrev pub token : TokenType → ℕ → ℕ → Token
token typ offset size = record { typ = typ; offset = offset; byte_length = size }

-- Whether the first of some tokens is an infix operator that binds.
abbrev pub first_binds : ℕ → List Lexeme → Bool
first_binds precedence [] = false
first_binds precedence ((typ, text) ∷ ts) = binds precedence (some (token typ 0 0))

-- The parser with another lexer and another chunk.
abbrev pub at : Lex → Chunk → Parser → Parser
at lex c s = record s { stream = lex; current_function = record s.current_function { chunk = c } }

module _ (xid_start xid_continue : ℕ → Bool) where
  -- The tokens that a lexer that holds none gives, up to the end.
  abbrev pub Chain : List Lexeme → Lex → Type 0
  Chain [] lex =
      (lex' : Lex) × (next_no_peeking xid_start xid_continue lex ≡ ended lex') × (lex'.stream ≡ [])
  Chain ((typ, text) ∷ ts) lex =
      (offset : ℕ) × (size : ℕ) × (lex' : Lex) × (next_no_peeking xid_start xid_continue lex
        ≡ lexed (token typ offset size) lex')
      × (slice lex'.source offset size ≡ done text)
      × Chain ts lex'

  pub data Gives : List Lexeme → Lex → Type 0 where
    fresh : {ts : List Lexeme} (lex : Lex) → Chain ts lex → Gives ts (hold none none lex)
    held :
        {typ : TokenType} {text : List ℕ} {ts : List Lexeme} (offset size : ℕ) (lex : Lex)
        → slice lex.source offset size ≡ done text
        → Chain ts lex
        → Gives ((typ, text) ∷ ts) (hold (some (token typ offset size)) none lex)

  pub next_lem :
      {typ : TokenType} {text : List ℕ} {ts : List Lexeme} {lex : Lex}
      → Gives ((typ, text) ∷ ts) lex
      → (c : Chunk) (s : Parser)
      → (offset : ℕ) × (size : ℕ) × (lex' : Lex) × Gives ts lex'
        × (slice lex'.source offset size ≡ done text)
        × (next_token xid_start xid_continue (at lex c s)
            ≡ parsed (some (token typ offset size)) (at lex' c s))
  unfolding next_token next
  next_lem (fresh lex (offset, size, lex', e, text, chain)) c s =
      let e' =
        next_no_peeking-hold none none xid_start xid_continue lex ∙ ap (hold_next none none) e in
      (offset, size, hold none none lex', fresh lex' chain, text, rw (e', next_token, next) refl)
  next_lem (held offset size lex text chain) c s =
      (offset, size, hold none none lex, fresh lex chain, text, refl)

  at_end : (lex : Lex) → lex.stream ≡ [] → Chain [] lex
  unfolding next_no_peeking
  at_end lex e = (
    record lex { start_offset = lex.offset; current_length = 0 },
    ap (λ cs. lex_loop xid_start xid_continue cs lex) e,
    e,
  )

  pub peek_end :
      {lex : Lex}
      → Gives [] lex
      → (c : Chunk) (s : Parser)
      → (lex' : Lex) × Gives [] lex'
        × (peek_token xid_start xid_continue (at lex c s) ≡ parsed none (at lex' c s))
  unfolding peek_token peek
  peek_end (fresh lex (lex', e, nothing)) c s =
      let e' =
        next_no_peeking-hold none none xid_start xid_continue lex ∙ ap (hold_next none none) e in
      (hold none none lex', fresh lex' (at_end lex' nothing), rw (e', peek_token, peek) refl)

  pub peek_first :
      {typ : TokenType} {text : List ℕ} {ts : List Lexeme} {lex : Lex}
      → Gives ((typ, text) ∷ ts) lex
      → (c : Chunk) (s : Parser)
      → (offset : ℕ) × (size : ℕ) × (lex' : Lex) × Gives ((typ, text) ∷ ts) lex'
        × (peek_token xid_start xid_continue (at lex c s)
            ≡ parsed (some (token typ offset size)) (at lex' c s))
  unfolding peek_token peek
  peek_first {typ} (fresh lex (offset, size, lex', e, found, chain)) c s =
      let e' =
        next_no_peeking-hold none none xid_start xid_continue lex ∙ ap (hold_next none none) e in
      (
        offset,
        size,
        hold (some (token typ offset size)) none lex',
        held offset size lex' found chain,
        rw (e', peek_token, peek) refl,
      )
  peek_first {typ} (held offset size lex found chain) c s = (
    offset,
    size,
    hold (some (token typ offset size)) none lex,
    held offset size lex found chain,
    refl,
  )

  pub peek_lem :
      (ts : List Lexeme) {lex : Lex}
      → Gives ts lex
      → (c : Chunk) (s : Parser)
      → (next : Option Token) × (lex' : Lex) × Gives ts lex'
        × ((precedence : ℕ) → binds precedence next ≡ first_binds precedence ts)
        × (peek_token xid_start xid_continue (at lex c s) ≡ parsed next (at lex' c s))
  peek_lem [] gives c s =
      let (lex', gives', e) = peek_end gives c s in (none, lex', gives', λ p. refl, e)
  peek_lem ((typ, text) ∷ ts) gives c s =
      let (offset, size, lex', gives', e) = peek_first gives c s in
      (some (token typ offset size), lex', gives', λ p. refl, e)
