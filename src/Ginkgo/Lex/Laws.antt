-- ===== src/Ginkgo/Lex/Laws.antt =====
-- The tokens of ginkgo/src/lex.rs and the source they are read from.
pub mod Examples
use poplar.Prelude.{
  ℕ, zero, suc, ◌+◌, ◌-◌, ◌≤◌, ◌<◌, ◌≡◌, refl, sym, ap, ◌∙◌, subst, Bool, true, false, not, ◌&&◌,
  ◌||◌, Option, none, some, List, [], ◌∷◌, ◌++◌, ltb, leb, ◌==◌, if◌then◌else◌, Outcome, done,
  panic, ◌>>=◌, Bool-cases, Option-cases, ◌⊎◌, inl, inr, arith,
}
use poplar.Ginkgo.Lex.{
  decimal, integer, string, identifier, unexpected_char, no_floating_point_hex, TokenType, Token,
  Lex, LexError, Next, ended, lexed, wrong, crash, len_utf8, skip_bytes, take_bytes, slice,
  advanced, advance_loop, advance_while, advance_one, produce, lex_double, starts_with,
  lex_fraction, lex_number, number_base, is_digit, has_fraction, close_string, lex_string,
  lex_identifier, lex_literal, lex_char, single, double, lex_loop, is_whitespace, next_no_peeking,
  keyword, keywords,
}
use poplar.Ginkgo.Lex.Text.{bytes, len_pos, bytes-append, append_assoc, slice_lem, IsValid, Reads}
use poplar.Ginkgo.Lex.Reading.{
  Reading, advanced-Reading, advance_loop-Reading, advance_one-Reading, Reading-IsValid,
  Reading-slice, Reading-further, produce-Reads,
}
use poplar.Ginkgo.Lex.Tokens.{double-Reads, number-Reads, identifier-Reads, string-Reads}

later :
    (source : List ℕ) (from from' : ℕ) (r : Next)
    → from ≤ from'
    → Reads source from' r
    → Reads source from r
later source from from' (ended lex) h r = r
later source from from' (lexed token lex) h (valid, text, low, fits, further) =
    (valid, text, omega (arith, h, low), fits, omega (arith, h, further))
later source from from' (wrong e lex) h (valid, further) = (valid, omega (arith, h, further))
later source from from' crash h r = r

module _ (xid_start xid_continue : ℕ → Bool) (source : List ℕ) where
  literal-Reads :
      (from c : ℕ) (lex : Lex)
      → Reading source from (c ∷ []) lex
      → Reads source from (lex_literal xid_start xid_continue c lex)
  literal-Reads from c lex h =
      let pos : 0 < bytes (c ∷ []) = ground arith in
      elim (Bool-cases (is_digit 10 c)) [
        | inl on ↦ rw (on) (number-Reads source from (c ∷ []) c lex pos h)
        | inr off ↦ elim (Bool-cases (c == 34)) [
          | inl quote ↦
              let is_quote : c ≡ 34 = ground (arith, quote) in
              rw (off, quote)
                (string-Reads source from lex
                  (subst (λ q. Reading source from (q ∷ []) lex) is_quote h))
          | inr other ↦ elim (Bool-cases (xid_start c || (c == 95))) [
            | inl name ↦
                rw (off, other, name)
                  (identifier-Reads source from (c ∷ []) xid_start xid_continue lex pos h)
            | inr unknown ↦
                rw (off, other, unknown)
                  (
                    Reading-IsValid source from (c ∷ []) lex h,
                    Reading-further source from (c ∷ []) lex pos h,
                  )
          ]
        ]
      ]

  char-Reads :
      (from c : ℕ) (lex : Lex)
      → Reading source from (c ∷ []) lex
      → Reads source from (lex_char xid_start xid_continue c lex)
  unfolding lex_char
  char-Reads from c lex h =
      let pos : 0 < bytes (c ∷ []) = ground arith in
      elim (Option-cases (single c)) [
        | inr (typ, e) ↦ rw (e, lex_char) (produce-Reads source from (c ∷ []) typ lex pos h)
        | inl e ↦ elim (Option-cases (double c)) [
          | inr ((second, both, one), e') ↦
              rw (e, e', lex_char) (double-Reads source from (c ∷ []) second both one lex pos h)
          | inl e' ↦ rw (e, e', lex_char) (literal-Reads from c lex h)
        ]
      ]

  loop-Reads :
      (cs : List ℕ) (lex : Lex)
      → lex.stream ≡ cs
      → IsValid source lex
      → Reads source lex.offset (lex_loop xid_start xid_continue cs lex)
  loop-Reads [] lex e valid = (valid, e)
  loop-Reads (c ∷ rest) lex e (before, same, split, offset) =
      let begun = record lex { start_offset = lex.offset; current_length = 0 } in
      let l = advanced c rest begun in
      let h : Reading source lex.offset (c ∷ []) l = (
        before,
        [],
        same,
        split ∙ ap (λ s. before ++ s) e,
        offset,
        omega arith,
        omega (arith, offset),
        omega (arith, offset),
      ) in
      let next_valid = Reading-IsValid source lex.offset (c ∷ []) l h in
      elim (Bool-cases (is_whitespace c)) [
        | inl on ↦ rw (on) (
            later source lex.offset l.offset (lex_loop xid_start xid_continue rest l) (omega arith)
              (loop-Reads rest l refl next_valid))
        | inr off ↦ rw (off) (char-Reads lex.offset c l h)
      ]

  -- From a lexer that stands between two characters of the source, `next_no_peeking` never panics,
  -- and the lexer stands between two characters again. Either it ends, which it does only at the
  -- end of the source; or there is an error, and the lexer is further; or there is a token, whose
  -- offset is not before the lexer's place, whose end is not behind the lexer's new place, which
  -- is further, and whose slice of the source exists, so that `token_value` can take it.
  pub next_no_peeking-Reads :
      (lex : Lex)
      → IsValid source lex
      → Reads source lex.offset (next_no_peeking xid_start xid_continue lex)
  unfolding next_no_peeking
  next_no_peeking-Reads lex valid = loop-Reads lex.stream lex refl valid
