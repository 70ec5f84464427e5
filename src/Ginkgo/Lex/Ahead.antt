-- ===== src/Ginkgo/Lex/Ahead.antt =====
-- The two tokens that the lexer of ginkgo/src/lex.rs holds ahead: what is lexed does not depend on them.
use poplar.Prelude.{
  ℕ, ◌+◌, ◌≡◌, refl, ap, ◌∙◌, Bool, true, false, not, ◌||◌, Option, none, some, List, [], ◌∷◌, ltb,
  ◌==◌, if◌then◌else◌, Outcome, done, panic, Bool-cases, Option-cases, inl, inr,
}
use poplar.Ginkgo.Lex.{
  decimal, TokenType, Token, Lex, Next, ended, lexed, wrong, crash, len_utf8, slice, advanced,
  advance_loop, advance_while, advance_one, produce, lex_double, starts_with, lex_fraction,
  lex_number, number_base, is_digit, has_fraction, close_string, lex_string, lex_identifier,
  lex_literal, lex_char, single, double, lex_loop, is_whitespace, next_no_peeking, name_token, next,
  peek, peek_next, peek_second, shown,
}

-- The lexer with tokens held ahead.
abbrev pub hold : Option Token → Option Token → Lex → Lex
hold first second lex = record lex { peek = first; peek_next = second }

module _ (p q : Option Token) where
  abbrev pub hold_next : Next → Next
  hold_next (ended lex) = ended (hold p q lex)
  hold_next (lexed token lex) = lexed token (hold p q lex)
  hold_next (wrong e lex) = wrong e (hold p q lex)
  hold_next crash = crash

  advance_loop-hold :
      (test : ℕ → Bool) (cs : List ℕ) (lex : Lex)
      → advance_loop test cs (hold p q lex) ≡ hold p q (advance_loop test cs lex)
  advance_loop-hold test [] lex = refl
  advance_loop-hold test (c ∷ rest) lex = elim (Bool-cases (test c)) [
    | inl on ↦ rw (on) (advance_loop-hold test rest (advanced c rest lex))
    | inr off ↦ rw (off) refl
  ]

  advance_one-hold :
      (cs : List ℕ) (lex : Lex) → advance_one cs (hold p q lex) ≡ hold p q (advance_one cs lex)
  advance_one-hold [] lex = refl
  advance_one-hold (c ∷ rest) lex = refl

  lex_double-hold :
      (second : ℕ) (both one : TokenType) (lex : Lex)
      → lex_double second both one (hold p q lex) ≡ hold_next (lex_double second both one lex)
  unfolding lex_double
  lex_double-hold second both one lex = elim (Bool-cases (starts_with second lex.stream)) [
    | inl on ↦ rw (on) (ap (produce both) (advance_one-hold lex.stream lex))
    | inr off ↦ rw (off) refl
  ]

  lex_fraction-hold :
      (base : ℕ) (lex : Lex) → lex_fraction base (hold p q lex) ≡ hold_next (lex_fraction base lex)
  lex_fraction-hold base lex = elim (Bool-cases (has_fraction lex.stream)) [
    | inl on ↦ elim (Bool-cases (base == 10)) [
      | inl ten ↦
          rw (on, ten)
            (ap (produce decimal) (
              ap (advance_while (is_digit 10)) (advance_one-hold lex.stream lex)
              ∙ advance_loop-hold (is_digit 10) (advance_one lex.stream lex).stream
                  (advance_one lex.stream lex)))
      | inr other ↦ rw (on, other) refl
    ]
    | inr off ↦ rw (off) refl
  ]

  hold_choice :
      (b : Bool) (lex : Lex)
      → (if b then advance_one lex.stream (hold p q lex) else hold p q lex)
        ≡ hold p q (if b then advance_one lex.stream lex else lex)
  hold_choice true lex = advance_one-hold lex.stream lex
  hold_choice false lex = refl

  lex_number-hold : (c : ℕ) (lex : Lex) → lex_number c (hold p q lex) ≡ hold_next (lex_number c lex)
  unfolding lex_number
  lex_number-hold c lex =
      let base = number_base c lex.stream in
      let l = if base.1 then advance_one lex.stream lex else lex in
      ap (λ k. lex_fraction base.0 (advance_while (is_digit base.0) k)) (hold_choice base.1 lex)
      ∙ ap (lex_fraction base.0) (advance_loop-hold (is_digit base.0) l.stream l)
      ∙ lex_fraction-hold base.0 (advance_while (is_digit base.0) l)

  close_string-hold :
      (cs : List ℕ) (lex : Lex) → close_string cs (hold p q lex) ≡ hold_next (close_string cs lex)
  close_string-hold [] lex = refl
  close_string-hold (c ∷ rest) lex = elim (Bool-cases (ltb (lex.current_length + len_utf8 c) 2)) [
    | inl on ↦ rw (on) refl
    | inr off ↦ rw (off) refl
  ]

  lex_string-hold : (lex : Lex) → lex_string (hold p q lex) ≡ hold_next (lex_string lex)
  unfolding lex_string
  lex_string-hold lex =
      let l = advance_while (λ c. not (c == 34)) lex in
      ap (λ k. close_string k.stream k) (advance_loop-hold (λ c. not (c == 34)) lex.stream lex)
      ∙ close_string-hold l.stream l

  name_token-hold :
      (name : Outcome (List ℕ)) (lex : Lex)
      → name_token name (hold p q lex) ≡ hold_next (name_token name lex)
  name_token-hold (done name) lex = refl
  name_token-hold panic lex = refl

  module _ (xid_start xid_continue : ℕ → Bool) where
    lex_identifier-hold :
        (lex : Lex)
        → lex_identifier xid_start xid_continue (hold p q lex)
          ≡ hold_next (lex_identifier xid_start xid_continue lex)
    unfolding lex_identifier
    lex_identifier-hold lex =
        let l = advance_while xid_continue lex in
        ap (λ k. name_token (slice k.source k.start_offset k.current_length) k)
          (advance_loop-hold xid_continue lex.stream lex)
        ∙ name_token-hold (slice l.source l.start_offset l.current_length) l

    lex_literal-hold :
        (c : ℕ) (lex : Lex)
        → lex_literal xid_start xid_continue c (hold p q lex)
          ≡ hold_next (lex_literal xid_start xid_continue c lex)
    lex_literal-hold c lex = elim (Bool-cases (is_digit 10 c)) [
      | inl on ↦ rw (on) (lex_number-hold c lex)
      | inr off ↦ elim (Bool-cases (c == 34)) [
        | inl quote ↦ rw (off, quote) (lex_string-hold lex)
        | inr other ↦ elim (Bool-cases (xid_start c || (c == 95))) [
          | inl name ↦ rw (off, other, name) (lex_identifier-hold lex)
          | inr unknown ↦ rw (off, other, unknown) refl
        ]
      ]
    ]

    lex_char-hold :
        (c : ℕ) (lex : Lex)
        → lex_char xid_start xid_continue c (hold p q lex)
          ≡ hold_next (lex_char xid_start xid_continue c lex)
    unfolding lex_char
    lex_char-hold c lex = elim (Option-cases (single c)) [
      | inr (typ, e) ↦ rw (e, lex_char) refl
      | inl e ↦ elim (Option-cases (double c)) [
        | inr ((second, both, one), e') ↦ rw (e, e', lex_char) (lex_double-hold second both one lex)
        | inl e' ↦ rw (e, e', lex_char) (lex_literal-hold c lex)
      ]
    ]

    lex_loop-hold :
        (cs : List ℕ) (lex : Lex)
        → lex_loop xid_start xid_continue cs (hold p q lex)
          ≡ hold_next (lex_loop xid_start xid_continue cs lex)
    lex_loop-hold [] lex = refl
    lex_loop-hold (c ∷ rest) lex =
        let l = advanced c rest (record lex { start_offset = lex.offset; current_length = 0 }) in
        elim (Bool-cases (is_whitespace c)) [
          | inl on ↦ rw (on) (lex_loop-hold rest l)
          | inr off ↦ rw (off) (lex_char-hold c l)
        ]

    pub next_no_peeking-hold :
        (lex : Lex)
        → next_no_peeking xid_start xid_continue (hold p q lex)
          ≡ hold_next (next_no_peeking xid_start xid_continue lex)
    unfolding next_no_peeking
    next_no_peeking-hold lex = lex_loop-hold lex.stream lex

-- For a lexer that holds no tokens ahead, and that gives two tokens by calls of `next`, the lookahead
-- is the same tokens: `peek` shows the first, `peek_next` then the second, the calls of `next` after
-- them give the first and the second, and the lexer is where the two calls alone have it.
pub lookahead :
    (xid_start xid_continue : ℕ → Bool) (lex l1 l2 : Lex) (t1 t2 : Token)
    → next xid_start xid_continue (hold none none lex) ≡ lexed t1 (hold none none l1)
    → next xid_start xid_continue (hold none none l1) ≡ lexed t2 (hold none none l2)
    → (a b c : Lex) × (peek xid_start xid_continue (hold none none lex) ≡ shown (some t1) a)
      × (peek_next xid_start xid_continue a ≡ shown (some t2) b)
      × (next xid_start xid_continue b ≡ lexed t1 c)
      × (next xid_start xid_continue c ≡ lexed t2 (hold none none l2))
unfolding next peek peek_next
lookahead xid_start xid_continue lex l1 l2 t1 t2 e1 e2 =
    let first : next_no_peeking xid_start xid_continue (hold none none lex)
        ≡ lexed t1 (hold none none l1) =
      e1 in
    let second : next_no_peeking xid_start xid_continue (hold (some t1) none l1)
        ≡ lexed t2 (hold (some t1) none l2) =
      next_no_peeking-hold (some t1) none xid_start xid_continue (hold none none l1)
      ∙ ap (hold_next (some t1) none) e2 in
    (
      hold (some t1) none l1,
      hold (some t1) (some t2) l2,
      hold (some t2) none l2,
      rw (first, peek) refl,
      rw (second, peek_next, peek_second) refl,
      refl,
      refl,
    )
