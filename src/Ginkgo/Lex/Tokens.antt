-- ===== src/Ginkgo/Lex/Tokens.antt =====
-- The tokens of several characters of ginkgo/src/lex.rs.
use poplar.Prelude.{
  ℕ, ◌+◌, ◌-◌, ◌<◌, ◌≡◌, refl, sym, ap, ◌∙◌, subst, Bool, true, false, not, List, [], ◌∷◌, ◌++◌,
  ltb, ◌==◌, if◌then◌else◌, done, Bool-cases, inl, inr, arith,
}
use poplar.Ginkgo.Lex.{
  decimal, integer, TokenType, Lex, len_utf8, slice, advanced, advance_loop, advance_while,
  advance_one, lex_double, starts_with, lex_fraction, lex_number, number_base, is_digit,
  has_fraction, close_string, lex_string, lex_identifier, keyword, keywords,
}
use poplar.Ginkgo.Lex.Text.{bytes, bytes-append, append_assoc, slice_lem, Reads}
use poplar.Ginkgo.Lex.Reading.{
  Reading, advanced-Reading, advance_loop-Reading, advance_one-Reading, Reading-IsValid,
  Reading-slice, Reading-further, produce-Reads,
}

module _ (source : List ℕ) (from : ℕ) (first : List ℕ) where
  pub double-Reads :
      (second : ℕ) (both one : TokenType) (lex : Lex)
      → 0 < bytes first
      → Reading source from first lex
      → Reads source from (lex_double second both one lex)
  unfolding lex_double
  double-Reads second both one lex pos h = elim (Bool-cases (starts_with second lex.stream)) [
    | inl on ↦ rw (on) (
        produce-Reads source from first both (advance_one lex.stream lex) pos
          (advance_one-Reading source from first lex.stream lex refl h))
    | inr off ↦ rw (off) (produce-Reads source from first one lex pos h)
  ]

  fraction-Reads :
      (base : ℕ) (lex : Lex)
      → 0 < bytes first
      → Reading source from first lex
      → Reads source from (lex_fraction base lex)
  fraction-Reads base lex pos h =
      let one = advance_one lex.stream lex in
      let more =
        advance_loop-Reading source from first (is_digit 10) one.stream one refl
          (advance_one-Reading source from first lex.stream lex refl h) in
      elim (Bool-cases (has_fraction lex.stream)) [
        | inl on ↦ elim (Bool-cases (base == 10)) [
          | inl ten ↦
              rw (on, ten)
                (produce-Reads source from first decimal (advance_while (is_digit 10) one) pos more)
          | inr other ↦
              rw (on, other)
                (
                  Reading-IsValid source from first lex h,
                  Reading-further source from first lex pos h,
                )
        ]
        | inr off ↦ rw (off) (produce-Reads source from first integer lex pos h)
      ]

  choice-Reading :
      (b : Bool) (l r : Lex)
      → Reading source from first l
      → Reading source from first r
      → Reading source from first (if b then l else r)
  choice-Reading true l r hl hr = hl
  choice-Reading false l r hl hr = hr

  pub number-Reads :
      (c : ℕ) (lex : Lex)
      → 0 < bytes first
      → Reading source from first lex
      → Reads source from (lex_number c lex)
  unfolding lex_number
  number-Reads c lex pos h =
      let base = number_base c lex.stream in
      let l = if base.1 then advance_one lex.stream lex else lex in
      let started : Reading source from first l =
        choice-Reading base.1 (advance_one lex.stream lex) lex
          (advance_one-Reading source from first lex.stream lex refl h) h in
      fraction-Reads base.0 (advance_while (is_digit base.0) l) pos
        (advance_loop-Reading source from first (is_digit base.0) l.stream l refl started)

  pub identifier-Reads :
      (xid_start xid_continue : ℕ → Bool) (lex : Lex)
      → 0 < bytes first
      → Reading source from first lex
      → Reads source from (lex_identifier xid_start xid_continue lex)
  unfolding lex_identifier
  identifier-Reads xid_start xid_continue lex pos h =
      let l = advance_while xid_continue lex in
      let read = advance_loop-Reading source from first xid_continue lex.stream lex refl h in
      let (text, e) = Reading-slice source from first l read in
      let name : slice l.source l.start_offset l.current_length ≡ done text =
        ap (λ s. slice s l.start_offset l.current_length) (read.2) ∙ e in
      rw (name, lex_identifier) (produce-Reads source from first (keyword keywords text) l pos read)

-- A loop over characters stops at one that the test refuses.
abbrev pub Refused : (ℕ → Bool) → List ℕ → Type 0
Refused test [] = Unit {0}
Refused test (c ∷ rest) = test c ≡ false

advance_loop-Refused :
    (test : ℕ → Bool) (cs : List ℕ) (lex : Lex)
    → lex.stream ≡ cs
    → Refused test (advance_loop test cs lex).stream
advance_loop-Refused test [] lex e = subst (Refused test) (sym e) tt
advance_loop-Refused test (c ∷ rest) lex e = elim (Bool-cases (test c)) [
  | inl on ↦ rw (on) (advance_loop-Refused test rest (advanced c rest lex) refl)
  | inr off ↦ rw (off) (subst (Refused test) (sym e) off)
]

-- The text between two quotes, and the place behind them.
quoted_lem :
    (source before more rest : List ℕ) (c offset size : ℕ)
    → c ≡ 34
    → source ≡ before ++ ((34 ∷ more) ++ (c ∷ rest))
    → offset ≡ bytes before + 1
    → size ≡ bytes more
    → slice source offset size ≡ done more
quoted_lem source before more rest c offset size quote split start e =
    let open_lem = bytes-append before (34 ∷ []) in
    let start' : offset ≡ bytes (before ++ (34 ∷ [])) = omega (arith, start, open_lem) in
    ap (λ s. slice s offset size) (split ∙ sym (append_assoc before (34 ∷ []) (more ++ (c ∷ rest))))
    ∙ ap (λ n. slice ((before ++ (34 ∷ [])) ++ (more ++ (c ∷ rest))) n size) start'
    ∙ ap (slice ((before ++ (34 ∷ [])) ++ (more ++ (c ∷ rest))) (bytes (before ++ (34 ∷ [])))) e
    ∙ slice_lem (before ++ (34 ∷ [])) more (c ∷ rest)

close_string-Reads :
    (source : List ℕ) (from : ℕ) (cs : List ℕ) (lex : Lex)
    → lex.stream ≡ cs
    → Refused (λ c. not (c == 34)) cs
    → Reading source from (34 ∷ []) lex
    → Reads source from (close_string cs lex)
close_string-Reads source from [] lex e quote h = (Reading-IsValid source from (34 ∷ []) lex h, e)
close_string-Reads source from (c ∷ rest) lex e quote h =
    let (before, more, same, split, start, size, offset, low) = h in
    let is_quote : c ≡ 34 = ground (arith, quote) in
    let one : len_utf8 c ≡ 1 = ground (arith, is_quote) in
    let closed : ltb (lex.current_length + len_utf8 c) 2 ≡ false = ground (arith, size, one) in
    let h' = advanced-Reading source from (34 ∷ []) c rest lex e h in
    rw (closed) (
      Reading-IsValid source from (34 ∷ []) (advanced c rest lex) h',
      (
        more,
        quoted_lem source before more rest c (lex.start_offset + 1)
            (lex.current_length + len_utf8 c - 2) is_quote
            (split ∙ ap (λ s. before ++ ((34 ∷ more) ++ s)) e) (omega (arith, start))
            (omega (arith, size, one)),
      ),
      omega (arith, start, low),
      omega (arith, start, size, offset, one),
      omega (arith, offset, low),
    )

pub string-Reads :
    (source : List ℕ) (from : ℕ) (lex : Lex)
    → Reading source from (34 ∷ []) lex
    → Reads source from (lex_string lex)
unfolding lex_string
string-Reads source from lex h =
    let test = λ (c : ℕ). not (c == 34) in
    let l = advance_while test lex in
    close_string-Reads source from l.stream l refl (advance_loop-Refused test lex.stream lex refl)
      (advance_loop-Reading source from (34 ∷ []) test lex.stream lex refl h)
