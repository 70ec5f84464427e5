-- ===== src/Ginkgo/Lex/Reading.antt =====
-- The lexer of ginkgo/src/lex.rs inside a token.
use poplar.Prelude.{
  ℕ, ◌+◌, ◌≤◌, ◌<◌, ◌≡◌, refl, sym, ap, ◌∙◌, Bool, List, [], ◌∷◌, ◌++◌, done, Bool-cases, inl, inr,
  arith,
}
use poplar.Ginkgo.Lex.{
  TokenType, Lex, len_utf8, slice, advanced, advance_loop, advance_one, produce,
}
use poplar.Ginkgo.Lex.Text.{bytes, bytes-append, append_assoc, slice_lem, IsValid, Reads}

-- Inside a token that begins with some characters.
abbrev pub Reading : List ℕ → ℕ → List ℕ → Lex → Type 0
Reading source from first lex =
    (before more : List ℕ) × (lex.source ≡ source)
    × (source ≡ before ++ ((first ++ more) ++ lex.stream))
    × (lex.start_offset ≡ bytes before)
    × (lex.current_length ≡ bytes (first ++ more))
    × (lex.offset ≡ bytes before + bytes (first ++ more))
    × (from ≤ bytes before)

module _ (source : List ℕ) (from : ℕ) (first : List ℕ) where
  pub advanced-Reading :
      (c : ℕ) (rest : List ℕ) (lex : Lex)
      → lex.stream ≡ c ∷ rest
      → Reading source from first lex
      → Reading source from first (advanced c rest lex)
  advanced-Reading c rest lex e (before, more, same, split, start, size, offset, low) =
      let grown : first ++ (more ++ (c ∷ [])) ≡ (first ++ more) ++ (c ∷ []) =
        sym (append_assoc first more (c ∷ [])) in
      let size' : bytes (first ++ (more ++ (c ∷ []))) ≡ bytes (first ++ more) + len_utf8 c =
        ap bytes grown ∙ bytes-append (first ++ more) (c ∷ []) ∙ omega arith in
      (
        before,
        more ++ (c ∷ []),
        same,
        split
            ∙ ap (λ s. before ++ ((first ++ more) ++ s)) e
            ∙ ap (λ s. before ++ s)
                (sym (append_assoc (first ++ more) (c ∷ []) rest)
                  ∙ ap (λ s. s ++ rest) (sym grown)),
        start,
        omega (arith, size, size'),
        omega (arith, offset, size'),
        low,
      )

  pub advance_loop-Reading :
      (test : ℕ → Bool) (cs : List ℕ) (lex : Lex)
      → lex.stream ≡ cs
      → Reading source from first lex
      → Reading source from first (advance_loop test cs lex)
  advance_loop-Reading test [] lex e h = h
  advance_loop-Reading test (c ∷ rest) lex e h = elim (Bool-cases (test c)) [
    | inl on ↦ rw (on) (
        advance_loop-Reading test rest (advanced c rest lex) refl (advanced-Reading c rest lex e h))
    | inr off ↦ rw (off) h
  ]

  pub advance_one-Reading :
      (cs : List ℕ) (lex : Lex)
      → lex.stream ≡ cs
      → Reading source from first lex
      → Reading source from first (advance_one cs lex)
  advance_one-Reading [] lex e h = h
  advance_one-Reading (c ∷ rest) lex e h = advanced-Reading c rest lex e h

  pub Reading-IsValid : (lex : Lex) → Reading source from first lex → IsValid source lex
  Reading-IsValid lex (before, more, same, split, start, size, offset, low) = (
    before ++ (first ++ more),
    same,
    split ∙ sym (append_assoc before (first ++ more) lex.stream),
    offset ∙ sym (bytes-append before (first ++ more)),
  )

  pub Reading-slice :
      (lex : Lex)
      → Reading source from first lex
      → (text : List ℕ) × (slice source lex.start_offset lex.current_length ≡ done text)
  Reading-slice lex (before, more, same, split, start, size, offset, low) = (
    first ++ more,
    ap (λ s. slice s lex.start_offset lex.current_length) split
        ∙ ap (λ n. slice (before ++ ((first ++ more) ++ lex.stream)) n lex.current_length) start
        ∙ ap (slice (before ++ ((first ++ more) ++ lex.stream)) (bytes before)) size
        ∙ slice_lem before (first ++ more) lex.stream,
  )

  pub Reading-further :
      (lex : Lex) → 0 < bytes first → Reading source from first lex → from < lex.offset
  Reading-further lex pos (before, more, same, split, start, size, offset, low) =
      let whole = bytes-append first more in omega (arith, pos, offset, low, whole)

  pub produce-Reads :
      (typ : TokenType) (lex : Lex)
      → 0 < bytes first
      → Reading source from first lex
      → Reads source from (produce typ lex)
  produce-Reads typ lex pos h =
      let (before, more, same, split, start, size, offset, low) = h in
      (
        Reading-IsValid lex h,
        Reading-slice lex h,
        omega (arith, start, low),
        omega (arith, start, size, offset),
        Reading-further lex pos h,
      )
