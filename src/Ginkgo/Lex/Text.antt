-- ===== src/Ginkgo/Lex/Text.antt =====
-- The source of ginkgo/src/lex.rs, its slices, and a lexer's place in it.
use poplar.Prelude.{
  ℕ, ◌+◌, ◌-◌, ◌≤◌, ◌<◌, ◌≡◌, refl, ap, false, List, [], ◌∷◌, ◌++◌, ltb, ◌==◌, done, arith,
}
use poplar.Ginkgo.Lex.{
  Lex, Next, ended, lexed, wrong, crash, len_utf8, skip_bytes, take_bytes, slice,
}

abbrev pub bytes : List ℕ → ℕ
bytes [] = 0
bytes (c ∷ cs) = len_utf8 c + bytes cs

pub len_pos : (c : ℕ) → 0 < len_utf8 c
len_pos c = ground arith

pub bytes-append : (xs ys : List ℕ) → bytes (xs ++ ys) ≡ bytes xs + bytes ys
bytes-append [] ys = omega arith
bytes-append (x ∷ xs) ys = let ih = bytes-append xs ys in omega (arith, ih)

pub append_assoc : (xs ys zs : List ℕ) → (xs ++ ys) ++ zs ≡ xs ++ (ys ++ zs)
append_assoc [] ys zs = refl
append_assoc (x ∷ xs) ys zs = ap (λ s. x ∷ s) (append_assoc xs ys zs)

skip_lem : (xs ys : List ℕ) → skip_bytes (xs ++ ys) (bytes xs) ≡ done ys
skip_lem [] [] = refl
skip_lem [] (y ∷ ys) = refl
skip_lem (x ∷ xs) ys =
    let pos = len_pos x in
    let some_left : (bytes (x ∷ xs) == 0) ≡ false = ground (arith, pos) in
    let enough : ltb (bytes (x ∷ xs)) (len_utf8 x) ≡ false = ground (arith, pos) in
    let rest : bytes (x ∷ xs) - len_utf8 x ≡ bytes xs = omega arith in
    rw (some_left, enough, rest) (skip_lem xs ys)

take_lem : (xs ys : List ℕ) → take_bytes (xs ++ ys) (bytes xs) ≡ done xs
take_lem [] [] = refl
take_lem [] (y ∷ ys) = refl
take_lem (x ∷ xs) ys =
    let pos = len_pos x in
    let some_left : (bytes (x ∷ xs) == 0) ≡ false = ground (arith, pos) in
    let enough : ltb (bytes (x ∷ xs)) (len_utf8 x) ≡ false = ground (arith, pos) in
    let rest : bytes (x ∷ xs) - len_utf8 x ≡ bytes xs = omega arith in
    rw (some_left, enough, rest, take_lem xs ys) refl

pub slice_lem :
    (pre text post : List ℕ) → slice (pre ++ (text ++ post)) (bytes pre) (bytes text) ≡ done text
unfolding slice
slice_lem pre text post = rw (skip_lem pre (text ++ post)) (take_lem text post)

-- The lexer stands between two characters of the source.
abbrev pub IsValid : List ℕ → Lex → Type 0
IsValid source lex =
    (before : List ℕ) × (lex.source ≡ source)
    × (source ≡ before ++ lex.stream)
    × (lex.offset ≡ bytes before)

-- What is read from an offset: a token whose text is a part of the source from there on, the lexer
-- being behind it; an error, the lexer being further; or the end, at the end of the source.
abbrev pub Reads : List ℕ → ℕ → Next → Type 0
Reads source from (ended lex) = IsValid source lex × (lex.stream ≡ [])
Reads source from (lexed token lex) =
    IsValid source lex
    × ((text : List ℕ) × (slice source token.offset token.byte_length ≡ done text))
    × (from ≤ token.offset)
    × (token.offset + token.byte_length ≤ lex.offset)
    × (from < lex.offset)
Reads source from (wrong e lex) = IsValid source lex × (from < lex.offset)
Reads source from crash = ⊥
