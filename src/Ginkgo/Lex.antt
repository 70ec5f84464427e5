-- ===== src/Ginkgo/Lex.antt =====
-- ginkgo/src/lex.rs: the lexer. A character is its code point, and the source is its characters. The
-- characters that the two-place lookahead of `PeekingIter` holds are the first ones of `stream`, what
-- is left of the source. The crate unicode_xid is two parameters.
pub mod PeekingIter
pub mod Text
pub mod Reading
pub mod Tokens
pub mod Ahead
pub mod Laws
use poplar.Prelude.{
  ℕ, ◌+◌, ◌-◌, ◌*◌, ◌^◌, Bool, true, false, not, ◌&&◌, ◌||◌, Option, none, some, List, [], ◌∷◌, ltb,
  leb, ◌==◌, if◌then◌else◌, Outcome, done, panic, ◌>>=◌,
}
use poplar.Syscall.Repr.{first_match}
use poplar.Ginkgo.Value.{name_eq}

pub data TokenType : Type 0 where
  plus minus dot equals equals_equals asterix slash colon semicolon comma bang : TokenType
  bang_equals left_paren right_paren left_brace right_brace less_than less_equal : TokenType
  greater_than greater_equal question_mark caret ampersand ampersand_ampersand : TokenType
  pipe pipe_pipe : TokenType
  identifier string integer decimal : TokenType
  let_keyword if_keyword else_keyword for_keyword loop_keyword while_keyword : TokenType
  true_keyword false_keyword return_keyword fn_keyword class_keyword ginkgo_self : TokenType

pub record Token : Type 0 where
  pub typ : TokenType
  pub offset : ℕ
  pub byte_length : ℕ

pub record Lex : Type 0 where
  pub source : List ℕ
  pub stream : List ℕ
  pub offset : ℕ
  pub start_offset : ℕ
  pub current_length : ℕ
  pub peek : Option Token
  pub peek_next : Option Token

pub data LexError : Type 0 where
  unexpected_char : ℕ → LexError
  no_floating_point_hex : LexError

-- An `Option` of a `Result` of a token, or a panic.
pub data Next : Type 0 where
  ended : Lex → Next
  lexed : Token → Lex → Next
  wrong : LexError → Lex → Next
  crash : Next

-- A `Result` of an `Option` of a token, or a panic.
pub data Peeked : Type 0 where
  shown : Option Token → Lex → Peeked
  refused : LexError → Lex → Peeked
  panicked : Peeked

-- `char::len_utf8`
abbrev pub len_utf8 : ℕ → ℕ
len_utf8 c = if ltb c 0x80 then 1 else if ltb c 0x800 then 2 else if ltb c 0x10000 then 3 else 4

unfoldable pub new : List ℕ → Lex
new source = record {
  source = source;
  stream = source;
  offset = 0;
  start_offset = 0;
  current_length = 0;
  peek = none;
  peek_next = none;
}

-- `&source[offset..offset + length]`: it panics at a place that is not between two characters.
abbrev pub skip_bytes : List ℕ → ℕ → Outcome (List ℕ)
skip_bytes [] n = if n == 0 then done [] else panic
skip_bytes (c ∷ cs) n =
    let rest = skip_bytes cs (n - len_utf8 c) in
    if n == 0 then done (c ∷ cs) else if ltb n (len_utf8 c) then panic else rest

abbrev pub take_bytes : List ℕ → ℕ → Outcome (List ℕ)
take_bytes [] n = if n == 0 then done [] else panic
take_bytes (c ∷ cs) n =
    let rest = take_bytes cs (n - len_utf8 c) in
    if n == 0 then done [] else if ltb n (len_utf8 c) then panic else rest >>= λ s. done (c ∷ s)

unfoldable pub slice : List ℕ → ℕ → ℕ → Outcome (List ℕ)
slice source offset size = skip_bytes source offset >>= λ s. take_bytes s size

-- `advance`, at a stream that has a character.
abbrev pub advanced : ℕ → List ℕ → Lex → Lex
advanced c rest lex = record lex {
  stream = rest;
  offset = lex.offset + len_utf8 c;
  current_length = lex.current_length + len_utf8 c;
}

-- `while stream.peek().map_or(false, test) { advance(); }`
abbrev pub advance_loop : (ℕ → Bool) → List ℕ → Lex → Lex
advance_loop test [] lex = lex
advance_loop test (c ∷ rest) lex =
    let more = advance_loop test rest (advanced c rest lex) in if test c then more else lex

abbrev pub advance_while : (ℕ → Bool) → Lex → Lex
advance_while test lex = advance_loop test lex.stream lex

-- `advance` of a character that `peek` has shown.
abbrev pub advance_one : List ℕ → Lex → Lex
advance_one [] lex = lex
advance_one (c ∷ rest) lex = advanced c rest lex

abbrev pub produce : TokenType → Lex → Next
produce typ lex =
    lexed (record { typ = typ; offset = lex.start_offset; byte_length = lex.current_length }) lex

-- The characters that are tokens by themselves.
abbrev pub single : ℕ → Option TokenType
single = first_match (
    (43, plus)
    ∷ (45, minus)
    ∷ (46, dot)
    ∷ (42, asterix)
    ∷ (58, colon)
    ∷ (59, semicolon)
    ∷ (44, comma)
    ∷ (40, left_paren)
    ∷ (41, right_paren)
    ∷ (123, left_brace)
    ∷ (125, right_brace)
    ∷ (63, question_mark)
    ∷ (94, caret)
    ∷ (47, slash)
    ∷ [])

-- The characters that a second one may follow: that one, the token of both, and of the first.
abbrev pub double : ℕ → Option (ℕ × TokenType × TokenType)
double = first_match (
    (61, (61, equals_equals, equals))
    ∷ (33, (61, bang_equals, bang))
    ∷ (60, (61, less_equal, less_than))
    ∷ (62, (61, greater_equal, greater_than))
    ∷ (38, (38, ampersand_ampersand, ampersand))
    ∷ (124, (124, pipe_pipe, pipe))
    ∷ [])

abbrev pub starts_with : ℕ → List ℕ → Bool
starts_with c [] = false
starts_with c (d ∷ rest) = d == c

unfoldable pub lex_double : ℕ → TokenType → TokenType → Lex → Next
lex_double second both one lex =
    if starts_with second lex.stream
    then produce both (advance_one lex.stream lex)
    else produce one lex

abbrev pub is_whitespace : ℕ → Bool
is_whitespace c = (c == 32) || (c == 9) || (c == 10) || (c == 13)

-- `char::is_digit`
abbrev pub is_digit : ℕ → ℕ → Bool
is_digit base c =
    if leb 48 c && leb c 57
    then ltb (c - 48) base
    else if leb 97 c && leb c 122
    then ltb (c - 87) base
    else if leb 65 c && leb c 90
    then ltb (c - 55) base
    else false

-- The base of a number, and whether a character is read for it.
abbrev pub number_base : ℕ → List ℕ → ℕ × Bool
number_base c stream =
    if (c == 48) && starts_with 120 stream
    then (16, true)
    else if starts_with 98 stream
    then (2, true)
    else if starts_with 111 stream
    then (8, true)
    else (10, false)

abbrev pub has_fraction : List ℕ → Bool
has_fraction [] = false
has_fraction (c ∷ []) = false
has_fraction (c ∷ d ∷ rest) = (c == 46) && is_digit 10 d

abbrev pub lex_fraction : ℕ → Lex → Next
lex_fraction base lex =
    if has_fraction lex.stream
    then (if base == 10
        then produce decimal (advance_while (is_digit 10) (advance_one lex.stream lex))
        else wrong no_floating_point_hex lex)
    else produce integer lex

unfoldable pub lex_number : ℕ → Lex → Next
lex_number c lex =
    let base = number_base c lex.stream in
    lex_fraction base.0
      (advance_while (is_digit base.0) (if base.1 then advance_one lex.stream lex else lex))

-- The quotes are trimmed off. At the end of the source `advance()?` ends the tokens.
abbrev pub close_string : List ℕ → Lex → Next
close_string [] lex = ended lex
close_string (c ∷ rest) lex =
    let l = advanced c rest lex in
    if ltb l.current_length 2
    then crash
    else produce string
        (record l { start_offset = l.start_offset + 1; current_length = l.current_length - 2 })

unfoldable pub lex_string : Lex → Next
lex_string lex = let l = advance_while (λ c. not (c == 34)) lex in close_string l.stream l

abbrev pub keyword : List (List ℕ × TokenType) → List ℕ → TokenType
keyword [] name = identifier
keyword ((text, typ) ∷ keywords) name = if name_eq name text then typ else keyword keywords name

abbrev pub keywords : List (List ℕ × TokenType)
keywords =
    (108 ∷ 101 ∷ 116 ∷ [], let_keyword)
    ∷ (105 ∷ 102 ∷ [], if_keyword)
    ∷ (101 ∷ 108 ∷ 115 ∷ 101 ∷ [], else_keyword)
    ∷ (102 ∷ 111 ∷ 114 ∷ [], for_keyword)
    ∷ (108 ∷ 111 ∷ 111 ∷ 112 ∷ [], loop_keyword)
    ∷ (119 ∷ 104 ∷ 105 ∷ 108 ∷ 101 ∷ [], while_keyword)
    ∷ (116 ∷ 114 ∷ 117 ∷ 101 ∷ [], true_keyword)
    ∷ (102 ∷ 97 ∷ 108 ∷ 115 ∷ 101 ∷ [], false_keyword)
    ∷ (114 ∷ 101 ∷ 116 ∷ 117 ∷ 114 ∷ 110 ∷ [], return_keyword)
    ∷ (102 ∷ 110 ∷ [], fn_keyword)
    ∷ (99 ∷ 108 ∷ 97 ∷ 115 ∷ 115 ∷ [], class_keyword)
    ∷ (115 ∷ 101 ∷ 108 ∷ 102 ∷ [], ginkgo_self)
    ∷ []

abbrev pub name_token : Outcome (List ℕ) → Lex → Next
name_token (done name) lex = produce (keyword keywords name) lex
name_token panic lex = crash

module _ (is_xid_start is_xid_continue : ℕ → Bool) where
  unfoldable pub lex_identifier : Lex → Next
  lex_identifier lex =
      let l = advance_while is_xid_continue lex in
      name_token (slice l.source l.start_offset l.current_length) l

  abbrev pub lex_literal : ℕ → Lex → Next
  lex_literal c lex =
      if is_digit 10 c
      then lex_number c lex
      else if c == 34
      then lex_string lex
      else if is_xid_start c || (c == 95)
      then lex_identifier lex
      else wrong (unexpected_char c) lex

  -- The `match` on a character that is no whitespace.
  unfoldable pub lex_char : ℕ → Lex → Next
  lex_char c lex = elim (single c) [
    | some typ ↦ produce typ lex
    | none ↦ elim (double c) [
      | some (second, both, one) ↦ lex_double second both one lex
      | none ↦ lex_literal c lex
    ]
  ]

  abbrev pub lex_loop : List ℕ → Lex → Next
  lex_loop [] lex = ended (record lex { start_offset = lex.offset; current_length = 0 })
  lex_loop (c ∷ rest) lex =
      let l = advanced c rest (record lex { start_offset = lex.offset; current_length = 0 }) in
      let more = lex_loop rest l in if is_whitespace c then more else lex_char c l

  unfoldable pub next_no_peeking : Lex → Next
  next_no_peeking lex = lex_loop lex.stream lex

  -- `Iterator::next`
  unfoldable pub next : Lex → Next
  next lex = elim lex.peek [
    | some token ↦ lexed token (record lex { peek = lex.peek_next; peek_next = none })
    | none ↦ next_no_peeking lex
  ]

  -- `peek`, and `peek_next`, which asserts that `peek` has been called.
  unfoldable pub peek : Lex → Peeked
  peek lex = elim lex.peek [
    | some token ↦ shown (some token) lex
    | none ↦ elim (next_no_peeking lex) [
      | ended l ↦ shown none (record l { peek = none })
      | lexed token l ↦ shown (some token) (record l { peek = some token })
      | wrong e l ↦ refused e (record l { peek = none })
      | crash ↦ panicked
    ]
  ]

  abbrev pub peek_second : Option Token → Lex → Peeked
  peek_second (some token) lex = shown (some token) lex
  peek_second none lex = elim (next_no_peeking lex) [
    | ended l ↦ shown none (record l { peek_next = none })
    | lexed token l ↦ shown (some token) (record l { peek_next = some token })
    | wrong e l ↦ refused e (record l { peek_next = none })
    | crash ↦ panicked
  ]

  unfoldable pub peek_next : Lex → Peeked
  peek_next lex = elim lex.peek [ none ↦ panicked | some first ↦ peek_second lex.peek_next lex ]

-- `usize::from_str_radix(text, base).unwrap()`: it panics at an empty text, at a character that is
-- no digit of the base, and above `usize`.
abbrev pub is_empty : List ℕ → Bool
is_empty [] = true
is_empty (c ∷ rest) = false

abbrev pub digit : ℕ → ℕ
digit c = if leb c 57 then c - 48 else if leb 97 c then c - 87 else c - 55

abbrev pub radix_loop : ℕ → ℕ → List ℕ → Outcome ℕ
radix_loop base value [] = done value
radix_loop base value (c ∷ rest) =
    let next_value = value * base + digit c in
    let more = radix_loop base next_value rest in
    if is_digit base c && ltb next_value (2 ^ 64) then more else panic

abbrev pub from_str_radix : ℕ → List ℕ → Outcome ℕ
from_str_radix base [] = panic
from_str_radix base (c ∷ rest) =
    if (c == 43) && not (is_empty rest)
    then radix_loop base 0 rest
    else radix_loop base 0 (c ∷ rest)

abbrev pub after_zero : ℕ → List ℕ → List ℕ → Outcome ℕ
after_zero d rest text =
    if d == 98
    then from_str_radix 2 rest
    else if d == 120
    then from_str_radix 16 rest
    else if d == 111
    then from_str_radix 8 rest
    else from_str_radix 10 text

unfoldable pub token_to_integer_literal : List ℕ → Outcome ℕ
token_to_integer_literal [] = panic
token_to_integer_literal (c ∷ []) = if c == 48 then panic else from_str_radix 10 (c ∷ [])
token_to_integer_literal (c ∷ d ∷ rest) =
    if c == 48 then after_zero d rest (c ∷ d ∷ rest) else from_str_radix 10 (c ∷ d ∷ rest)
