-- ===== src/Ginkgo/Lex/Laws/Examples.antt =====
-- The lexer of ginkgo/src/lex.rs at concrete inputs.
use poplar.Prelude.{
  ℕ, ◌+◌, ◌≡◌, refl, Bool, ◌&&◌, ◌||◌, Option, none, some, List, [], ◌∷◌, leb, ◌==◌, done, panic,
}
use poplar.Ginkgo.Lex.{
  Lex, Token, Next, ended, lexed, let_keyword, identifier, new, next_no_peeking, slice, integer,
  token_to_integer_literal, lex_char, lex_identifier, lex_number, next, peek, peek_next, shown,
}
use poplar.Ginkgo.Lex.Text.{Reads}
use poplar.Ginkgo.Lex.PeekingIter.{PeekingIter, IsValid, Peeks, peeking_lem}
use poplar.Ginkgo.Lex.Ahead.{hold, lookahead}
use poplar.Ginkgo.Lex.Laws.{next_no_peeking-Reads}

-- The two tables of the crate unicode_xid, for ASCII.
abbrev xid_start : ℕ → Bool
xid_start c = (leb 97 c && leb c 122) || (leb 65 c && leb c 90)

abbrev xid_continue : ℕ → Bool
xid_continue c = xid_start c || (leb 48 c && leb c 57) || (c == 95)

-- let x=="a"
abbrev text : List ℕ
text = 108 ∷ 101 ∷ 116 ∷ 32 ∷ 120 ∷ 61 ∷ 61 ∷ 34 ∷ 97 ∷ 34 ∷ []

abbrev token_of : Next → Option Token
token_of (ended lex) = none
token_of (lexed token lex) = some token
token_of r = none

-- A literal `0` has no value, nor has a digit with a base behind it.
zero_literal : token_to_integer_literal (48 ∷ []) ≡ panic
unfolding token_to_integer_literal
zero_literal = refl

base_literal :
    (token_of (next_no_peeking xid_start xid_continue (new (49 ∷ 98 ∷ 49 ∷ [])))
      ≡ some (record { typ = integer; offset = 0; byte_length = 3 }))
    × (token_to_integer_literal (49 ∷ 98 ∷ 49 ∷ []) ≡ panic)
unfolding next_no_peeking lex_char lex_number new token_to_integer_literal
base_literal = (refl, refl)

hex_literal : token_to_integer_literal (48 ∷ 120 ∷ 102 ∷ 70 ∷ []) ≡ done 255
unfolding token_to_integer_literal
hex_literal = refl

first_token :
    token_of (next_no_peeking xid_start xid_continue (new text))
    ≡ some (record { typ = let_keyword; offset = 0; byte_length = 3 })
unfolding next_no_peeking lex_char lex_identifier new slice
first_token = refl

next_no_peeking-Reads_example : Reads text 0 (next_no_peeking xid_start xid_continue (new text))
unfolding new
next_no_peeking-Reads_example =
    next_no_peeking-Reads xid_start xid_continue text (new text) ([], refl, refl, refl)

-- The lexer when it has read some bytes, the last of them a token.
abbrev read_to : List ℕ → ℕ → ℕ → Lex
read_to rest start size = record (new text) {
  stream = rest;
  offset = start + size;
  start_offset = start;
  current_length = size;
}

lookahead_example :
    (a b c : Lex) × (peek xid_start xid_continue (hold none none (new text))
      ≡ shown (some (record { typ = let_keyword; offset = 0; byte_length = 3 })) a)
    × (peek_next xid_start xid_continue a
        ≡ shown (some (record { typ = identifier; offset = 4; byte_length = 1 })) b)
    × (next xid_start xid_continue b
        ≡ lexed (record { typ = let_keyword; offset = 0; byte_length = 3 }) c)
    × (next xid_start xid_continue c
        ≡ lexed
            (record { typ = identifier; offset = 4; byte_length = 1 })
            (hold none none (read_to (61 ∷ 61 ∷ 34 ∷ 97 ∷ 34 ∷ []) 4 1)))
unfolding next next_no_peeking lex_char lex_identifier new slice
lookahead_example =
    lookahead xid_start xid_continue (new text)
      (read_to (32 ∷ 120 ∷ 61 ∷ 61 ∷ 34 ∷ 97 ∷ 34 ∷ []) 0 3)
      (read_to (61 ∷ 61 ∷ 34 ∷ 97 ∷ 34 ∷ []) 4 1)
      (record { typ = let_keyword; offset = 0; byte_length = 3 })
      (record { typ = identifier; offset = 4; byte_length = 1 }) refl refl

abbrev letters : PeekingIter ℕ
letters = record { inner = 98 ∷ 99 ∷ []; peek = some 97; peek_next = none }

peeking_lem_example : Peeks letters
unfolding IsValid
peeking_lem_example = peeking_lem letters tt
