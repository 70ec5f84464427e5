-- ===== src/Ginkgo/Parse/Placed.antt =====
-- Parts of the code and the constants of a chunk of ginkgo/src/vm.rs, and where they stand.
use poplar.Prelude.{ℕ, ◌+◌, ◌≡◌, sym, ap, ◌∙◌, List, [], ◌++◌, length, length-append, arith}
use poplar.Ginkgo.Value.{Value, Chunk}
use poplar.Ginkgo.Parse.Emitted.{append_assoc}

-- Where some code and its constants stand in a chunk.
pub record Placed (c : Chunk) (part : List ℕ) (constants : List Value) (base ip : ℕ) : Type 0 where
  pub pre : List ℕ
  pub post : List ℕ
  pub before : List Value
  pub after : List Value
  pub code_lem : c.code ≡ pre ++ (part ++ post)
  pub constants_lem : c.constants ≡ before ++ (constants ++ after)
  pub base_lem : base ≡ length before
  pub place : ip ≡ length pre

-- The first and the second part of some code.
pub left_part :
    (c : Chunk) (l r : List ℕ) (ls rs : List Value) (base ip : ℕ)
    → Placed c (l ++ r) (ls ++ rs) base ip
    → Placed c l ls base ip
left_part c l r ls rs base ip h = record {
  pre = h.pre;
  post = r ++ h.post;
  before = h.before;
  after = rs ++ h.after;
  code_lem = h.code_lem ∙ ap (λ s. h.pre ++ s) (append_assoc l r h.post);
  constants_lem = h.constants_lem ∙ ap (λ s. h.before ++ s) (append_assoc ls rs h.after);
  base_lem = h.base_lem;
  place = h.place;
}

pub right_part :
    (c : Chunk) (l r : List ℕ) (ls rs : List Value) (base ip : ℕ)
    → Placed c (l ++ r) (ls ++ rs) base ip
    → Placed c r rs (base + length ls) (ip + length l)
right_part c l r ls rs base ip h = record {
  pre = h.pre ++ l;
  post = h.post;
  before = h.before ++ ls;
  after = h.after;
  code_lem =
      h.code_lem
      ∙ ap (λ s. h.pre ++ s) (append_assoc l r h.post)
      ∙ sym (append_assoc h.pre l (r ++ h.post));
  constants_lem =
      h.constants_lem
      ∙ ap (λ s. h.before ++ s) (append_assoc ls rs h.after)
      ∙ sym (append_assoc h.before ls (rs ++ h.after));
  base_lem = let size = length-append h.before ls in let b = h.base_lem in omega (arith, size, b);
  place = let size = length-append h.pre l in let p = h.place in omega (arith, size, p);
}

-- Code without constants behind code with all of them.
pub last_part :
    (c : Chunk) (l r : List ℕ) (ls : List Value) (base ip : ℕ)
    → Placed c (l ++ r) ls base ip
    → Placed c (l ++ r) (ls ++ []) base ip
last_part c l r ls base ip h = record {
  pre = h.pre;
  post = h.post;
  before = h.before;
  after = h.after;
  code_lem = h.code_lem;
  constants_lem = h.constants_lem ∙ ap (λ s. h.before ++ s) (sym (append_assoc ls [] h.after));
  base_lem = h.base_lem;
  place = h.place;
}

-- Code behind some bytes that use no constants.
pub after_bytes :
    (c : Chunk) (bytes r : List ℕ) (rs : List Value) (base ip : ℕ)
    → Placed c (bytes ++ r) rs base ip
    → Placed c r rs base (ip + length bytes)
after_bytes c bytes r rs base ip h =
    let h' = right_part c bytes r [] rs base ip h in
    record {
      pre = h'.pre;
      post = h'.post;
      before = h.before;
      after = h.after;
      code_lem = h'.code_lem;
      constants_lem = h.constants_lem;
      base_lem = h.base_lem;
      place = h'.place;
    }
