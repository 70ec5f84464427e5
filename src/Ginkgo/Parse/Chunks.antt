-- ===== src/Ginkgo/Parse/Chunks.antt =====
-- The chunks that the parselets of ginkgo/src/parse.rs leave, as those of whole expressions.
use poplar.Prelude.{
  ◌+◌, ◌≡◌, refl, Bool, true, false, [], ◌∷◌, ◌++◌, length, length-append, if◌then◌else◌,
}
use poplar.Ginkgo.Value.{Chunk}
use poplar.Ginkgo.Opcode.{Opcode, as_u8}
use poplar.Ginkgo.Chunk
use poplar.Ginkgo.Lex.{Lex}
use poplar.Ginkgo.Parse.{Parser, parsed, emit}
use poplar.Ginkgo.Parse.Stream.{at}
use poplar.Ginkgo.Parse.Reference.{
  Operator, Expr, truth, negative, binary, opcode, literals, code, jump_over,
}
use poplar.Ginkgo.Parse.Emitted.{append_assoc, append-nil, extended}

pub emit_lem :
    (op : Opcode) (lex : Lex) (c : Chunk) (s : Parser)
    → emit op (at lex c s) ≡ parsed tt (at lex (record c { code = c.code ++ (as_u8 op ∷ []) }) s)
unfolding emit Chunk.emit Chunk.push
emit_lem op lex c s = refl

pub truth_lem :
    (b : Bool) (c : Chunk)
    → extended (truth b) c ≡ record c {
      code = c.code ++ (as_u8 (if b then Opcode.push_true else Opcode.push_false) ∷ []);
    }
unfolding code literals
truth_lem true c = rw (append-nil c.constants) refl
truth_lem false c = rw (append-nil c.constants) refl

pub negative_lem :
    (e : Expr) (c : Chunk)
    → record (extended e c) { code = (extended e c).code ++ (as_u8 Opcode.negate ∷ []) }
      ≡ extended (negative e) c
unfolding code literals
negative_lem e c =
    rw (append_assoc c.code (code e (length c.constants)) (as_u8 Opcode.negate ∷ [])) refl

pub binary_lem :
    (op : Operator) (l r : Expr) (c : Chunk)
    → record (extended r (extended l c)) {
      code = (extended r (extended l c)).code ++ (as_u8 (opcode op) ∷ []);
    }
      ≡ extended (binary op l r) c
unfolding code literals
binary_lem op l r c =
    let last = as_u8 (opcode op) ∷ [] in
    let base = length c.constants in
    rw
      (
        length-append c.constants (literals l),
        append_assoc c.constants (literals l) (literals r),
        append_assoc (c.code ++ code l base) (code r (base + length (literals l))) last,
        append_assoc c.code (code l base) (code r (base + length (literals l)) ++ last),
      )
      refl

-- An expression of which the code is that of its left part and a jump over its right part.
pub jumped_lem :
    (op : Opcode) (l r whole : Expr) (c : Chunk)
    → code whole (length c.constants)
      ≡ code l (length c.constants)
        ++ jump_over op (code r (length c.constants + length (literals l)))
    → literals whole ≡ literals l ++ literals r
    → record {
      code = (extended l c).code ++ jump_over op (code r (length (extended l c).constants));
      constants = (extended l c).constants ++ literals r;
    }
      ≡ extended whole c
jumped_lem op l r whole c bytes constants =
    let base = length c.constants in
    rw
      (
        bytes,
        constants,
        length-append c.constants (literals l),
        append_assoc c.constants (literals l) (literals r),
        append_assoc c.code (code l base) (jump_over op (code r (base + length (literals l)))),
      )
      refl
