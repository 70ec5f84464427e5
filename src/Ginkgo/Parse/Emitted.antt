-- ===== src/Ginkgo/Parse/Emitted.antt =====
-- What the emitters that ginkgo/src/parse.rs calls add to a chunk, as lists.
use poplar.Prelude.{
  ℕ, suc, ◌+◌, ◌/◌, ◌%◌, ◌^◌, ◌<◌, ◌≡◌, refl, ap, ◌∙◌, true, false, List, [], ◌∷◌, ◌++◌, length,
  set, length-append, done, arith,
}
use poplar.Ginkgo.Value.{Value, Chunk}
use poplar.Ginkgo.Opcode.{Opcode, as_u8}
use poplar.Ginkgo.Chunk
use poplar.Ginkgo.Vm.Jumps.{difference_lem, write_code_lem}
use poplar.Ginkgo.Parse.Reference.{
  Expr, number, truth, negative, grouped, binary, both, either, code, literals, jump_over, opcode,
}

module _ {A : Type 0} where
  pub append_assoc : (xs ys zs : List A) → (xs ++ ys) ++ zs ≡ xs ++ (ys ++ zs)
  append_assoc [] ys zs = refl
  append_assoc (x ∷ xs) ys zs = ap (λ s. x ∷ s) (append_assoc xs ys zs)

  pub append-nil : (xs : List A) → xs ++ [] ≡ xs
  append-nil [] = refl
  append-nil (x ∷ xs) = ap (λ s. x ∷ s) (append-nil xs)

  set-append :
      (xs ys : List A) (i : ℕ) (v : A) → set (xs ++ ys) (length xs + i) v ≡ xs ++ set ys i v
  set-append [] ys i v = let at_start : 0 + i ≡ i = omega arith in rw (at_start) refl
  set-append (x ∷ xs) ys i v =
      let further : suc (length xs) + i ≡ suc (length xs + i) = omega arith in
      rw (further) (ap (λ s. x ∷ s) (set-append xs ys i v))

-- The chunk with an expression's code and constants behind its own.
abbrev pub extended : Expr → Chunk → Chunk
extended e c = record {
  code = c.code ++ code e (length c.constants);
  constants = c.constants ++ literals e;
}

-- The length of the code does not depend on where the constants begin.
pub length-code : (e : Expr) (a b : ℕ) → length (code e a) ≡ length (code e b)
unfolding code
length-code (number text value) a b = refl
length-code (truth true) a b = refl
length-code (truth false) a b = refl
length-code (negative e) a b =
    let ih = length-code e a b in
    omega (
      arith,
      ih,
      length-append (code e a) (as_u8 Opcode.negate ∷ []),
      length-append (code e b) (as_u8 Opcode.negate ∷ []),
    )
length-code (grouped e) a b = length-code e a b
length-code (binary op l r) a b =
    let n = length (literals l) in
    let il = length-code l a b in
    let ir = length-code r (a + n) (b + n) in
    let last = as_u8 (opcode op) ∷ [] in
    omega (
      arith,
      il,
      ir,
      length-append (code l a) (code r (a + n) ++ last),
      length-append (code l b) (code r (b + n) ++ last),
      length-append (code r (a + n)) last,
      length-append (code r (b + n)) last,
    )
length-code (both l r) a b =
    let n = length (literals l) in
    let il = length-code l a b in
    let ir = length-code r (a + n) (b + n) in
    omega (
      arith,
      il,
      ir,
      length-append (code l a) (jump_over Opcode.jump_if_false (code r (a + n))),
      length-append (code l b) (jump_over Opcode.jump_if_false (code r (b + n))),
    )
length-code (either l r) a b =
    let n = length (literals l) in
    let il = length-code l a b in
    let ir = length-code r (a + n) (b + n) in
    omega (
      arith,
      il,
      ir,
      length-append (code l a) (jump_over Opcode.jump_if_true (code r (a + n))),
      length-append (code l b) (jump_over Opcode.jump_if_true (code r (b + n))),
    )

-- The code of a jump that is emitted and patched behind some code, with a `Pop` and more code over
-- which it jumps.
abbrev pub unpatched : List ℕ → Opcode → List ℕ → List ℕ
unpatched pre op more =
    ((((pre ++ (as_u8 op ∷ [])) ++ (0 ∷ [])) ++ (0 ∷ [])) ++ (as_u8 Opcode.pop ∷ [])) ++ more

unpatched_lem :
    (pre more : List ℕ) (op : Opcode)
    → unpatched pre op more ≡ pre ++ (as_u8 op ∷ 0 ∷ 0 ∷ as_u8 Opcode.pop ∷ more)
unpatched_lem pre more op =
    let c1 = pre ++ (as_u8 op ∷ []) in
    append_assoc ((c1 ++ (0 ∷ [])) ++ (0 ∷ [])) (as_u8 Opcode.pop ∷ []) more
    ∙ append_assoc (c1 ++ (0 ∷ [])) (0 ∷ []) (as_u8 Opcode.pop ∷ more)
    ∙ append_assoc c1 (0 ∷ []) (0 ∷ as_u8 Opcode.pop ∷ more)
    ∙ append_assoc pre (as_u8 op ∷ []) (0 ∷ 0 ∷ as_u8 Opcode.pop ∷ more)

pub patch_lem :
    (pre more : List ℕ) (constants : List Value) (op : Opcode)
    → length more + 1 < 2 ^ 15
    → Chunk.patch_jump
        (length (pre ++ (as_u8 op ∷ [])))
        (record { code = unpatched pre op more; constants = constants })
      ≡ done (record { code = pre ++ jump_over op more; constants = constants })
unfolding Chunk.patch_jump
patch_lem pre more constants op short =
    let d = length more + 1 in
    let b0 = d % 256 in
    let b1 = d / 256 in
    let operand : length (pre ++ (as_u8 op ∷ [])) ≡ length pre + 1 =
      omega (arith, length-append pre (as_u8 op ∷ [])) in
    let gap = as_u8 op ∷ 0 ∷ 0 ∷ as_u8 Opcode.pop ∷ more in
    let size = length-append pre gap in
    let half = as_u8 op ∷ b0 ∷ 0 ∷ as_u8 Opcode.pop ∷ more in
    let half_size = length-append pre half in
    let bytes =
      difference_lem (length (pre ++ gap)) (length pre + 1 + 2) d (omega (arith, size)) short in
    let write0 =
      write_code_lem (length pre + 1) b0 (record { code = pre ++ gap; constants = constants })
        (omega (arith, size)) in
    let set0 = set-append pre gap 1 b0 in
    let write1 =
      write_code_lem (length pre + 1 + 1) b1 (record { code = pre ++ half; constants = constants })
        (omega (arith, half_size)) in
    let two : length pre + 1 + 1 ≡ length pre + 2 = omega arith in
    let set1 = ap (λ i. set (pre ++ half) i b1) two ∙ set-append pre half 2 b1 in
    rw (unpatched_lem pre more op, operand, bytes, write0, set0, write1, set1) refl
