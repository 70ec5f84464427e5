-- ===== src/Ginkgo/Vm/Jumps.antt =====
-- Jumps that the emitters of ginkgo/src/parse.rs write, run by the machine.
use poplar.Prelude.{
  ℕ, zero, suc, ◌+◌, ◌-◌, ◌/◌, ◌%◌, ◌^◌, ◌≤◌, ◌<◌, ◌≡◌, sym, ◌∙◌, ap, refl, Bool, true, false, not,
  some, List, [], ◌∷◌, ◌++◌, length, set, get_elem?, length-append, length-set, get_elem?-set_self,
  get_elem?-set_ne, if◌then◌else◌, done, arith,
}
use poplar.Ginkgo.Integer.{pos, negsuc, difference_bytes, from_le_bytes, add_signed}
use poplar.Ginkgo.Value.{Value, bool, Chunk, Heap}
use poplar.Ginkgo.Opcode.{Opcode, as_u8}
use poplar.Ginkgo.Chunk.{emit_jump, emit_jump_to, emit, push, patch_jump, write_code}
use poplar.Ginkgo.Vm.{Vm, running, step, execute}

module _ {A : Type 0} where
  pub get_elem?-append_left :
      (xs ys : List A) (i : ℕ) → i < length xs → get_elem? (xs ++ ys) i ≡ get_elem? xs i
  get_elem?-append_left [] ys i h = elim h [ ]
  get_elem?-append_left (x ∷ xs) ys zero h = refl
  get_elem?-append_left (x ∷ xs) ys (suc i) h = get_elem?-append_left xs ys i (omega arith)

  pub get_elem?-append_at :
      (xs ys : List A) (y : A) → get_elem? (xs ++ (y ∷ ys)) (length xs) ≡ some y
  get_elem?-append_at [] ys y = refl
  get_elem?-append_at (x ∷ xs) ys y = get_elem?-append_at xs ys y

-- The machine at a place in some code.
abbrev pub at : Chunk → ℕ → Vm → Vm
at chunk ip vm = record vm { chunk = chunk; ip = ip }

-- Code with more behind it.
abbrev pub followed : Chunk → List ℕ → Chunk
followed c more = record c { code = c.code ++ more }

pub forward_bytes : (d : ℕ) → d < 2 ^ 15 → from_le_bytes (d % 256) (d / 256) ≡ pos d
unfolding from_le_bytes
forward_bytes d h = ground arith

backward_bytes :
    (d : ℕ)
    → d < 2 ^ 15
    → from_le_bytes ((2 ^ 16 - suc d) % 256) ((2 ^ 16 - suc d) / 256) ≡ negsuc d
unfolding from_le_bytes
backward_bytes d h = ground arith

pub data Jump : Type 0 where
  always when_true when_false : Jump

abbrev pub op_of : Jump → Opcode
op_of always = Opcode.jump
op_of when_true = Opcode.jump_if_true
op_of when_false = Opcode.jump_if_false

pub difference_lem :
    (a b d : ℕ) → a ≡ b + d → d < 2 ^ 15 → difference_bytes a b ≡ done (d % 256, d / 256)
unfolding difference_bytes
difference_lem a b d e h = let e' : a - b ≡ d = omega (arith, e) in ground (arith, e')

backward_lem :
    (a b d : ℕ)
    → a + suc d ≡ b
    → d < 2 ^ 15
    → difference_bytes a b ≡ done ((2 ^ 16 - suc d) % 256, (2 ^ 16 - suc d) / 256)
unfolding difference_bytes
backward_lem a b d e h = let e' : b - a ≡ suc d = omega (arith, e) in ground (arith, e')

pub add_forward : (ip d : ℕ) → ip + d < 2 ^ 64 → add_signed ip (pos d) ≡ done (ip + d)
unfolding add_signed
add_forward ip d h = ground arith

add_backward : (ip d : ℕ) → d < ip → add_signed ip (negsuc d) ≡ done (ip - suc d)
unfolding add_signed
add_backward ip d h = ground arith

pub write_code_lem :
    (index byte : ℕ) (c : Chunk)
    → index < length c.code
    → write_code index byte c ≡ done (record c { code = set c.code index byte })
write_code_lem index byte c h = ground arith

-- Whether a jump is taken, by the value on top of the stack.
abbrev pub taken : Jump → Bool → Bool
taken always b = true
taken when_true b = b
taken when_false b = not b

module _ (heap : Heap) where
  -- A jump whose bytes are at its place.
  pub jump_lem :
      (j : Jump) (chunk : Chunk) (ip b0 b1 target : ℕ) (vm : Vm) (b : Bool) (rest : List Value)
      → vm.stack ≡ bool b ∷ rest
      → get_elem? chunk.code ip ≡ some (as_u8 (op_of j))
      → get_elem? chunk.code (ip + 1) ≡ some b0
      → get_elem? chunk.code (ip + 1 + 1) ≡ some b1
      → add_signed (ip + 1 + 1 + 1) (from_le_bytes b0 b1) ≡ done target
      → step heap (at chunk ip vm) ≡ running (at chunk (if taken j b then target else ip + 3) vm)
  unfolding step execute
  jump_lem always chunk ip b0 b1 target vm b rest top e e0 e1 lands = rw (e, e0, e1, lands) refl
  jump_lem when_true chunk ip b0 b1 target vm true rest top e e0 e1 lands =
      rw (e, e0, e1, top, lands) refl
  jump_lem when_true chunk ip b0 b1 target vm false rest top e e0 e1 lands =
      let third : ip + 1 + 1 + 1 ≡ ip + 3 = omega arith in rw (e, e0, e1, top, third) refl
  jump_lem when_false chunk ip b0 b1 target vm true rest top e e0 e1 lands =
      let third : ip + 1 + 1 + 1 ≡ ip + 3 = omega arith in rw (e, e0, e1, top, third) refl
  jump_lem when_false chunk ip b0 b1 target vm false rest top e e0 e1 lands =
      rw (e, e0, e1, top, lands) refl

  -- A forward jump that is emitted, given the code that it jumps over, and patched: when it is run,
  -- whatever code follows, it goes to the end of the code it was patched at, if the value on the
  -- stack is one that it is taken for, and else to the byte after it. The stack stays as it is.
  pub forward_jump :
      (j : Jump) (c : Chunk) (more tail : List ℕ) (vm : Vm) (b : Bool) (rest : List Value)
      → length more < 2 ^ 15
      → length c.code + 3 + length more < 2 ^ 64
      → vm.stack ≡ bool b ∷ rest
      → (patched : Chunk) × (patch_jump
            (emit_jump (op_of j) c).0
            (followed (emit_jump (op_of j) c).1 more)
          ≡ done patched)
        × (length patched.code ≡ length c.code + 3 + length more)
        × (step heap (at (followed patched tail) (length c.code) vm)
            ≡ running (
                at
                  (followed patched tail)
                  (if taken j b then length patched.code else length c.code + 3)
                  vm))
  unfolding patch_jump emit_jump emit push difference_bytes
  forward_jump j c more tail vm b rest short fits top =
      let op = as_u8 (op_of j) in
      let code0 = (((c.code ++ (op ∷ [])) ++ (0 ∷ [])) ++ (0 ∷ [])) ++ more in
      let d = length more in
      let operand = length (c.code ++ (op ∷ [])) in
      let b0 = d % 256 in
      let b1 = d / 256 in
      let code1 = set code0 operand b0 in
      let code2 = set code1 (operand + 1) b1 in
      let place : operand ≡ length c.code + 1 = omega (arith, length-append c.code (op ∷ [])) in
      let size : length code0 ≡ length c.code + 3 + d = omega (
        arith,
        length-append (((c.code ++ (op ∷ [])) ++ (0 ∷ [])) ++ (0 ∷ [])) more,
        length-append ((c.code ++ (op ∷ [])) ++ (0 ∷ [])) (0 ∷ []),
        length-append (c.code ++ (op ∷ [])) (0 ∷ []),
        place,
      ) in
      let size1 : length code1 ≡ length code0 = length-set code0 operand b0 in
      let size2 : length code2 ≡ length code0 = length-set code1 (operand + 1) b1 ∙ size1 in
      let patch =
        difference_lem (length code0) (operand + 2) d (omega (arith, size, place)) short in
      let write0 =
        write_code_lem operand b0 (record c { code = code0 }) (omega (arith, size, place)) in
      let write1 =
        write_code_lem (operand + 1) b1 (record c { code = code1 })
          (omega (arith, size, size1, place)) in
      let c1 = c.code ++ (op ∷ []) in
      let n1 = length-append c1 (0 ∷ []) in
      let n2 = length-append (c1 ++ (0 ∷ [])) (0 ∷ []) in
      let first : get_elem? (code2 ++ tail) (length c.code) ≡ some op =
        get_elem?-append_left code2 tail (length c.code) (omega (arith, size2, size))
        ∙ get_elem?-set_ne code1 (operand + 1) (length c.code) b1
            (λ e. absurd (omega (arith, e, place)))
        ∙ get_elem?-set_ne code0 operand (length c.code) b0 (λ e. absurd (omega (arith, e, place)))
        ∙ get_elem?-append_left ((c1 ++ (0 ∷ [])) ++ (0 ∷ [])) more (length c.code)
            (omega (arith, n1, n2, place))
        ∙ get_elem?-append_left (c1 ++ (0 ∷ [])) (0 ∷ []) (length c.code) (omega (arith, n1, place))
        ∙ get_elem?-append_left c1 (0 ∷ []) (length c.code) (omega (arith, place))
        ∙ get_elem?-append_at c.code [] op in
      let second : get_elem? (code2 ++ tail) (length c.code + 1) ≡ some b0 =
        ap (get_elem? (code2 ++ tail)) (sym place)
        ∙ get_elem?-append_left code2 tail operand (omega (arith, size2, size, place))
        ∙ get_elem?-set_ne code1 (operand + 1) operand b1 (λ e. absurd (omega (arith, e)))
        ∙ get_elem?-set_self code0 operand b0 (omega (arith, size, place)) in
      let third : get_elem? (code2 ++ tail) (length c.code + 1 + 1) ≡ some b1 =
        ap (λ i. get_elem? (code2 ++ tail) (i + 1)) (sym place)
        ∙ get_elem?-append_left code2 tail (operand + 1) (omega (arith, size2, size, place))
        ∙ get_elem?-set_self code1 (operand + 1) b1 (omega (arith, size1, size, place)) in
      let lands : add_signed (length c.code + 1 + 1 + 1) (from_le_bytes b0 b1)
          ≡ done (length code2) =
        ap (add_signed (length c.code + 1 + 1 + 1)) (forward_bytes d short)
        ∙ add_forward (length c.code + 1 + 1 + 1) d (omega (arith, fits))
        ∙ ap done (omega (arith, size2, size)) in
      (
        record c { code = code2 },
        rw (patch, write0, write1) refl,
        size2 ∙ size,
        jump_lem j (followed (record c { code = code2 }) tail) (length c.code) b0 b1 (length code2)
            vm b rest top first second third lands,
      )

  -- A jump back, emitted to a target in the code that there is: when it is run, whatever code
  -- follows, it goes to the target, if the value on the stack is one that it is taken for, and
  -- else to the byte after it. The stack stays as it is. The code before the jump, with the jump, is
  -- at most 2^15 bytes from the target on.
  pub backward_jump :
      (j : Jump) (c : Chunk) (target : ℕ) (tail : List ℕ) (vm : Vm) (b : Bool) (rest : List Value)
      → target ≤ length c.code
      → length c.code + 3 ≤ target + 2 ^ 15
      → vm.stack ≡ bool b ∷ rest
      → (written : Chunk) × (emit_jump_to (op_of j) target c ≡ done written)
        × (length written.code ≡ length c.code + 3)
        × (step heap (at (followed written tail) (length c.code) vm)
            ≡ running
                (at (followed written tail) (if taken j b then target else length c.code + 3) vm))
  unfolding emit_jump_to emit push
  backward_jump j c target tail vm b rest low short top =
      let op = as_u8 (op_of j) in
      let d = length c.code + 2 - target in
      let w = 2 ^ 16 - suc d in
      let b0 = w % 256 in
      let b1 = w / 256 in
      let c1 = c.code ++ (op ∷ []) in
      let c2 = c1 ++ (b0 ∷ []) in
      let c3 = c2 ++ (b1 ∷ []) in
      let n1 = length-append c.code (op ∷ []) in
      let n2 = length-append c1 (b0 ∷ []) in
      let n3 = length-append c2 (b1 ∷ []) in
      let size : length c3 ≡ length c.code + 3 = omega (arith, n1, n2, n3) in
      let bytes =
        backward_lem target (length c1 + 2) d (omega (arith, n1, low))
          (omega (arith, low, short)) in
      let first : get_elem? (c3 ++ tail) (length c.code) ≡ some op =
        get_elem?-append_left c3 tail (length c.code) (omega (arith, size))
        ∙ get_elem?-append_left c2 (b1 ∷ []) (length c.code) (omega (arith, n1, n2))
        ∙ get_elem?-append_left c1 (b0 ∷ []) (length c.code) (omega (arith, n1))
        ∙ get_elem?-append_at c.code [] op in
      let second : get_elem? (c3 ++ tail) (length c.code + 1) ≡ some b0 =
        get_elem?-append_left c3 tail (length c.code + 1) (omega (arith, size))
        ∙ get_elem?-append_left c2 (b1 ∷ []) (length c.code + 1) (omega (arith, n1, n2))
        ∙ ap (get_elem? c2) (omega (arith, n1))
        ∙ get_elem?-append_at c1 [] b0 in
      let third : get_elem? (c3 ++ tail) (length c.code + 1 + 1) ≡ some b1 =
        get_elem?-append_left c3 tail (length c.code + 1 + 1) (omega (arith, size))
        ∙ ap (get_elem? c3) (omega (arith, n1, n2))
        ∙ get_elem?-append_at c2 [] b1 in
      let lands : add_signed (length c.code + 1 + 1 + 1) (from_le_bytes b0 b1) ≡ done target =
        ap (add_signed (length c.code + 1 + 1 + 1)) (backward_bytes d (omega (arith, low, short)))
        ∙ add_backward (length c.code + 1 + 1 + 1) d (omega (arith, low))
        ∙ ap done (omega (arith, low)) in
      (
        record c { code = c3 },
        rw (bytes) refl,
        size,
        jump_lem j (followed (record c { code = c3 }) tail) (length c.code) b0 b1 target vm b rest
            top first second third lands,
      )
