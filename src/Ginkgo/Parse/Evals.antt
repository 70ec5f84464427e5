-- ===== src/Ginkgo/Parse/Evals.antt =====
-- The values of the expressions of Ginkgo/Parse/Reference, and the machine's steps on their code.
use poplar.Prelude.{
  ℕ, ◌+◌, ◌/◌, ◌%◌, ◌^◌, ◌<◌, ◌≡◌, refl, sym, ap, ◌∙◌, Bool, true, false, none, some, List, [], ◌∷◌,
  ◌++◌, length, length-append, get_elem?, if◌then◌else◌, done, arith,
}
use poplar.Ginkgo.Integer.{ℤ, of_word, negate, add_signed}
use poplar.Ginkgo.Value.{Value, integer, bool, Chunk, Heap}
use poplar.Ginkgo.Opcode.{Opcode, as_u8}
use poplar.Ginkgo.Opcode.Laws.{read_back}
use poplar.Ginkgo.Vm.{
  Vm, running, failed, invalid_opcode_in_stream, step, execute, binary_op, do_binary_op, do_negate,
}
use poplar.Ginkgo.Vm.Jumps.{Jump, op_of, taken, jump_lem, forward_bytes, add_forward}
use poplar.Ginkgo.Vm.Reaches.{on, fetch}
use poplar.Ginkgo.Parse.Reference.{
  Operator, plus, minus, times, over, bit_and, bit_or, bit_xor, equal, not_equal, greater,
  greater_equal, less, less_equal, Expr, number, truth, negative, grouped, binary, both, either,
  opcode, jump_over,
}
use poplar.Ginkgo.Parse.Emitted.{append_assoc}

module _ (heap : Heap) where
  -- An expression has a value: `&&` and `||` look at their right operand only if they need it.
  pub data Evals : Expr → Value → Type 0 where
    number_value : (text : List ℕ) (n : ℕ) → Evals (number text n) (integer (of_word n))
    truth_value : (b : Bool) → Evals (truth b) (bool b)
    negative_value :
        {e : Expr} {i j : ℤ}
        → Evals e (integer i)
        → negate i ≡ done j
        → Evals (negative e) (integer j)
    grouped_value : {e : Expr} {v : Value} → Evals e v → Evals (grouped e) v
    binary_value :
        {op : Operator} {l r : Expr} {a b v : Value}
        → Evals l a
        → Evals r b
        → binary_op heap (opcode op) a b ≡ done v
        → Evals (binary op l r) v
    both_false : {l r : Expr} → Evals l (bool false) → Evals (both l r) (bool false)
    both_true : {l r : Expr} {v : Value} → Evals l (bool true) → Evals r v → Evals (both l r) v
    either_true : {l r : Expr} → Evals l (bool true) → Evals (either l r) (bool true)
    either_false :
        {l r : Expr} {v : Value} → Evals l (bool false) → Evals r v → Evals (either l r) v

  -- A run of the loop at an opcode's byte executes the opcode.
  pub step-execute :
      (op : Opcode) (vm : Vm)
      → get_elem? vm.chunk.code vm.ip ≡ some (as_u8 op)
      → step heap vm ≡ execute heap op (record vm { ip = vm.ip + 1 })
  unfolding step
  step-execute op vm e =
      let vm' = record vm { ip = vm.ip + 1 } in
      rw (e) (
        ap
          (λ o. elim o [
            | none ↦ failed (invalid_opcode_in_stream (as_u8 op)) vm'
            | some op' ↦ execute heap op' vm'
          ])
          (read_back op).0)

  binary_executes :
      (op : Operator) (vm : Vm) → execute heap (opcode op) vm ≡ do_binary_op heap (opcode op) vm
  unfolding execute
  binary_executes plus vm = refl
  binary_executes minus vm = refl
  binary_executes times vm = refl
  binary_executes over vm = refl
  binary_executes bit_and vm = refl
  binary_executes bit_or vm = refl
  binary_executes bit_xor vm = refl
  binary_executes equal vm = refl
  binary_executes not_equal vm = refl
  binary_executes greater vm = refl
  binary_executes greater_equal vm = refl
  binary_executes less vm = refl
  binary_executes less_equal vm = refl

  module _ (vm : Vm) (c : Chunk) (pre : List ℕ) (ip : ℕ) (place : ip ≡ length pre)
      (stack : List Value) where
    pub constant-step :
        (index : ℕ) (v : Value) (post : List ℕ)
        → c.code ≡ pre ++ (as_u8 Opcode.constant ∷ index ∷ post)
        → get_elem? c.constants index ≡ some v
        → step heap (on c ip stack vm) ≡ running (on c (ip + 2) (v ∷ stack) vm)
    unfolding step execute
    constant-step index v post e known =
        let op = fetch c.code pre (index ∷ post) (as_u8 Opcode.constant) ip e place in
        let e' = e ∙ sym (append_assoc pre (as_u8 Opcode.constant ∷ []) (index ∷ post)) in
        let operand =
          fetch c.code (pre ++ (as_u8 Opcode.constant ∷ [])) post index (ip + 1) e'
            (omega (arith, place, length-append pre (as_u8 Opcode.constant ∷ []))) in
        let two : ip + 1 + 1 ≡ ip + 2 = omega arith in rw (op, operand, known, two) refl

    pub truth_step :
        (b : Bool) (post : List ℕ)
        → c.code ≡ pre ++ (as_u8 (if b then Opcode.push_true else Opcode.push_false) ∷ post)
        → step heap (on c ip stack vm) ≡ running (on c (ip + 1) (bool b ∷ stack) vm)
    unfolding step execute
    truth_step true post e = rw (fetch c.code pre post (as_u8 Opcode.push_true) ip e place) refl
    truth_step false post e = rw (fetch c.code pre post (as_u8 Opcode.push_false) ip e place) refl

    pub pop-step :
        (v : Value) (post : List ℕ)
        → c.code ≡ pre ++ (as_u8 Opcode.pop ∷ post)
        → step heap (on c ip (v ∷ stack) vm) ≡ running (on c (ip + 1) stack vm)
    unfolding step execute
    pop-step v post e = rw (fetch c.code pre post (as_u8 Opcode.pop) ip e place) refl

    pub negate-step :
        (i j : ℤ) (post : List ℕ)
        → c.code ≡ pre ++ (as_u8 Opcode.negate ∷ post)
        → negate i ≡ done j
        → step heap (on c ip (integer i ∷ stack) vm)
          ≡ running (on c (ip + 1) (integer j ∷ stack) vm)
    unfolding step execute do_negate
    negate-step i j post e known =
        rw (fetch c.code pre post (as_u8 Opcode.negate) ip e place, known) refl

    pub binary_step :
        (op : Operator) (a b v : Value) (post : List ℕ)
        → c.code ≡ pre ++ (as_u8 (opcode op) ∷ post)
        → binary_op heap (opcode op) a b ≡ done v
        → step heap (on c ip (b ∷ (a ∷ stack)) vm) ≡ running (on c (ip + 1) (v ∷ stack) vm)
    unfolding do_binary_op
    binary_step op a b v post e known =
        step-execute (opcode op) (on c ip (b ∷ (a ∷ stack)) vm)
          (fetch c.code pre post (as_u8 (opcode op)) ip e place)
        ∙ binary_executes op (on c (ip + 1) (b ∷ (a ∷ stack)) vm)
        ∙ rw (known) refl

    pub jump_step :
        (j : Jump) (b : Bool) (more post : List ℕ)
        → c.code ≡ pre ++ (jump_over (op_of j) more ++ post)
        → length more + 1 < 2 ^ 15
        → ip + 3 + (length more + 1) < 2 ^ 64
        → step heap (on c ip (bool b ∷ stack) vm)
          ≡ running
              (on c (if taken j b then ip + 3 + (length more + 1) else ip + 3) (bool b ∷ stack) vm)
    jump_step j b more post e short fits =
        let d = length more + 1 in
        let op = as_u8 (op_of j) in
        let b0 = d % 256 in
        let b1 = d / 256 in
        let rest = as_u8 Opcode.pop ∷ (more ++ post) in
        let first = fetch c.code pre (b0 ∷ b1 ∷ rest) op ip e place in
        let second =
          fetch c.code (pre ++ (op ∷ [])) (b1 ∷ rest) b0 (ip + 1)
            (e ∙ sym (append_assoc pre (op ∷ []) (b0 ∷ b1 ∷ rest)))
            (omega (arith, place, length-append pre (op ∷ []))) in
        let third =
          fetch c.code (pre ++ (op ∷ b0 ∷ [])) rest b1 (ip + 1 + 1)
            (e ∙ sym (append_assoc pre (op ∷ b0 ∷ []) (b1 ∷ rest)))
            (omega (arith, place, length-append pre (op ∷ b0 ∷ []))) in
        let ends : ip + 1 + 1 + 1 + d ≡ ip + 3 + d = omega arith in
        let lands =
          ap (add_signed (ip + 1 + 1 + 1)) (forward_bytes d short)
          ∙ add_forward (ip + 1 + 1 + 1) d (omega (arith, fits))
          ∙ ap done ends in
        jump_lem heap j c ip b0 b1 (ip + 3 + d) (on c ip (bool b ∷ stack) vm) b stack refl first
          second third lands
