-- ===== src/Ginkgo/Parse/Runs.antt =====
-- The bytecode of an expression of Ginkgo/Parse/Reference, run by the machine.
use poplar.Prelude.{
  ℕ, ◌+◌, ◌/◌, ◌%◌, ◌^◌, ◌≤◌, ◌<◌, ◌≡◌, refl, ap, ◌∙◌, Bool, true, false, List, [], ◌∷◌, ◌++◌,
  length, length-append, if◌then◌else◌, done, arith,
}
use poplar.Ginkgo.Integer.{ℤ, of_word, negate}
use poplar.Ginkgo.Value.{Value, integer, bool, Chunk, Heap}
use poplar.Ginkgo.Opcode.{Opcode, as_u8}
use poplar.Ginkgo.Vm.{Vm, step, running, binary_op}
use poplar.Ginkgo.Vm.Jumps.{Jump, when_true, when_false, op_of, taken}
use poplar.Ginkgo.Vm.Reaches.{on, fetch, Reaches, one, then_reaches, reaches_place}
use poplar.Ginkgo.Parse.Reference.{
  Operator, Expr, number, truth, negative, grouped, binary, both, either, opcode, level, jump_over,
  code, literals, IsWritten,
}
use poplar.Ginkgo.Parse.Emitted.{length-code}
use poplar.Ginkgo.Parse.Evals.{
  Evals, number_value, truth_value, negative_value, grouped_value, binary_value, both_false,
  both_true, either_true, either_false, constant-step, truth_step, pop-step, negate-step,
  binary_step, jump_step,
}
use poplar.Ginkgo.Parse.Placed.{Placed, left_part, right_part, last_part, after_bytes}

module _ (heap : Heap) (vm : Vm) where
  -- The code of an expression, in a chunk that an `i16` and a `u8` can address, leaves a value.
  abbrev pub Runs : Expr → Value → Type 0
  Runs e v =
      (base ip : ℕ) (c : Chunk) (stack : List Value)
      → Placed c (code e base) (literals e) base ip
      → base + length (literals e) ≤ 256
      → length c.code < 2 ^ 64
      → Reaches heap (on c ip stack vm) (on c (ip + length (code e base)) (v ∷ stack) vm)

  number-Runs : (text : List ℕ) (n : ℕ) → Runs (number text n) (integer (of_word n))
  unfolding code literals
  number-Runs text n base ip c stack h few fits =
      let base_lem = h.base_lem in
      let small : base % 256 ≡ base = omega (arith, few) in
      let known =
        fetch c.constants h.before h.after (integer (of_word n)) (base % 256) h.constants_lem
          (small ∙ base_lem) in
      one heap _ _ (
        constant-step heap vm c h.pre ip h.place stack (base % 256) (integer (of_word n)) h.post
          h.code_lem known)

  truth-Runs : (b : Bool) → Runs (truth b) (bool b)
  unfolding code literals
  truth-Runs true base ip c stack h few fits =
      one heap _ _ (truth_step heap vm c h.pre ip h.place stack true h.post h.code_lem)
  truth-Runs false base ip c stack h few fits =
      one heap _ _ (truth_step heap vm c h.pre ip h.place stack false h.post h.code_lem)

  negative-Runs :
      (e : Expr) (i j : ℤ) → Runs e (integer i) → negate i ≡ done j → Runs (negative e) (integer j)
  unfolding code literals
  negative-Runs e i j runs known base ip c stack h few fits =
      let part = code e base in
      let op = as_u8 Opcode.negate ∷ [] in
      let h' = last_part c part op (literals e) base ip h in
      let last = right_part c part op (literals e) [] base ip h' in
      let r1 = runs base ip c stack (left_part c part op (literals e) [] base ip h') few fits in
      let r2 = one heap _ _ (
        negate-step heap vm c last.pre (ip + length part) last.place stack i j last.post
          last.code_lem known) in
      reaches_place heap _ vm c (ip + length part + 1) (ip + length (part ++ op))
        (integer j ∷ stack) (omega (arith, length-append part op)) (then_reaches heap _ _ _ r1 r2)

  binary-Runs :
      (op : Operator) (l r : Expr) (a b v : Value)
      → Runs l a
      → Runs r b
      → binary_op heap (opcode op) a b ≡ done v
      → Runs (binary op l r) v
  unfolding code literals
  binary-Runs op l r a b v run_l run_r known base ip c stack h few fits =
      let base' = base + length (literals l) in
      let cl = code l base in
      let cr = code r base' in
      let last = as_u8 (opcode op) ∷ [] in
      let sizes = length-append (literals l) (literals r) in
      let h1 = left_part c cl (cr ++ last) (literals l) (literals r) base ip h in
      let h2 =
        last_part c cr last (literals r) base' (ip + length cl)
          (right_part c cl (cr ++ last) (literals l) (literals r) base ip h) in
      let h3 = left_part c cr last (literals r) [] base' (ip + length cl) h2 in
      let h4 = right_part c cr last (literals r) [] base' (ip + length cl) h2 in
      let r1 = run_l base ip c stack h1 (omega (arith, few, sizes)) fits in
      let r2 = run_r base' (ip + length cl) c (a ∷ stack) h3 (omega (arith, few, sizes)) fits in
      let r3 = one heap _ _ (
        binary_step heap vm c h4.pre (ip + length cl + length cr) h4.place stack op a b v h4.post
          h4.code_lem known) in
      reaches_place heap _ vm c (ip + length cl + length cr + 1) (ip + length (cl ++ (cr ++ last)))
        (v ∷ stack) (omega (arith, length-append cl (cr ++ last), length-append cr last))
        (then_reaches heap _ _ _ r1 (then_reaches heap _ _ _ r2 r3))

  -- A short-circuit operator: the code of the left operand and a jump over the right operand.
  module _ (j : Jump) (l r : Expr) (b : Bool) (run_l : Runs l (bool b)) (base ip : ℕ) (c : Chunk)
      (stack : List Value)
      (h : Placed c
        (code l base ++ jump_over (op_of j) (code r (base + length (literals l))))
        (literals l ++ literals r)
        base
        ip)
      (few : base + length (literals l ++ literals r) ≤ 256) (fits : length c.code < 2 ^ 64)
      (near : length (code r 0) + 1 < 2 ^ 15) where
    abbrev base' : ℕ
    base' = base + length (literals l)

    abbrev cr : List ℕ
    cr = code r base'

    abbrev jump_ip : ℕ
    jump_ip = ip + length (code l base)

    jump_place : Placed c (jump_over (op_of j) cr) (literals r) base' jump_ip
    jump_place =
        right_part c (code l base) (jump_over (op_of j) cr) (literals l) (literals r) base ip h

    left_runs : Reaches heap (on c ip stack vm) (on c jump_ip (bool b ∷ stack) vm)
    left_runs =
        run_l base ip c stack
          (left_part c (code l base) (jump_over (op_of j) cr) (literals l) (literals r) base ip h)
          (let sizes = length-append (literals l) (literals r) in omega (arith, few, sizes)) fits

    jump_runs :
        step heap (on c jump_ip (bool b ∷ stack) vm)
        ≡ running (
            on c
              (if taken j b then jump_ip + 3 + (length cr + 1) else jump_ip + 3)
              (bool b ∷ stack)
              vm)
    jump_runs =
        let p = jump_place in
        let size = ap length p.code_lem ∙ length-append p.pre (jump_over (op_of j) cr ++ p.post) in
        let more = length-append (jump_over (op_of j) cr) p.post in
        let place = p.place in
        let same = length-code r base' 0 in
        jump_step heap vm c p.pre jump_ip p.place stack j b cr p.post p.code_lem
          (omega (arith, near, same)) (omega (arith, fits, size, more, place))

    pub short_runs :
        taken j b ≡ true
        → Reaches heap
            (on c ip stack vm)
            (on c (ip + length (code l base ++ jump_over (op_of j) cr)) (bool b ∷ stack) vm)
    short_runs jumps =
        let size = length-append (code l base) (jump_over (op_of j) cr) in
        reaches_place heap _ vm c (jump_ip + 3 + (length cr + 1))
          (ip + length (code l base ++ jump_over (op_of j) cr)) (bool b ∷ stack)
          (omega (arith, size))
          (then_reaches heap _ _ _ left_runs (
            one heap _ _ (
              jump_runs
              ∙ ap
                  (λ t. running (
                    on c (if t then jump_ip + 3 + (length cr + 1) else jump_ip + 3) (bool b ∷ stack)
                      vm))
                  jumps)))

    pub both_runs :
        (v : Value)
        → taken j b ≡ false
        → Runs r v
        → Reaches heap
            (on c ip stack vm)
            (on c (ip + length (code l base ++ jump_over (op_of j) cr)) (v ∷ stack) vm)
    both_runs v stays run_r =
        let size = length-append (code l base) (jump_over (op_of j) cr) in
        let d = length cr + 1 in
        let head = as_u8 (op_of j) ∷ d % 256 ∷ d / 256 ∷ [] in
        let p = after_bytes c head (as_u8 Opcode.pop ∷ cr) (literals r) base' jump_ip jump_place in
        let q = after_bytes c (as_u8 Opcode.pop ∷ []) cr (literals r) base' (jump_ip + 3) p in
        let sizes = length-append (literals l) (literals r) in
        let falls =
          jump_runs
          ∙ ap
              (λ t. running (on c (if t then jump_ip + 3 + d else jump_ip + 3) (bool b ∷ stack) vm))
              stays in
        let pops =
          pop-step heap vm c p.pre (jump_ip + 3) p.place stack (bool b) (cr ++ p.post) p.code_lem in
        let rest = run_r base' (jump_ip + 3 + 1) c stack q (omega (arith, few, sizes)) fits in
        reaches_place heap _ vm c (jump_ip + 3 + 1 + length cr)
          (ip + length (code l base ++ jump_over (op_of j) cr)) (v ∷ stack) (omega (arith, size))
          (then_reaches heap _ _ _ left_runs (
            then_reaches heap _ _ _ (one heap _ _ falls)
              (then_reaches heap _ _ _ (one heap _ _ pops) rest)))

  pub all-Runs : (m : ℕ) (e : Expr) (v : Value) → Evals heap e v → IsWritten m e → Runs e v
  unfolding code literals IsWritten
  all-Runs m _ _ (number_value text n) w = number-Runs text n
  all-Runs m _ _ (truth_value b) w = truth-Runs b
  all-Runs m (negative e) v (negative_value h known) w =
      negative-Runs e _ _ (all-Runs 12 e _ h w) known
  all-Runs m (grouped e) v (grouped_value h) w =
      λ base ip c stack. all-Runs 1 e v h w base ip c stack
  all-Runs m (binary op l r) v (binary_value hl hr known) (low, wl, wr) =
      binary-Runs op l r _ _ v (all-Runs (level op) l _ hl wl) (all-Runs (level op + 1) r _ hr wr)
        known
  all-Runs m (both l r) v (both_false hl) (low, wl, wr, near) = λ base ip c stack h few fits.
      short_runs when_false l r false (all-Runs 3 l _ hl wl) base ip c stack h few fits near refl
  all-Runs m (both l r) v (both_true hl hr) (low, wl, wr, near) = λ base ip c stack h few fits.
      both_runs when_false l r true (all-Runs 3 l _ hl wl) base ip c stack h few fits near v refl
        (all-Runs 4 r _ hr wr)
  all-Runs m (either l r) v (either_true hl) (low, wl, wr, near) = λ base ip c stack h few fits.
      short_runs when_true l r true (all-Runs 2 l _ hl wl) base ip c stack h few fits near refl
  all-Runs m (either l r) v (either_false hl hr) (low, wl, wr, near) = λ base ip c stack h few fits.
      both_runs when_true l r false (all-Runs 2 l _ hl wl) base ip c stack h few fits near v refl
        (all-Runs 3 r _ hr wr)
