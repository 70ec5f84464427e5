-- ===== src/Ginkgo/Vm/Reaches.antt =====
-- Several runs of the loop of `interpret` of ginkgo/src/vm.rs.
use poplar.Prelude.{
  ℕ, suc, ◌+◌, ◌-◌, ◌<◌, ◌≡◌, refl, ap, subst, ◌∙◌, ◌++◌, List, ◌∷◌, some, length, get_elem?, arith,
}
use poplar.Ginkgo.Value.{Value, Chunk, Heap}
use poplar.Ginkgo.Vm.{Vm, running, finished, step, run}
use poplar.Ginkgo.Vm.Jumps.{get_elem?-append_at}

-- The machine at a place in some code, with a stack.
abbrev pub on : Chunk → ℕ → List Value → Vm → Vm
on chunk ip stack vm = record vm { chunk = chunk; ip = ip; stack = stack }

-- The item behind some others.
pub fetch :
    {A : Type 0} (code pre more : List A) (b : A) (ip : ℕ)
    → code ≡ pre ++ (b ∷ more)
    → ip ≡ length pre
    → get_elem? code ip ≡ some b
fetch code pre more b ip e place =
    ap (λ s. get_elem? s ip) e
    ∙ ap (get_elem? (pre ++ (b ∷ more))) place
    ∙ get_elem?-append_at pre more b

module _ (heap : Heap) where
  -- The machine comes, after some runs, to where another one is.
  abbrev pub Reaches : Vm → Vm → Type 0
  Reaches vm vm' = (n : ℕ) × ((k : ℕ) → run heap (n + k) vm ≡ run heap k vm')

  pub one : (vm vm' : Vm) → step heap vm ≡ running vm' → Reaches vm vm'
  unfolding run
  one vm vm' e = (1, λ k. let next : 1 + k ≡ suc k = omega arith in rw (next, e, run) refl)

  pub reaches_place :
      (vm vm' : Vm) (c : Chunk) (a b : ℕ) (stack : List Value)
      → a ≡ b
      → Reaches vm (on c a stack vm')
      → Reaches vm (on c b stack vm')
  reaches_place vm vm' c a b stack e r = subst (λ ip. Reaches vm (on c ip stack vm')) e r

  pub then_reaches : (vm1 vm2 vm3 : Vm) → Reaches vm1 vm2 → Reaches vm2 vm3 → Reaches vm1 vm3
  then_reaches vm1 vm2 vm3 (n, e) (m, e') = (
    n + m,
    λ k.
        let assoc : n + m + k ≡ n + (m + k) = omega arith in
        ap (λ i. run heap i vm1) assoc ∙ e (m + k) ∙ e' k,
  )

  -- A machine that comes to the end, by enough fuel.
  pub run-finished :
      (vm vm' last : Vm) (k : ℕ) (r : Reaches vm vm')
      → step heap vm' ≡ finished last
      → r.0 < k
      → run heap k vm ≡ some (finished last)
  unfolding run
  run-finished vm vm' last k (n, e) ends above =
      let left = k - n - 1 in
      let all : k ≡ n + suc left = omega (arith, above) in
      ap (λ i. run heap i vm) all ∙ e (suc left) ∙ rw (ends, run) refl
