-- ===== src/Ginkgo/Vm/Stack.antt =====
-- The stack of the machine of ginkgo/src/vm.rs: what `resize` and `insert` leave of it.
use poplar.Prelude.{
  ℕ, zero, suc, ◌+◌, ◌-◌, ◌≤◌, ◌<◌, ◌≡◌, sym, ◌∙◌, ap, refl, true, false, some, List, [], ◌∷◌, ◌++◌,
  length, length-append, replicate, get_elem?, ltb, leb, done, arith,
}
use native.Mathlib.Decide.{dec_le}
use poplar.Ginkgo.Value.{Value, unit, obj}
use poplar.Ginkgo.Vm.{drop, take, resize, insert, from_bottom}
use poplar.Ginkgo.Vm.Jumps.{get_elem?-append_left, get_elem?-append_at}

pub length-drop : (n : ℕ) (s : List Value) → n ≤ length s → length (drop n s) ≡ length s - n
length-drop zero s h = omega arith
length-drop (suc n) [] h = absurd (omega (arith, h))
length-drop (suc n) (v ∷ s) h = length-drop n s (omega (arith, h)) ∙ omega arith

pub length-take : (n : ℕ) (s : List Value) → n ≤ length s → length (take n s) ≡ n
length-take zero s h = refl
length-take (suc n) [] h = absurd (omega (arith, h))
length-take (suc n) (v ∷ s) h = ap suc (length-take n s (omega (arith, h)))

pub length-replicate : (n : ℕ) (v : Value) → length (replicate n v) ≡ n
length-replicate zero v = refl
length-replicate (suc n) v = ap suc (length-replicate n v)

pub drop-append : (xs ys : List Value) → drop (length xs) (xs ++ ys) ≡ ys
drop-append [] ys = refl
drop-append (x ∷ xs) ys = drop-append xs ys

pub get_elem?-take : (n i : ℕ) (s : List Value) → i < n → get_elem? (take n s) i ≡ get_elem? s i
get_elem?-take zero i s h = elim h [ ]
get_elem?-take (suc n) i [] h = refl
get_elem?-take (suc n) zero (v ∷ s) h = refl
get_elem?-take (suc n) (suc i) (v ∷ s) h = get_elem?-take n i s (omega arith)

pub length-resize : (size : ℕ) (s : List Value) → length (resize size s) ≡ size
unfolding resize
length-resize size s = elim (dec_le size (length s)) [
  | yes h ↦
      let short : leb size (length s) ≡ true = ground (arith, h) in
      rw (short) (length-drop (length s - size) s (omega arith) ∙ omega (arith, h))
  | no n ↦
      let long : leb size (length s) ≡ false = ground (arith, n) in
      rw (long) (
        length-append (replicate (size - length s) unit) s
        ∙ ap (λ m. m + length s) (length-replicate (size - length s) unit)
        ∙ omega (arith, n))
]

pub resize-append : (xs ys : List Value) → resize (length ys) (xs ++ ys) ≡ ys
unfolding resize
resize-append xs ys =
    let size = length-append xs ys in
    let short : leb (length ys) (length (xs ++ ys)) ≡ true = ground (arith, size) in
    let above : length (xs ++ ys) - length ys ≡ length xs = omega (arith, size) in
    rw (short, above) (drop-append xs ys)

pub from_bottom_lem :
    (s : List Value) (i j : ℕ) → i + j + 1 ≡ length s → from_bottom s i ≡ get_elem? s j
from_bottom_lem s i j e =
    let test : ltb i (length s) ≡ true = ground (arith, e) in
    let place : length s - 1 - i ≡ j = omega (arith, e) in rw (test, place) refl

pub insert_lem :
    (slot above : ℕ) (v : Value) (stack : List Value)
    → slot ≤ above
    → above < length stack
    → (s : List Value) × (insert slot v stack ≡ done s)
      × (length s ≡ length stack + 1)
      × (from_bottom s slot ≡ some v)
      × (from_bottom s (above + 1) ≡ from_bottom stack above)
unfolding insert
insert_lem slot above v stack low high =
    let n = length stack - slot in
    let t = take n stack in
    let d = drop n stack in
    let nt : length t ≡ n = length-take n stack (omega arith) in
    let nd : length d ≡ slot = length-drop n stack (omega arith) ∙ omega (arith, low, high) in
    let size : length (t ++ (v ∷ d)) ≡ length stack + 1 =
      length-append t (v ∷ d) ∙ omega (arith, nt, nd, low, high) in
    let fits : leb slot (length stack) ≡ true = ground (arith, low, high) in
    let place = length stack - 1 - above in
    (
      t ++ (v ∷ d),
      rw (fits) refl,
      size,
      from_bottom_lem (t ++ (v ∷ d)) slot (length t) (omega (arith, size, nt, low, high))
          ∙ get_elem?-append_at t d v,
      from_bottom_lem (t ++ (v ∷ d)) (above + 1) place (omega (arith, size, low, high))
          ∙ get_elem?-append_left t (v ∷ d) place (omega (arith, nt, low, high))
          ∙ get_elem?-take n place stack (omega (arith, low, high))
          ∙ sym (from_bottom_lem stack above place (omega (arith, low, high))),
    )

pub append_object :
    (o : ℕ) (temps args rest : List Value)
    → temps ++ (args ++ (obj o ∷ rest)) ≡ (temps ++ (args ++ (obj o ∷ []))) ++ rest
append_object o [] [] rest = refl
append_object o [] (a ∷ args) rest = ap (λ s. a ∷ s) (append_object o [] args rest)
append_object o (t ∷ temps) args rest = ap (λ s. t ∷ s) (append_object o temps args rest)
