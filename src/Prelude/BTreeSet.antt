-- ===== src/Prelude/BTreeSet.antt =====
-- The `BTreeSet<usize>` of alloc, as far as the kernel uses it: the list of its elements, in
-- ascending order.
use Prim.Native.Nat.{ℕ, suc, ◌+◌, ◌≤◌, ◌<◌}
use mathlib.Core.Path.{◌≡◌, refl}
use mathlib.Core.Bool.{Bool, true, false, ◌||◌}
use mathlib.Core.List.{List, [], ◌∷◌}
use mathlib.Core.Option.{Option, none, some}
use native.Mathlib.Omega.{arith}
use poplar.Prelude.Tests.{ltb, ◌==◌, if◌then◌else◌}

unfoldable pub contains : List ℕ → ℕ → Bool
contains [] x = false
contains (y ∷ s) x = x == y || contains s x

-- An element that is there already leaves the set as it is.
unfoldable pub insert : List ℕ → ℕ → List ℕ
insert [] x = x ∷ []
insert (y ∷ s) x = if ltb x y then x ∷ y ∷ s else if x == y then y ∷ s else y ∷ insert s x

-- `BTreeSet::remove` also returns whether the element was there, which is `contains`.
unfoldable pub remove : List ℕ → ℕ → List ℕ
remove [] x = []
remove (y ∷ s) x = if x == y then s else y ∷ remove s x

-- `iter().next()`
unfoldable pub first : List ℕ → Option ℕ
first [] = none
first (y ∷ s) = some y

-- The order of the elements, all of them from `low` on.
abbrev pub AscendsFrom : ℕ → List ℕ → Type 0
AscendsFrom low [] = Unit {0}
AscendsFrom low (y ∷ s) = (low ≤ y) × AscendsFrom (suc y) s

abbrev pub Ascends : List ℕ → Type 0
Ascends = AscendsFrom 0

-- The sum of a weight over the elements.
unfoldable pub total : (ℕ → ℕ) → List ℕ → ℕ
total w [] = 0
total w (y ∷ s) = w y + total w s

pub AscendsFrom-mono : (m n : ℕ) (s : List ℕ) → m ≤ n → AscendsFrom n s → AscendsFrom m s
AscendsFrom-mono m n [] h a = tt
AscendsFrom-mono m n (y ∷ s) h a = (omega arith, a.1)

pub insert-AscendsFrom :
    (low : ℕ) (s : List ℕ) (x : ℕ) → low ≤ x → AscendsFrom low s → AscendsFrom low (insert s x)
unfolding insert
insert-AscendsFrom low [] x h a = (h, tt)
insert-AscendsFrom low (y ∷ s) x h a = ground (arith, insert-AscendsFrom (suc y) s x)

pub remove-AscendsFrom :
    (low : ℕ) (s : List ℕ) (x : ℕ) → AscendsFrom low s → AscendsFrom low (remove s x)
unfolding remove
remove-AscendsFrom low [] x a = tt
remove-AscendsFrom low (y ∷ s) x a =
    ground (arith, AscendsFrom-mono low (suc y) s, remove-AscendsFrom (suc y) s x)

pub contains-insert : (s : List ℕ) (x z : ℕ) → contains (insert s x) z ≡ (z == x || contains s z)
unfolding contains insert
contains-insert [] x z = refl
contains-insert (y ∷ s) x z = ground (arith, contains-insert s x z)

pub contains_below :
    (low : ℕ) (s : List ℕ) (z : ℕ) → AscendsFrom low s → z < low → contains s z ≡ false
unfolding contains
contains_below low [] z a h = refl
contains_below low (y ∷ s) z a h = ground (arith, contains_below (suc y) s z)

pub contains-remove :
    (low : ℕ) (s : List ℕ) (x z : ℕ)
    → AscendsFrom low s
    → contains (remove s x) z ≡ (if z == x then false else contains s z)
unfolding contains remove
contains-remove low [] x z a = ground arith
contains-remove low (y ∷ s) x z a =
    ground (arith, contains-remove (suc y) s x z, contains_below (suc y) s z)

module _ (w : ℕ → ℕ) where
  pub total-insert :
      (s : List ℕ) (x : ℕ) → contains s x ≡ false → total w (insert s x) ≡ w x + total w s
  unfolding total contains insert
  total-insert [] x h = refl
  total-insert (y ∷ s) x h = ground (arith, total-insert s x)

  pub total-remove :
      (s : List ℕ) (x : ℕ) → contains s x ≡ true → w x + total w (remove s x) ≡ total w s
  unfolding total contains remove
  total-remove [] x h = absurd (cc)
  total-remove (y ∷ s) x h = ground (arith, total-remove s x)

pub contains-first : (s : List ℕ) (x : ℕ) → first s ≡ some x → contains s x ≡ true
unfolding first contains
contains-first [] x h = absurd (cc)
contains-first (y ∷ s) x h = ground arith

pub first-none : (s : List ℕ) → first s ≡ none → s ≡ []
unfolding first
first-none [] h = refl
first-none (y ∷ s) h = absurd (cc)
