-- ===== src/Prelude/Stores.antt =====
-- Stores: what the program keeps behind shared references or in a map, as a function of the key.
use Prim.Native.Nat.{ℕ}
use mathlib.Core.Path.{◌≡◌}
use native.Mathlib.Omega.{arith}
use poplar.Prelude.Tests.{◌==◌, if◌then◌else◌}

-- A write to one key.
abbrev pub put {ℓ} : {A : Type ℓ} → (ℕ → A) → ℕ → A → ℕ → A
put store key value x = if x == key then value else store x

pub put_same {ℓ} :
    {A : Type ℓ} (store : ℕ → A) (key : ℕ) (value : A) → put store key value key ≡ value
put_same store key value = ground arith
