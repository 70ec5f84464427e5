-- ===== src/BitFlags.antt =====
-- What `bitflags!` of the crate bitflags gives a type of flags, whose values are words of bits.
use poplar.Prelude.{ℕ, ◌≡◌, ◌==◌, Bool, not, bit_and, bit_or}

-- `|`, `contains`, `intersects`, and `from_bits_truncate` with all declared flags before the word.
pub record BitFlags : Type 0 where
  pub union : ℕ → ℕ → ℕ
  pub contains : ℕ → ℕ → Bool
  pub intersects : ℕ → ℕ → Bool
  pub from_bits_truncate : ℕ → ℕ → ℕ

-- What the crate documents of them.
pub record FollowsBits (b : BitFlags) : Type 0 where
  pub union_lem : (x y : ℕ) → b.union x y ≡ bit_or x y
  pub contains_lem : (x y : ℕ) → b.contains x y ≡ (bit_and x y == y)
  pub intersects_lem : (x y : ℕ) → b.intersects x y ≡ not (bit_and x y == 0)
  pub from_bits_truncate_lem : (all x : ℕ) → b.from_bits_truncate all x ≡ bit_and x all
