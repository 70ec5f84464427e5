-- ===== src/BitField.antt =====
-- The trait `BitField` of the bit_field crate on a `usize`, as the code uses it: a range of bits is
-- given by its first bit and the bit after its last.
use poplar.Prelude.{ℕ, ◌+◌, ◌-◌, ◌*◌, ◌/◌, ◌%◌, ◌^◌, ◌≤◌, ◌<◌, ◌≡◌, Outcome, done}

-- `get_bits`
abbrev pub GetBits : Type 0
GetBits = ℕ → ℕ → ℕ → ℕ

-- What the crate documents of it.
abbrev pub ReadsBits : GetBits → Type 0
ReadsBits get_bits =
    (value low high : ℕ) → low ≤ high → get_bits value low high ≡ value / 2 ^ low % 2 ^ (high - low)

-- `set_bits`
abbrev pub SetBits : Type 0
SetBits = ℕ → ℕ → ℕ → ℕ → Outcome ℕ

-- What the crate documents of it, for a range whose bits are all zero and bits that fit it.
abbrev pub WritesBits : SetBits → Type 0
WritesBits set_bits =
    (value low high bits : ℕ)
    → low ≤ high
    → bits < 2 ^ (high - low)
    → value / 2 ^ low % 2 ^ (high - low) ≡ 0
    → set_bits value low high bits ≡ done (value + bits * 2 ^ low)
