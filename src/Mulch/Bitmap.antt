-- ===== src/Mulch/Bitmap.antt =====
-- lib/mulch/src/bitmap.rs: an integer as a series of bits, by the implementation for integers, of any
-- width. The one for slices of bytes has the same loop and is left out.
pub mod Laws
use poplar.Prelude.{
  ℕ, zero, suc, ◌+◌, ◌-◌, ◌^◌, Option, none, some, ltb, ◌==◌, if◌then◌else◌, Outcome, done, panic,
  ◌>>=◌, ◌>>◌, assert, bit_and,
}
use poplar.BitField.{GetBits, SetBits}

-- `(1 << n) - 1`; a shift by the width or more is a panic.
unfoldable pub ones : ℕ → ℕ → Outcome ℕ
ones width n = if ltb n width then done (2 ^ n - 1) else panic

module _ (get_bits : GetBits) (set_bits : SetBits) where
  -- The loop from `index` on, for the indices that are left.
  abbrev pub alloc_loop : ℕ → ℕ → ℕ → ℕ → ℕ → Outcome (Option ℕ × ℕ)
  alloc_loop n mask zero index value = done (none, value)
  alloc_loop n mask (suc left) index value =
      let rest = alloc_loop n mask left (index + 1) value in
      if bit_and (get_bits value index (index + n)) mask == 0
      then (set_bits value index (index + n) mask >>= λ value'. done (some index, value'))
      else rest

  unfoldable pub alloc : ℕ → ℕ → ℕ → Outcome (Option ℕ × ℕ)
  unfolding ones
  alloc width n value = ones width n >>= λ mask. alloc_loop n mask (width - n) 0 value

  unfoldable pub free : ℕ → ℕ → ℕ → ℕ → Outcome ℕ
  unfolding ones
  free width index n value = ones width n >>= λ mask.
      assert (get_bits value index (index + n) == mask) >> set_bits value index (index + n) 0
