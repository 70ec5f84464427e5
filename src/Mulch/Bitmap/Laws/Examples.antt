-- ===== src/Mulch/Bitmap/Laws/Examples.antt =====
-- Bitmaps of lib/mulch/src/bitmap.rs at concrete inputs, some of them of its tests.
use poplar.Prelude.{ℕ, ◌+◌, ◌-◌, ◌*◌, ◌^◌, ◌≤◌, ◌≡◌, refl, none, some, done, arith}
use poplar.BitField.{GetBits, SetBits}
use poplar.Mulch.Bitmap.{alloc, free, ones}
use poplar.Mulch.Bitmap.Laws.{field, free-alloc_bits}

-- The crate bit_field.
abbrev get_bits : GetBits
get_bits value low high = field value low high

abbrev set_bits : SetBits
set_bits value low high bits = done (value - field value low high * 2 ^ low + bits * 2 ^ low)

three_found : alloc get_bits set_bits 16 3 0b10001 ≡ done (some 1, 0b11111)
unfolding alloc ones
three_found = refl

two_refused : alloc get_bits set_bits 8 2 0b01101010 ≡ done (none, 0b01101010)
unfolding alloc ones
two_refused = refl

-- The last bit is clear, and is not found.
last_bit : alloc get_bits set_bits 8 1 0b01111111 ≡ done (none, 0b01111111)
unfolding alloc ones
last_bit = refl

free-alloc_bits_example :
    (i : ℕ) × (i ≤ 8)
    × (field 0b111000010000111 i (i + 4) ≡ 0)
    × (alloc get_bits set_bits 16 4 0b111000010000111
        ≡ done (some i, 0b111000010000111 + (2 ^ 4 - 1) * 2 ^ i))
    × (free get_bits set_bits 16 i 4 (0b111000010000111 + (2 ^ 4 - 1) * 2 ^ i)
        ≡ done 0b111000010000111)
free-alloc_bits_example =
    free-alloc_bits get_bits set_bits (λ value low high h. refl)
      (λ value low high bits h fits. refl) 16 4 0b111000010000111 8 (omega arith) (omega arith) refl
