-- ===== src/Hal/Usize.antt =====
-- The 64-bit `usize` arithmetic of the address types: checked operations and alignment.
use native.Mathlib.Nat.{mod_self, mod-lt, div-add-mod', mul-mod_left}
use poplar.Prelude.{
  ℕ, ◌+◌, ◌-◌, ◌*◌, ◌/◌, ◌%◌, ◌^◌, ◌≤◌, ◌<◌, ◌≡◌, ◌∙◌, Bool, true, ◌&&◌, Option, none, some, arith,
  ltb, leb, ◌==◌, if◌then◌else◌, bit_and,
}
use poplar.Prelude.Bits.{bit_and_mask, bit_and_not_mask, two_pow_pos}

-- `usize::checked_add` and `usize::checked_sub`.
unfoldable pub checked_add : ℕ → ℕ → Option ℕ
checked_add a b = if ltb (a + b) (2 ^ 64) then some (a + b) else none

unfoldable pub checked_sub : ℕ → ℕ → Option ℕ
checked_sub a b = if leb b a then some (a - b) else none

-- `!x`, every bit flipped.
abbrev pub complement : ℕ → ℕ
complement x = 2 ^ 64 - 1 - x

unfoldable pub is_power_of_two : ℕ → Bool
is_power_of_two n = ltb 0 n && bit_and n (n - 1) == 0

pub is_power_of_two_pow : (k : ℕ) → is_power_of_two (2 ^ k) ≡ true
unfolding is_power_of_two
is_power_of_two_pow k =
    let e : bit_and (2 ^ k) (2 ^ k - 1) ≡ 0 = bit_and_mask k (2 ^ k) ∙ mod_self (2 ^ k) in
    rw e (ground (arith, two_pow_pos k))

-- `x & !(align - 1)` is the multiple of a power of two at or below `x`.
pub round_down :
    (k x : ℕ) → k ≤ 64 → x < 2 ^ 64 → bit_and x (complement (2 ^ k - 1)) ≡ x / 2 ^ k * 2 ^ k
round_down k x h p = bit_and_not_mask 64 k x h p

-- What the two multiples around a value are.
pub record RoundsDown (align x y : ℕ) : Type 0 where
  pub multiple : y % align ≡ 0
  pub below : y ≤ x
  pub close : x < y + align

pub record RoundsUp (align x y : ℕ) : Type 0 where
  pub multiple : y % align ≡ 0
  pub above : x ≤ y
  pub close : y < x + align

pub div-mul-RoundsDown : (align x : ℕ) → 0 < align → RoundsDown align x (x / align * align)
div-mul-RoundsDown align x h = record {
  multiple = mul-mod_left (x / align) align;
  below = omega (arith, div-add-mod' x align);
  close = omega (arith, div-add-mod' x align, mod-lt x h);
}

pub div-mul-RoundsUp :
    (align x : ℕ) → 0 < align → RoundsUp align x ((x + align - 1) / align * align)
div-mul-RoundsUp align x h = record {
  multiple = mul-mod_left ((x + align - 1) / align) align;
  above = omega (arith, div-add-mod' (x + align - 1) align, mod-lt (x + align - 1) h);
  close = omega (arith, div-add-mod' (x + align - 1) align);
}
