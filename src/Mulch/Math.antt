-- ===== src/Mulch/Math.antt =====
-- lib/mulch/src/math.rs, at the type `usize`.
use poplar.Prelude.{
  ℕ, ◌+◌, ◌-◌, ◌*◌, ◌/◌, ◌%◌, ◌^◌, ◌<◌, ◌≤◌, ◌≡◌, ◌||◌, not, ltb, ◌==◌, if◌then◌else◌, Outcome,
  done, ◌>>=◌, ◌>>◌, assert, unwrap, bit_and, arith,
}
use poplar.Prelude.Bits.{two_pow_pos}
use poplar.Hal.Usize
use poplar.Hal.Usize.{complement, is_power_of_two, is_power_of_two_pow, round_down}

unfoldable pub align_down : ℕ → ℕ → Outcome ℕ
unfolding is_power_of_two
align_down value align = do
  assert (align == 0 || is_power_of_two align)
  if align == 0 then done value else done (bit_and value (complement (align - 1)))

unfoldable pub align_up : ℕ → ℕ → Outcome ℕ
unfolding Usize.checked_add Usize.checked_sub
align_up value align = if align == 0 then done value else do
  sum ← unwrap (Usize.checked_add value align)
  last ← unwrap (Usize.checked_sub sum 1)
  align_down last align

unfoldable pub ceiling_integer_divide : ℕ → ℕ → ℕ
ceiling_integer_divide x divide_by = x / divide_by + (if not (x % divide_by == 0) then 1 else 0)

unfoldable pub abs_difference : ℕ → ℕ → ℕ
abs_difference a b = if ltb b a then a - b else b - a

pub align_down_pow :
    (k value : ℕ)
    → k ≤ 63
    → value < 2 ^ 64
    → align_down value (2 ^ k) ≡ done (value / 2 ^ k * 2 ^ k)
unfolding align_down
align_down_pow k value h p =
    ground (arith, is_power_of_two_pow k, round_down k value, two_pow_pos k)
