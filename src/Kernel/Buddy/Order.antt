-- ===== src/Kernel/Buddy/Order.antt =====
-- `usize::next_power_of_two` and `usize::trailing_zeros` of core, by which the allocator turns a
-- number of frames into an order.
use native.Mathlib.Decide.{ℕ_discrete, dec_lt}
use native.Mathlib.Nat.{pow-suc, pow-le-pow_right}
use poplar.Prelude.{
  ℕ, zero, suc, ◌+◌, ◌*◌, ◌/◌, ◌%◌, ◌^◌, ◌≤◌, ◌<◌, ◌≡◌, refl, ◌⊎◌, inl, inr, arith, leb, ◌==◌,
  if◌then◌else◌, Outcome, done, panic, Bool-cases, false, ap,
}
use poplar.Prelude.Bits.{pow_add, two_pow_pos}

-- The powers of two in turn, from `2 ^ k`; there are 64 of them in a `usize`.
unfoldable pub power_from : ℕ → ℕ → ℕ → Outcome ℕ
power_from zero k n = panic
power_from (suc fuel) k n =
    let larger = power_from fuel (k + 1) n in if leb n (2 ^ k) then done (2 ^ k) else larger

unfoldable pub next_power_of_two : ℕ → Outcome ℕ
unfolding power_from
next_power_of_two n = power_from 64 0 n

unfoldable pub zeros_from : ℕ → ℕ → ℕ
zeros_from zero x = 0
zeros_from (suc fuel) x = let rest = zeros_from fuel (x / 2) in if x % 2 == 0 then rest + 1 else 0

unfoldable pub trailing_zeros : ℕ → ℕ
unfolding zeros_from
trailing_zeros x = zeros_from 64 x

zeros_from-pow : (fuel k : ℕ) → k < fuel → zeros_from fuel (2 ^ k) ≡ k
unfolding zeros_from
zeros_from-pow zero k h = absurd (omega arith)
zeros_from-pow (suc fuel) zero h = refl
zeros_from-pow (suc fuel) (suc k) h =
    let half : 2 ^ suc k / 2 ≡ 2 ^ k = omega (arith, pow-suc 2 k) in
    let even : 2 ^ suc k % 2 ≡ 0 = omega (arith, pow-suc 2 k) in
    rw (half, even) (omega (arith, zeros_from-pow fuel k (omega arith)))

pub trailing_zeros-pow : (k : ℕ) → k < 64 → trailing_zeros (2 ^ k) ≡ k
unfolding trailing_zeros
trailing_zeros-pow k h = zeros_from-pow 64 k h

-- The least power of two that is not below `n`.
abbrev pub IsRounded : ℕ → ℕ → Type 0
IsRounded n k = (n ≤ 2 ^ k) × (k < 64) × ((k ≡ 0) ⊎ (2 ^ k < 2 * n))

below_top : (k n : ℕ) → n ≤ 2 ^ 63 → k ≤ 63 → leb n (2 ^ k) ≡ false → k + 1 ≤ 63
below_top k n h le short = elim (ℕ_discrete k 63) [
  | yes top ↦ let e : 2 ^ k ≡ 2 ^ 63 = ap (λ t. 2 ^ t) top in absurd (ground (arith, e))
  | no other ↦ omega arith
]

power_from-IsRounded :
    (fuel k n : ℕ)
    → n ≤ 2 ^ 63
    → k ≤ 63
    → fuel + k ≡ 64
    → (k ≡ 0) ⊎ (2 ^ k < 2 * n)
    → (j : ℕ) × (power_from fuel k n ≡ done (2 ^ j)) × IsRounded n j
unfolding power_from
power_from-IsRounded zero k n h le e small = absurd (omega arith)
power_from-IsRounded (suc fuel) k n h le e small = elim (Bool-cases (leb n (2 ^ k))) [
  | inl fits ↦ (k, rw fits, (ground arith, omega arith, small))
  | inr short ↦
      let two : 2 ^ (k + 1) ≡ 2 * 2 ^ k = omega (arith, pow_add k 1) in
      rw short (
        power_from-IsRounded fuel (k + 1) n h (below_top k n h le short) (omega arith)
          (inr (ground (arith, two))))
]

pub next_power_of_two-IsRounded :
    (n : ℕ) → n ≤ 2 ^ 63 → (k : ℕ) × (next_power_of_two n ≡ done (2 ^ k)) × IsRounded n k
unfolding next_power_of_two
next_power_of_two-IsRounded n h = power_from-IsRounded 64 0 n h (omega arith) refl (inl refl)

pub two_pow_mono : (j k : ℕ) → j ≤ k → 2 ^ j ≤ 2 ^ k
two_pow_mono j k h = pow-le-pow_right (omega arith) h

two_pow_lt : (j k : ℕ) → j < k → 2 * 2 ^ j ≤ 2 ^ k
two_pow_lt j k h = omega (arith, pow-suc 2 j, two_pow_mono (suc j) k h)

-- A power of two is not rounded further.
pub rounded_pow : (k order : ℕ) → IsRounded (2 ^ k) order → order ≡ k
rounded_pow k order (le, _, least) = elim (dec_lt k order) [
  | yes above ↦ absurd (grind (arith, two_pow_lt k order above, two_pow_pos k))
  | no up_to ↦ elim (dec_lt order k) [
    | yes below ↦ absurd (omega (arith, two_pow_lt order k below, two_pow_pos order))
    | no from ↦ omega arith
  ]
]
