-- ===== src/Prelude/Bits.antt =====
-- Binary digits at variables: `x ^ (1 << n)`, `x & ((1 << n) - 1)` and `x & !((1 << n) - 1)`.
use Prim.Native.Nat.{
  ℕ, zero, suc, ◌+◌, ◌-◌, ◌*◌, ◌/◌, ◌%◌, ◌^◌, ◌≤◌, ◌<◌, min, max, differ, bit_and, bit_or, bit_xor,
  digits, bitwise,
}
use Prim.Native.Nat.{bit_and-bitwise, bit_or-bitwise, bit_xor-bitwise}
use mathlib.Core.Path.{◌≡◌, refl, sym, ap, ◌∙◌}
use native.Mathlib.Nat.{pow-suc, one-le-pow, mod-eq_of_lt, mod-lt, div-add-mod', div-lt_iff_lt-mul}
use native.Mathlib.Omega.{arith}

-- Induction by halving.
halving_below :
    (P : ℕ → Type 0) → P 0 → ((n : ℕ) → P (suc n / 2) → P (suc n)) → (bound n : ℕ) → n < bound → P n
halving_below P base step zero n h = elim h [ ]
halving_below P base step (suc bound) zero h = base
halving_below P base step (suc bound) (suc n) h =
    step n (halving_below P base step bound (suc n / 2) (omega arith))

halving : (P : ℕ → Type 0) → P 0 → ((n : ℕ) → P (suc n / 2) → P (suc n)) → (n : ℕ) → P n
halving P base step n = halving_below P base step (suc n) n (omega arith)

-- The native operations recurse on the digits of the left argument with that argument as fuel.
module _ (above : ℕ → ℕ) (op : ℕ → ℕ → ℕ) where
  digits_spare : (n spare a b : ℕ) → a ≤ n → digits above op (n + spare) a b ≡ digits above op n a b
  digits_spare zero zero zero b h = refl
  digits_spare zero (suc spare) zero b h =
      let e : 0 + suc spare ≡ suc spare = omega arith in rw e refl
  digits_spare zero spare (suc a) b h = absurd (omega arith)
  digits_spare (suc n) spare zero b h =
      let e : suc n + spare ≡ suc (n + spare) = omega arith in rw e refl
  digits_spare (suc n) spare (suc a) b h =
      let e : suc n + spare ≡ suc (n + spare) = omega arith in
      rw (e, digits_spare n spare (suc a / 2) (b / 2) (omega arith)) refl

  lowest_digit :
      (a b : ℕ)
      → bitwise above op (suc a) b
        ≡ op (suc a % 2) (b % 2) + 2 * bitwise above op (suc a / 2) (b / 2)
  lowest_digit a b =
      let spare = a - suc a / 2 in
      let e : suc a / 2 + spare ≡ a = omega arith in
      let drop = digits_spare (suc a / 2) spare (suc a / 2) (b / 2) (omega arith) in
      omega (arith, drop, ap (λ n. digits above op n (suc a / 2) (b / 2)) e)

pub bit_xor_step : (x y : ℕ) → bit_xor x y ≡ differ (x % 2) (y % 2) + 2 * bit_xor (x / 2) (y / 2)
bit_xor_step zero y = simp bit_xor-bitwise (omega arith)
bit_xor_step (suc x) y = simp bit_xor-bitwise (lowest_digit (λ y. y) differ x y)

pub bit_and_step : (x y : ℕ) → bit_and x y ≡ min (x % 2) (y % 2) + 2 * bit_and (x / 2) (y / 2)
bit_and_step zero y = simp bit_and-bitwise (omega arith)
bit_and_step (suc x) y = simp bit_and-bitwise (lowest_digit (λ y. 0) min x y)

differ-zero : (a : ℕ) → differ a 0 ≡ a
differ-zero zero = refl
differ-zero (suc a) = refl

bit_xor-zero : (a : ℕ) → bit_xor a 0 ≡ a
bit_xor-zero =
    halving (λ n. bit_xor n 0 ≡ n) refl
      (λ n ih. omega (arith, ih, bit_xor_step (suc n) 0, differ-zero (suc n % 2)))

pub bit_and-zero : (a : ℕ) → bit_and a 0 ≡ 0
bit_and-zero =
    halving (λ n. bit_and n 0 ≡ 0) refl (λ n ih. omega (arith, ih, bit_and_step (suc n) 0))

-- `2 ^ (k + 1)` in a product.
pub double_field : (q k : ℕ) → q * 2 ^ suc k ≡ 2 * (q * 2 ^ k)
double_field q k = omega (arith, ap (λ t. q * t) (pow-suc 2 k))

-- One binary digit more: both numbers are even, and their halves are combined.
bit_xor_double : (a b : ℕ) → bit_xor (2 * a) (2 * b) ≡ 2 * bit_xor a b
bit_xor_double a b =
    let ea : 2 * a / 2 ≡ a = omega arith in
    let eb : 2 * b / 2 ≡ b = omega arith in
    let da : 2 * a % 2 ≡ 0 = omega arith in
    let db : 2 * b % 2 ≡ 0 = omega arith in
    bit_xor_step (2 * a) (2 * b) ∙ rw (ea, eb, da, db) (omega arith)

bit_xor_even_one : (q : ℕ) → bit_xor (2 * q) 1 ≡ 2 * q + 1
bit_xor_even_one q =
    let e : 2 * q / 2 ≡ q = omega arith in
    let d : 2 * q % 2 ≡ 0 = omega arith in
    bit_xor_step (2 * q) 1 ∙ rw (e, d) (omega (arith, bit_xor-zero q))

bit_xor_odd_one : (q : ℕ) → bit_xor (2 * q + 1) 1 ≡ 2 * q
bit_xor_odd_one q =
    let e : (2 * q + 1) / 2 ≡ q = omega arith in
    let d : (2 * q + 1) % 2 ≡ 1 = omega arith in
    bit_xor_step (2 * q + 1) 1 ∙ rw (e, d) (omega (arith, bit_xor-zero q))

pub bit_or_step : (x y : ℕ) → bit_or x y ≡ max (x % 2) (y % 2) + 2 * bit_or (x / 2) (y / 2)
bit_or_step zero y = simp bit_or-bitwise (omega arith)
bit_or_step (suc x) y = simp bit_or-bitwise (lowest_digit (λ y. y) max x y)

pub bit_or-zero : (x : ℕ) → bit_or x 0 ≡ x
bit_or-zero = halving (λ n. bit_or n 0 ≡ n) refl (λ n ih. omega (arith, ih, bit_or_step (suc n) 0))

-- `|` of a number shifted up and one that fits below it is their sum.
pub bit_or_field : (k high low : ℕ) → low < 2 ^ k → bit_or (high * 2 ^ k) low ≡ high * 2 ^ k + low
bit_or_field zero high low h = ground (arith, bit_or-zero high)
bit_or_field (suc k) high low h =
    let p : 2 ^ suc k ≡ 2 * 2 ^ k = omega (arith, pow-suc 2 k) in
    let ih = bit_or_field k high (low / 2) (omega arith) in
    ground (arith, ih, p, double_field high k, bit_or_step (high * 2 ^ suc k) low)

-- Flipping digit `n` of a multiple of `2 ^ n`: an even multiple goes up by one, an odd one down.
pub bit_xor_even : (n q : ℕ) → bit_xor (2 * q * 2 ^ n) (2 ^ n) ≡ (2 * q + 1) * 2 ^ n
bit_xor_even zero q =
    let e : 2 * q * 2 ^ 0 ≡ 2 * q = omega arith in rw e (omega (arith, bit_xor_even_one q))
bit_xor_even (suc n) q =
    let e : 2 * q * 2 ^ suc n ≡ 2 * (2 * q * 2 ^ n) = double_field (2 * q) n in
    let p : 2 ^ suc n ≡ 2 * 2 ^ n = omega (arith, pow-suc 2 n) in
    rw e (rw p (bit_xor_double (2 * q * 2 ^ n) (2 ^ n) ∙ rw (bit_xor_even n q) (omega arith)))

pub bit_xor_odd : (n q : ℕ) → bit_xor ((2 * q + 1) * 2 ^ n) (2 ^ n) ≡ 2 * q * 2 ^ n
bit_xor_odd zero q =
    let e : (2 * q + 1) * 2 ^ 0 ≡ 2 * q + 1 = omega arith in rw e (omega (arith, bit_xor_odd_one q))
bit_xor_odd (suc n) q =
    let e : (2 * q + 1) * 2 ^ suc n ≡ 2 * ((2 * q + 1) * 2 ^ n) = double_field (2 * q + 1) n in
    let p : 2 ^ suc n ≡ 2 * 2 ^ n = omega (arith, pow-suc 2 n) in
    rw e (rw p (bit_xor_double ((2 * q + 1) * 2 ^ n) (2 ^ n) ∙ rw (bit_xor_odd n q) (omega arith)))

pub two_pow_pos : (k : ℕ) → 1 ≤ 2 ^ k
two_pow_pos k = one-le-pow k 2 (omega arith)

low_digits : (k high low : ℕ) → low < 2 ^ k → bit_and (high * 2 ^ k + low) (2 ^ k - 1) ≡ low
low_digits zero high low h = rw bit_and-zero (omega arith)
low_digits (suc k) high low h =
    let p : 2 ^ suc k ≡ 2 * 2 ^ k = omega (arith, pow-suc 2 k) in
    let ih = low_digits k high (low / 2) (omega arith) in
    ground
      (arith, ih, p, double_field high k, bit_and_step (high * 2 ^ suc k + low) (2 ^ suc k - 1))

-- `x & ((1 << k) - 1)` is the remainder by `2 ^ k`.
pub bit_and_mask : (k x : ℕ) → bit_and x (2 ^ k - 1) ≡ x % 2 ^ k
bit_and_mask k x =
    let small : x % 2 ^ k < 2 ^ k = mod-lt x (two_pow_pos k) in
    ap (λ t. bit_and t (2 ^ k - 1)) (sym (div-add-mod' x (2 ^ k)))
    ∙ low_digits k (x / 2 ^ k) (x % 2 ^ k) small

pub pow_add : (k d : ℕ) → 2 ^ (k + d) ≡ 2 ^ k * 2 ^ d
pow_add zero d = let e : 0 + d ≡ d = omega arith in rw e (omega arith)
pow_add (suc k) d =
    let e : suc k + d ≡ suc (k + d) = omega arith in
    rw e (omega (arith, pow-suc 2 (k + d), pow_add k d, double_field (2 ^ d) k))

bit_and_high :
    (k d q r : ℕ)
    → r < 2 ^ k
    → q < 2 ^ d
    → bit_and (q * 2 ^ k + r) ((2 ^ d - 1) * 2 ^ k) ≡ q * 2 ^ k
bit_and_high zero d q r p h =
    let e : q * 2 ^ 0 + r ≡ q = omega arith in
    let m : (2 ^ d - 1) * 2 ^ 0 ≡ 2 ^ d - 1 = omega arith in
    rw (e, m) (omega (arith, bit_and_mask d q, mod-eq_of_lt h))
bit_and_high (suc k) d q r p h =
    let a : (q * 2 ^ suc k + r) / 2 ≡ q * 2 ^ k + r / 2 = omega (arith, double_field q k) in
    let b : (2 ^ d - 1) * 2 ^ suc k / 2 ≡ (2 ^ d - 1) * 2 ^ k =
      omega (arith, double_field (2 ^ d - 1) k) in
    let c : (2 ^ d - 1) * 2 ^ suc k % 2 ≡ 0 = omega (arith, double_field (2 ^ d - 1) k) in
    bit_and_step (q * 2 ^ suc k + r) ((2 ^ d - 1) * 2 ^ suc k)
    ∙ rw (a, b, c)
        (omega (arith, bit_and_high k d q (r / 2) (omega (arith, pow-suc 2 k)) h, double_field q k))

mask_factor : (a b : ℕ) → 1 ≤ a → 1 ≤ b → b * a - 1 - (b - 1) ≡ (a - 1) * b
mask_factor zero b p q = absurd (omega arith)
mask_factor (suc a) b p q = let e : suc a - 1 ≡ a = omega arith in rw e (omega arith)

-- `x & !((1 << k) - 1)` on words of `w` bits rounds down to a multiple of `2 ^ k`.
pub bit_and_not_mask :
    (w k x : ℕ) → k ≤ w → x < 2 ^ w → bit_and x (2 ^ w - 1 - (2 ^ k - 1)) ≡ x / 2 ^ k * 2 ^ k
bit_and_not_mask w k x h p =
    let pos : 1 ≤ 2 ^ k = two_pow_pos k in
    let rest : 2 ^ w ≡ 2 ^ k * 2 ^ (w - k) =
      let e : k + (w - k) ≡ w = omega arith in sym (ap (λ t. 2 ^ t) e) ∙ pow_add k (w - k) in
    let mask : 2 ^ w - 1 - (2 ^ k - 1) ≡ (2 ^ (w - k) - 1) * 2 ^ k =
      rw rest (mask_factor (2 ^ (w - k)) (2 ^ k) (two_pow_pos (w - k)) pos) in
    let parts : x ≡ x / 2 ^ k * 2 ^ k + x % 2 ^ k = sym (div-add-mod' x (2 ^ k)) in
    let small : x / 2 ^ k < 2 ^ (w - k) = (div-lt_iff_lt-mul pos).1 (omega (arith, rest)) in
    rw mask (
      ap (λ t. bit_and t ((2 ^ (w - k) - 1) * 2 ^ k)) parts
      ∙ bit_and_high k (w - k) (x / 2 ^ k) (x % 2 ^ k) (mod-lt x pos) small)
