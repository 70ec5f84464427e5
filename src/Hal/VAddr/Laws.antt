-- ===== src/Hal/VAddr/Laws.antt =====
-- `VAddr`: canonical addresses, and arithmetic that stays canonical.
use native.Mathlib.Nat.{mod-lt}
use poplar.Prelude.{
  ℕ, ◌+◌, ◌-◌, ◌*◌, ◌/◌, ◌%◌, ◌^◌, ◌≤◌, ◌<◌, ◌≡◌, ◌↔◌, ◌⊎◌, arith, ltb, if◌then◌else◌, done,
  bit_and, bit_or,
}
use poplar.Prelude.Bits.{bit_and_mask, bit_or_field, two_pow_pos}
use poplar.Hal.Arch.{Arch, x86_64, riscv64_sv48, riscv64_sv39}
use poplar.Hal.VAddr.{canonicalise, new, add, sub}

-- The bits of an address that are translated, of which the highest is the sign.
abbrev pub translated_bits : Arch → ℕ
translated_bits x86_64 = 48
translated_bits riscv64_sv48 = 48
translated_bits riscv64_sv39 = 39

-- Half of the range that the translated bits span.
abbrev pub half : Arch → ℕ
half x86_64 = 2 ^ 47
half riscv64_sv48 = 2 ^ 47
half riscv64_sv39 = 2 ^ 38

abbrev pub IsCanonical : Arch → ℕ → Type 0
IsCanonical arch address =
    (address < half arch) ⊎ ((2 ^ 64 - half arch ≤ address) × (address < 2 ^ 64))

-- The sign's copies and the address's low bits are disjoint, so that `|` adds them.
sign_extend :
    (width extension address : ℕ)
    → bit_or
        (extension * 2 ^ width * bit_and (address / 2 ^ (width - 1)) 1)
        (bit_and address (2 ^ width - 1))
      ≡ extension * 2 ^ width * (address / 2 ^ (width - 1) % 2) + address % 2 ^ width
sign_extend width extension address =
    let sign = address / 2 ^ (width - 1) % 2 in
    let move : extension * 2 ^ width * sign ≡ extension * sign * 2 ^ width = omega arith in
    let small : address % 2 ^ width < 2 ^ width = mod-lt address (two_pow_pos width) in
    rw (bit_and_mask 1 (address / 2 ^ (width - 1)), bit_and_mask width address, move)
      (bit_or_field width (extension * sign) (address % 2 ^ width) small)

pub canonicalise_arith :
    (arch : Arch) (address : ℕ)
    → canonicalise arch address ≡ (
        if ltb (address % (2 * half arch)) (half arch)
        then address % (2 * half arch)
        else address % (2 * half arch) + (2 ^ 64 - 2 * half arch))
unfolding canonicalise
canonicalise_arith x86_64 address = ground (arith, sign_extend 48 (2 ^ 16 - 1) address)
canonicalise_arith riscv64_sv48 address = ground (arith, sign_extend 48 (2 ^ 16 - 1) address)
canonicalise_arith riscv64_sv39 address = ground (arith, sign_extend 39 (2 ^ 25 - 1) address)

-- Whatever `usize` it is given, `VAddr::new` makes a canonical address with the same translated
-- bits.
pub new-IsCanonical :
    (arch : Arch) (address : ℕ)
    → address < 2 ^ 64
    → IsCanonical arch (new arch address)
      × (new arch address % 2 ^ translated_bits arch ≡ address % 2 ^ translated_bits arch)
unfolding new
new-IsCanonical x86_64 address h = (
  ground (arith, canonicalise_arith x86_64 address),
  ground (arith, canonicalise_arith x86_64 address),
)
new-IsCanonical riscv64_sv48 address h = (
  ground (arith, canonicalise_arith riscv64_sv48 address),
  ground (arith, canonicalise_arith riscv64_sv48 address),
)
new-IsCanonical riscv64_sv39 address h = (
  ground (arith, canonicalise_arith riscv64_sv39 address),
  ground (arith, canonicalise_arith riscv64_sv39 address),
)

-- The canonical addresses are those that `VAddr::new` leaves alone.
pub new_iff :
    (arch : Arch) (address : ℕ)
    → address < 2 ^ 64
    → (new arch address ≡ address) ↔ IsCanonical arch address
unfolding new
new_iff x86_64 address h = (
  λ e. ground (arith, canonicalise_arith x86_64 address),
  λ c. ground (arith, canonicalise_arith x86_64 address),
)
new_iff riscv64_sv48 address h = (
  λ e. ground (arith, canonicalise_arith riscv64_sv48 address),
  λ c. ground (arith, canonicalise_arith riscv64_sv48 address),
)
new_iff riscv64_sv39 address h = (
  λ e. ground (arith, canonicalise_arith riscv64_sv39 address),
  λ c. ground (arith, canonicalise_arith riscv64_sv39 address),
)

-- From a canonical address, `+` and then `-` of the same number come back to it, also where the sum
-- was moved into the other half, as long as neither overflows.
pub sub-add_canonical :
    (arch : Arch) (address rhs sum diff : ℕ)
    → IsCanonical arch address
    → add arch address rhs ≡ done sum
    → sub arch sum rhs ≡ done diff
    → diff ≡ address
unfolding add sub new
sub-add_canonical x86_64 address rhs sum diff c e f =
    ground (arith, canonicalise_arith x86_64 (address + rhs), canonicalise_arith x86_64 (sum - rhs))
sub-add_canonical riscv64_sv48 address rhs sum diff c e f = ground (
  arith,
  canonicalise_arith riscv64_sv48 (address + rhs),
  canonicalise_arith riscv64_sv48 (sum - rhs),
)
sub-add_canonical riscv64_sv39 address rhs sum diff c e f = ground (
  arith,
  canonicalise_arith riscv64_sv39 (address + rhs),
  canonicalise_arith riscv64_sv39 (sum - rhs),
)
