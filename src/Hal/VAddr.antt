-- ===== src/Hal/VAddr.antt =====
-- lib/hal/src/memory/virtual_address.rs: `VAddr` and its arithmetic. The fourth case of the `cfg`,
-- an architecture without canonical addresses, is none of the targets.
pub mod Laws
use poplar.Prelude.{
  ℕ, ◌-◌, ◌*◌, ◌/◌, ◌%◌, ◌^◌, Bool, Option, none, some, ◌==◌, if◌then◌else◌, Outcome, done, bit_and,
  bit_or, ◌>>=◌, ◌>>◌, assert, unwrap,
}
use poplar.Hal.Arch.{Arch, x86_64, riscv64_sv48, riscv64_sv39}
use poplar.Hal.Usize
use poplar.Hal.Usize.{complement, is_power_of_two}

-- The constant `SIGN_EXTENSION`: the bits above the 48 or 39 that are translated.
abbrev sign_extension_48 : ℕ
sign_extension_48 = (2 ^ 16 - 1) * 2 ^ 48

abbrev sign_extension_39 : ℕ
sign_extension_39 = (2 ^ 25 - 1) * 2 ^ 39

-- `(SIGN_EXTENSION * ((self.0 >> 47) & 0b1)) | (self.0 & ((1 << 48) - 1))`, and the same for 39
-- bits. The product is below 2^64.
unfoldable pub canonicalise : Arch → ℕ → ℕ
canonicalise x86_64 address =
    bit_or (sign_extension_48 * bit_and (address / 2 ^ 47) 1) (bit_and address (2 ^ 48 - 1))
canonicalise riscv64_sv48 address =
    bit_or (sign_extension_48 * bit_and (address / 2 ^ 47) 1) (bit_and address (2 ^ 48 - 1))
canonicalise riscv64_sv39 address =
    bit_or (sign_extension_39 * bit_and (address / 2 ^ 38) 1) (bit_and address (2 ^ 39 - 1))

unfoldable pub new : Arch → ℕ → ℕ
new arch address = canonicalise arch address

unfoldable pub align_down : ℕ → ℕ → Outcome ℕ
unfolding is_power_of_two
align_down address align =
    if is_power_of_two align
    then done (bit_and address (complement (align - 1)))
    else do assert (align == 0); done address

unfoldable pub align_up : ℕ → ℕ → Outcome ℕ
unfolding Usize.checked_add Usize.checked_sub
align_up address align = do
  sum ← unwrap (Usize.checked_add address align)
  last ← unwrap (Usize.checked_sub sum 1)
  align_down last align

unfoldable pub is_aligned : ℕ → ℕ → Bool
is_aligned address align = address % align == 0

unfoldable pub checked_add : Arch → ℕ → ℕ → Option ℕ
unfolding Usize.checked_add
checked_add arch address rhs = elim (Usize.checked_add address rhs) [
  | none ↦ none
  | some sum ↦ some (new arch sum)
]

unfoldable pub checked_sub : Arch → ℕ → ℕ → Option ℕ
unfolding Usize.checked_sub
checked_sub arch address rhs = elim (Usize.checked_sub address rhs) [
  | none ↦ none
  | some diff ↦ some (new arch diff)
]

unfoldable pub add : Arch → ℕ → ℕ → Outcome ℕ
unfolding Usize.checked_add
add arch address rhs = do sum ← unwrap (Usize.checked_add address rhs); done (new arch sum)

unfoldable pub sub : Arch → ℕ → ℕ → Outcome ℕ
unfolding Usize.checked_sub
sub arch address rhs = do diff ← unwrap (Usize.checked_sub address rhs); done (new arch diff)
