-- ===== src/Hal/PAddr/Laws.antt =====
-- `PAddr`: a constructed address is in range, and alignment rounds to the nearest multiple.
use poplar.Prelude.{
  ℕ, ◌+◌, ◌-◌, ◌*◌, ◌/◌, ◌^◌, ◌≤◌, ◌<◌, ◌≡◌, some, arith, done, panic, if◌then◌else◌, ◌==◌, ◌↔◌,
}
use poplar.Prelude.Bits.{two_pow_pos}
use poplar.Hal.Arch.{Arch, x86_64, riscv64_sv48, riscv64_sv39, physical_limit}
use poplar.Hal.Usize.{
  is_power_of_two, is_power_of_two_pow, round_down, RoundsDown, RoundsUp, div-mul-RoundsDown,
  div-mul-RoundsUp,
}
use poplar.Hal.PAddr.{new, align_down, align_up, checked_add, add, sub}

-- In range, `new` succeeds.
pub new_in_range :
    (arch : Arch) (address : ℕ) → address < physical_limit arch → new arch address ≡ some address
unfolding new
new_in_range x86_64 address h = ground arith
new_in_range riscv64_sv48 address h = ground arith
new_in_range riscv64_sv39 address h = ground arith

pub align_down_pow :
    (k address : ℕ)
    → k ≤ 64
    → address < 2 ^ 64
    → align_down address (2 ^ k) ≡ done (address / 2 ^ k * 2 ^ k)
unfolding align_down
align_down_pow k address h p = rw (is_power_of_two_pow k) (rw (round_down k address h p))

-- For every power of two that a `usize` holds, `PAddr::align_down` gives the greatest multiple of
-- it at or below the address.
pub align_down-RoundsDown :
    (k address : ℕ)
    → k ≤ 63
    → address < 2 ^ 64
    → (y : ℕ) × (align_down address (2 ^ k) ≡ done y) × RoundsDown (2 ^ k) address y
align_down-RoundsDown k address h p = (
  address / 2 ^ k * 2 ^ k,
  align_down_pow k address (omega arith) p,
  div-mul-RoundsDown (2 ^ k) address (two_pow_pos k),
)

-- For every power of two that a `usize` holds, `PAddr::align_up` gives the least multiple of it at
-- or above the address, where the sum of the two fits a `usize`.
pub align_up-RoundsUp :
    (k address : ℕ)
    → k ≤ 63
    → address + 2 ^ k < 2 ^ 64
    → (y : ℕ) × (align_up address (2 ^ k) ≡ done y) × RoundsUp (2 ^ k) address y
unfolding align_up
align_up-RoundsUp k address h p = (
  (address + 2 ^ k - 1) / 2 ^ k * 2 ^ k,
  ground (arith, two_pow_pos k, align_down_pow k (address + 2 ^ k - 1)),
  div-mul-RoundsUp (2 ^ k) address (two_pow_pos k),
)

-- The documented alignment of 0 is not supported by `align_up`: it moves a positive address down by
-- one, and panics at address 0.
pub align_up-zero :
    (address : ℕ)
    → address < 2 ^ 64
    → align_up address 0 ≡ (if address == 0 then panic else done (address - 1))
unfolding align_up align_down is_power_of_two
align_up-zero address h = ground arith

-- `checked_add` succeeds exactly when the sum is a physical address, and returns the sum.
pub checked_add_iff :
    (arch : Arch) (address rhs y : ℕ)
    → (checked_add arch address rhs ≡ some y)
      ↔ ((y ≡ address + rhs) × (address + rhs < physical_limit arch))
unfolding checked_add
checked_add_iff x86_64 address rhs y = (λ h. ground arith, λ h. ground arith)
checked_add_iff riscv64_sv48 address rhs y = (λ h. ground arith, λ h. ground arith)
checked_add_iff riscv64_sv39 address rhs y = (λ h. ground arith, λ h. ground arith)

-- What `+` adds `-` takes away, on every physical address that the sum leaves in range.
pub sub-add :
    (arch : Arch) (address rhs : ℕ)
    → address + rhs < physical_limit arch
    → (add arch address rhs ≡ done (address + rhs)) × (sub arch (address + rhs) rhs ≡ done address)
unfolding add sub
sub-add x86_64 address rhs h = (ground arith, ground arith)
sub-add riscv64_sv48 address rhs h = (ground arith, ground arith)
sub-add riscv64_sv39 address rhs h = (ground arith, ground arith)
