-- ===== src/Hal/PAddr.antt =====
-- lib/hal/src/memory/physical_address.rs: `PAddr` and its arithmetic.
pub mod Laws
use poplar.Prelude.{
  ℕ, ◌-◌, ◌%◌, ◌^◌, Bool, Option, none, some, ltb, leb, ◌==◌, if◌then◌else◌, Outcome, done, bit_and,
  ◌>>=◌, ◌>>◌, assert, unwrap,
}
use poplar.Hal.Arch.{Arch, x86_64, riscv64_sv48, riscv64_sv39}
use poplar.Hal.Usize
use poplar.Hal.Usize.{complement, is_power_of_two}

-- `PAddr::new`
unfoldable pub new : Arch → ℕ → Option ℕ
new x86_64 address = if leb address (2 ^ 52 - 1) then some address else none
new riscv64_sv48 address = some address
new riscv64_sv39 address = some address

-- `PAddr::align_down`
unfoldable pub align_down : ℕ → ℕ → Outcome ℕ
unfolding is_power_of_two
align_down address align =
    if is_power_of_two align
    then done (bit_and address (complement (align - 1)))
    else do assert (align == 0); done address

-- `PAddr::align_up`: `self.0 + align - 1`, with its two overflow checks, then `align_down`.
unfoldable pub align_up : ℕ → ℕ → Outcome ℕ
unfolding Usize.checked_add Usize.checked_sub
align_up address align = do
  sum ← unwrap (Usize.checked_add address align)
  last ← unwrap (Usize.checked_sub sum 1)
  align_down last align

unfoldable pub is_aligned : ℕ → ℕ → Bool
is_aligned address align = address % align == 0

-- `PAddr::checked_add` and `PAddr::checked_sub`: the `?` returns `None`.
unfoldable pub checked_add : Arch → ℕ → ℕ → Option ℕ
unfolding Usize.checked_add new
checked_add arch address rhs = elim (Usize.checked_add address rhs) [
  | none ↦ none
  | some sum ↦ new arch sum
]

unfoldable pub checked_sub : Arch → ℕ → ℕ → Option ℕ
unfolding Usize.checked_sub new
checked_sub arch address rhs = elim (Usize.checked_sub address rhs) [
  | none ↦ none
  | some diff ↦ new arch diff
]

-- `impl Add<usize> for PAddr` and `impl Sub<usize> for PAddr`, which `+=` and `-=` go through.
unfoldable pub add : Arch → ℕ → ℕ → Outcome ℕ
unfolding Usize.checked_add new
add arch address rhs = do sum ← unwrap (Usize.checked_add address rhs); unwrap (new arch sum)

unfoldable pub sub : Arch → ℕ → ℕ → Outcome ℕ
unfolding Usize.checked_sub new
sub arch address rhs = do diff ← unwrap (Usize.checked_sub address rhs); unwrap (new arch diff)
