-- ===== src/Hal/Arch.antt =====
-- The target architectures that the `cfg` attributes of lib/hal tell apart.
use poplar.Prelude.{ℕ, ◌^◌}

pub data Arch : Type 0 where
  x86_64 riscv64_sv48 riscv64_sv39 : Arch

-- The first `usize` that is no physical address: `PAddr::new` keeps below 2^52 on x86_64, and
-- elsewhere every `usize` is one.
abbrev pub physical_limit : Arch → ℕ
physical_limit Arch.x86_64 = 2 ^ 52
physical_limit Arch.riscv64_sv48 = 2 ^ 64
physical_limit Arch.riscv64_sv39 = 2 ^ 64
