-- ===== src/HalRiscv/Tables.antt =====
-- lib/hal_riscv/src/paging.rs: `PageTableImpl<Level4>`, for Sv48, and `PageTableImpl<Level3>`, for Sv39.
pub mod Laws
mod Examples
use poplar.Prelude.{ℕ, Option, Outcome}
use poplar.BitField.{GetBits}
use poplar.BitFlags.{BitFlags}
use poplar.Hal.Arch.{riscv64_sv48, riscv64_sv39}
use poplar.Hal.Frame.{FrameSize}
use poplar.Hal.Flags.{Flags}
use poplar.Hal.PageTable.{Paging}
use poplar.PageWalk.{EntryFormat, Tables}
use poplar.PageWalk.Impl.{
  PageTableImpl, new_tables, translate_4, translate_3, map_4, map_3, unmap_4, unmap_3,
}
use poplar.HalRiscv.Entry.{format}

module _ (b : BitFlags) (get_bits : GetBits) where
  abbrev pub format_48 : EntryFormat
  format_48 = format b riscv64_sv48 get_bits

  abbrev pub format_39 : EntryFormat
  format_39 = format b riscv64_sv39 get_bits

  module _ (p : PageTableImpl) where
    unfoldable pub new_48 : (ℕ → ℕ → ℕ) → Outcome (ℕ → ℕ → ℕ)
    new_48 memory = new_tables format_48 p memory

    unfoldable pub translate_48 : (ℕ → ℕ → ℕ) → ℕ → Outcome (Option ℕ)
    translate_48 memory address = translate_4 format_48 p get_bits memory address

    unfoldable pub map_48 :
        {A : Type 0}
        → (A → Outcome (ℕ × A))
        → FrameSize
        → ℕ
        → ℕ
        → Flags
        → Tables A
        → Paging (Tables A)
    map_48 allocate s page frame flags tables =
        map_4 format_48 p get_bits allocate s page frame flags tables

    unfoldable pub unmap_48 : FrameSize → ℕ → (ℕ → ℕ → ℕ) → Outcome (Option ℕ × (ℕ → ℕ → ℕ))
    unmap_48 s page memory = unmap_4 format_48 p get_bits s page memory

    unfoldable pub translate_39 : (ℕ → ℕ → ℕ) → ℕ → Outcome (Option ℕ)
    translate_39 memory address = translate_3 format_39 p get_bits memory address

    unfoldable pub map_39 :
        {A : Type 0}
        → (A → Outcome (ℕ × A))
        → FrameSize
        → ℕ
        → ℕ
        → Flags
        → Tables A
        → Paging (Tables A)
    map_39 allocate s page frame flags tables =
        map_3 format_39 p get_bits allocate s page frame flags tables

    unfoldable pub unmap_39 : FrameSize → ℕ → (ℕ → ℕ → ℕ) → Outcome (Option ℕ × (ℕ → ℕ → ℕ))
    unmap_39 s page memory = unmap_3 format_39 p get_bits s page memory
