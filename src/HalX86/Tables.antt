-- ===== src/HalX86/Tables.antt =====
-- lib/hal_x86_64/src/paging.rs: `PageTableImpl`, with four levels of tables, and `from_indices`.
pub mod Laws
mod Examples
use poplar.Prelude.{ℕ, Option, Outcome, ◌>>=◌, ◌>>◌, done}
use poplar.BitField.{GetBits, SetBits}
use poplar.BitFlags.{BitFlags}
use poplar.Hal.Arch.{x86_64}
use poplar.Hal.VAddr
use poplar.Hal.Frame.{FrameSize}
use poplar.Hal.Flags.{Flags}
use poplar.Hal.PageTable.{Paging}
use poplar.PageWalk.{Tables}
use poplar.PageWalk.Impl.{PageTableImpl, new_tables, translate_4, map_4, unmap_4}
use poplar.HalX86.Entry.{format}

module _ (b : BitFlags) (p : PageTableImpl) where
  unfoldable pub new : (ℕ → ℕ → ℕ) → Outcome (ℕ → ℕ → ℕ)
  new memory = new_tables (format b) p memory

  module _ (get_bits : GetBits) where
    unfoldable pub translate : (ℕ → ℕ → ℕ) → ℕ → Outcome (Option ℕ)
    translate memory address = translate_4 (format b) p get_bits memory address

    unfoldable pub map :
        {A : Type 0}
        → (A → Outcome (ℕ × A))
        → FrameSize
        → ℕ
        → ℕ
        → Flags
        → Tables A
        → Paging (Tables A)
    map allocate s page frame flags tables =
        map_4 (format b) p get_bits allocate s page frame flags tables

    unfoldable pub unmap : FrameSize → ℕ → (ℕ → ℕ → ℕ) → Outcome (Option ℕ × (ℕ → ℕ → ℕ))
    unmap s page memory = unmap_4 (format b) p get_bits s page memory

-- `VAddrIndices::from_indices`
unfoldable pub from_indices : SetBits → ℕ → ℕ → ℕ → ℕ → Outcome ℕ
from_indices set_bits p4 p3 p2 p1 = do
  a1 ← set_bits 0 12 21 p1
  a2 ← set_bits a1 21 30 p2
  a3 ← set_bits a2 30 39 p3
  a4 ← set_bits a3 39 48 p4
  done (VAddr.new x86_64 a4)
