-- ===== src/MapArea/Riscv.antt =====
-- lib/hal_riscv/src/paging.rs: `map_area` of the page tables for Sv48 and for Sv39, in the words of
-- lib/hal_x86_64/src/paging.rs.
use poplar.Prelude.{ℕ}
use poplar.Hal.Arch.{riscv64_sv48, riscv64_sv39}
use poplar.Hal.Frame.{FrameSize}
use poplar.Hal.Flags.{Flags}
use poplar.Hal.PageTable.{Paging}
use poplar.MapArea.{map_area}

module _ {T : Type 0} (map : FrameSize → ℕ → ℕ → Flags → T → Paging T) (flags : Flags) where
  unfoldable pub map_area_sv48 : ℕ → ℕ → ℕ → T → Paging T
  unfolding map_area
  map_area_sv48 virtual_start physical_start bytes t =
      map_area riscv64_sv48 map flags virtual_start physical_start bytes t

  unfoldable pub map_area_sv39 : ℕ → ℕ → ℕ → T → Paging T
  unfolding map_area
  map_area_sv39 virtual_start physical_start bytes t =
      map_area riscv64_sv39 map flags virtual_start physical_start bytes t
