-- ===== src/MapArea/Examples.antt =====
-- A page table that records the mappings it is asked for, and areas mapped with it.
use poplar.Prelude.{ℕ, ◌≡◌, refl, List, [], ◌∷◌, ◌++◌, inl, inr, arith}
use poplar.Hal.Arch.{x86_64}
use poplar.Hal.Frame.{FrameSize}
use poplar.Hal.Flags.{Flags, default}
use poplar.Hal.PageTable.{Paging, ok, crash}
use poplar.Hal.PageTable.Laws.{Mapping, Tiles, map_all}
use poplar.MapArea.{map_area}
use poplar.MapArea.Laws.{IsMappable, map_area-Tiles}
use poplar.MapArea.Overflow.{map_area_overflow}

abbrev record_mapping : FrameSize → ℕ → ℕ → Flags → List Mapping → Paging (List Mapping)
record_mapping s page frame flags ms =
    ok (ms ++ (record { page_size = s; page = page; frame = frame } ∷ []))

-- 2 MiB from 0x1000_0000 on, then five small pages.
area-IsMappable : IsMappable x86_64 0x10000000 0x20000000 0x205000
area-IsMappable = record {
  virtual_aligned = refl;
  physical_aligned = refl;
  whole = refl;
  half = inl (omega arith);
  physical = omega arith;
  sum = omega arith;
  room = omega arith;
}

map_area-Tiles_example :
    (ms : List Mapping) × Tiles 0x10000000 0x20000000 ms 0x205000
    × ((t : List Mapping)
        → map_area x86_64 record_mapping default 0x10000000 0x20000000 0x205000 t
          ≡ map_all record_mapping default ms t)
map_area-Tiles_example =
    map_area-Tiles x86_64 record_mapping default 0x10000000 0x20000000 0x205000 area-IsMappable

map_area_overflow_example :
    map_area x86_64 record_mapping default 0xffffffff80000000 0x80000000 0x200000 [] ≡ crash
map_area_overflow_example =
    map_area_overflow x86_64 record_mapping default 0xffffffff80000000 0x80000000 0x200000 [] refl
      refl refl (omega arith) refl (inr (omega arith, omega arith)) (omega arith)
