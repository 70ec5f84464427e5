-- ===== src/HalRiscv/Tables/Laws.antt =====
-- The page tables of RISC-V are a map from pages to frames.
use poplar.Prelude.{ℕ, ◌+◌, ◌%◌, ◌^◌, ◌≤◌, ◌≡◌, some, Outcome, done, arith, ◌==◌, if◌then◌else◌}
use poplar.BitField.{GetBits, ReadsBits}
use poplar.BitFlags.{BitFlags, FollowsBits}
use poplar.Hal.Arch.{riscv64_sv48, riscv64_sv39}
use poplar.Hal.Frame.{size_4kib}
use poplar.Hal.Flags.{Flags}
use poplar.Hal.PageTable.{ok}
use poplar.PageWalk.{Tables}
use poplar.PageWalk.Impl.{PageTableImpl, top_table}
use poplar.PageWalk.Tree.{Holds, IsFormat, Pages}
use poplar.PageWalk.Create.{Allocates, HasFrames, Represents}
use poplar.PageWalk.FourLevel
use poplar.PageWalk.FourLevel.{translate_4-lookup, four-KeepsPages}
use poplar.PageWalk.ThreeLevel
use poplar.PageWalk.ThreeLevel.{translate_3-lookup, three-KeepsPages}
use poplar.PageWalk.MapTranslate.{translate-map_lem, unmap-map_lem}
use poplar.HalRiscv.Entry.Laws.{format-IsFormat}
use poplar.HalRiscv.Tables.{
  format_48, format_39, translate_48, translate_39, map_48, map_39, unmap_48, unmap_39,
}

module _ (b : BitFlags) (laws : FollowsBits b) (p : PageTableImpl) (limit : ℕ)
    (whole : limit % 2 ^ 30 ≡ 0) (le : limit ≤ 2 ^ 56) {A : Type 0} {Available : A → ℕ → Type 0}
    (t : ℕ) (get_bits : GetBits) (reads : ReadsBits get_bits)
    (top : top_table (format_48 b get_bits) p ≡ done t) (pages : Pages) (s : Tables A)
    (r : Represents (format_48 b get_bits) limit p.physical_base 4 t Available pages s) where
  format_48-IsFormat : IsFormat (format_48 b get_bits) limit
  format_48-IsFormat =
      format-IsFormat b laws riscv64_sv48 (omega arith) get_bits reads limit whole le

  module _ {allocate : A → Outcome (ℕ × A)}
      (allocates : Allocates (format_48 b get_bits) limit p.physical_base allocate Available)
      (reach : p.physical_base + limit ≤ 2 ^ 64) (flags : Flags) (page frame : ℕ) (s' : Tables A)
      (holds : Holds limit size_4kib frame) (frames : HasFrames allocate 3 s.frames)
      (succeeds : map_48 b get_bits p allocate size_4kib page frame flags s ≡ ok s') where
    -- With Sv48, after a `map` of a small page that succeeds, three frames being left for tables,
    -- `translate` of an address in the page gives the address in the frame, and every other address is
    -- translated as before.
    pub translate-map_48 :
        (address : ℕ)
        → translate_48 b get_bits p s'.memory address ≡ (
            if FourLevel.small_number address == FourLevel.small_number page
            then done (some (frame + address % 2 ^ 12))
            else translate_48 b get_bits p s.memory address)
    unfolding translate_48 map_48
    translate-map_48 address =
        translate-map_lem (format_48 b get_bits) limit p.physical_base 4 t Available allocate
          (four-KeepsPages format_48-IsFormat p t top get_bits reads allocates reach flags) pages s
          s' r page frame holds frames succeeds address

    -- With Sv48, after a `map` of a small page that succeeds, three frames being left for tables,
    -- `unmap` of the page returns the frame, and leaves memory in which every address is translated as
    -- it was before the page was mapped.
    pub unmap-map_48 :
        (memory : ℕ → ℕ → ℕ) × (unmap_48 b get_bits p size_4kib page s'.memory
          ≡ done (some frame, memory))
        × ((address : ℕ)
            → translate_48 b get_bits p memory address ≡ translate_48 b get_bits p s.memory address)
    unfolding translate_48 map_48 unmap_48
    unmap-map_48 =
        unmap-map_lem (format_48 b get_bits) limit p.physical_base 4 t Available allocate
          (four-KeepsPages format_48-IsFormat p t top get_bits reads allocates reach flags) pages s
          s' r page frame holds frames succeeds

module _ (b : BitFlags) (laws : FollowsBits b) (p : PageTableImpl) (limit : ℕ)
    (whole : limit % 2 ^ 30 ≡ 0) (le : limit ≤ 2 ^ 56) {A : Type 0} {Available : A → ℕ → Type 0}
    (t : ℕ) (get_bits : GetBits) (reads : ReadsBits get_bits)
    (top : top_table (format_39 b get_bits) p ≡ done t) (pages : Pages) (s : Tables A)
    (r : Represents (format_39 b get_bits) limit p.physical_base 3 t Available pages s) where
  format_39-IsFormat : IsFormat (format_39 b get_bits) limit
  format_39-IsFormat =
      format-IsFormat b laws riscv64_sv39 (omega arith) get_bits reads limit whole le

  module _ {allocate : A → Outcome (ℕ × A)}
      (allocates : Allocates (format_39 b get_bits) limit p.physical_base allocate Available)
      (reach : p.physical_base + limit ≤ 2 ^ 64) (flags : Flags) (page frame : ℕ) (s' : Tables A)
      (holds : Holds limit size_4kib frame) (frames : HasFrames allocate 2 s.frames)
      (succeeds : map_39 b get_bits p allocate size_4kib page frame flags s ≡ ok s') where
    -- With Sv39, after a `map` of a small page that succeeds, two frames being left for tables,
    -- `unmap` of the page returns the frame, and leaves memory in which every address is translated as
    -- it was before the page was mapped.
    pub unmap-map_39 :
        (memory : ℕ → ℕ → ℕ) × (unmap_39 b get_bits p size_4kib page s'.memory
          ≡ done (some frame, memory))
        × ((address : ℕ)
            → translate_39 b get_bits p memory address ≡ translate_39 b get_bits p s.memory address)
    unfolding translate_39 map_39 unmap_39
    unmap-map_39 =
        unmap-map_lem (format_39 b get_bits) limit p.physical_base 3 t Available allocate
          (three-KeepsPages format_39-IsFormat p t top get_bits reads allocates reach flags) pages s
          s' r page frame holds frames succeeds
