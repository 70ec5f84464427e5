-- ===== src/HalRiscv/Tables/Examples.antt =====
-- A new page table, in which the page at 4 MiB is mapped to the frame at 0x7000.
use poplar.Prelude.{ℕ, ◌+◌, ◌%◌, ◌^◌, ◌≡◌, ◌≢◌, refl, true, some, done, arith, ◌==◌, if◌then◌else◌}
use poplar.Hal.VAddr
use poplar.Hal.PAddr
use poplar.Hal.Frame.{size, size_4kib}
use poplar.Hal.Flags.{default}
use poplar.Hal.PageTable.{Paging}
use poplar.PageWalk
use poplar.PageWalk.{Tables, zero_table}
use poplar.PageWalk.Impl.{top_table, map_4, map_3}
use poplar.PageWalk.Create.{HasFrames, Represents}
use poplar.PageWalk.FourLevel
use poplar.PageWalk.ThreeLevel
use poplar.PageWalk.Start.{no_pages, new_tables-Represents}
use poplar.PageWalk.TestData.{
  bits, bits-FollowsBits, get_bits, get_bits-ReadsBits, allocate, Available, pointer_lem,
  allocate-Allocates, page_table, blank, state_of, is_ok, ok_state,
}
use poplar.HalRiscv.Entry
use poplar.HalRiscv.Tables.{
  format_48, format_39, translate_48, translate_39, map_48, map_39, unmap_39,
}
use poplar.HalRiscv.Tables.Laws.{translate-map_48, unmap-map_39}

abbrev start : Tables ℕ
start = record { memory = zero_table blank.memory 4096; frames = 2 }

fresh_frames : (c : ℕ) → Available blank.frames c → c ≢ 4096
fresh_frames c h e = absurd (omega (arith, h, e))

three_frames : HasFrames allocate 3 2
three_frames = (8192, 3, refl, (12288, 4, refl, (16384, 5, refl, tt)))

two_frames : HasFrames allocate 2 2
two_frames = (8192, 3, refl, (12288, 4, refl, tt))

at_top_48 : top_table (format_48 bits get_bits) page_table ≡ done 4096
at_top_48 = pointer_lem (format_48 bits get_bits) 4096 (omega arith)

start_48 : Represents (format_48 bits get_bits) (2 ^ 30) 0 4 4096 Available no_pages start
start_48 =
    (new_tables-Represents (format_48 bits get_bits) (2 ^ 30) page_table Available 4 4096
      (omega arith) at_top_48 blank fresh_frames).1

abbrev mapped_48 : Paging (Tables ℕ)
mapped_48 = map_48 bits get_bits page_table allocate size_4kib 0x400000 0x7000 default start

mapped_ok_48 : is_ok mapped_48 ≡ true
unfolding map_48 map_4 PageWalk.map_from_p4 PageWalk.map_from_p3 PageWalk.next_table_create
    PageWalk.create_table PageWalk.next_table PageWalk.existing_table PageWalk.fill PageWalk.pointer
    VAddr.add VAddr.new VAddr.canonicalise Entry.address Entry.table_entry Entry.leaf_entry
    Entry.is_valid Entry.is_leaf PAddr.new
mapped_ok_48 = refl

translate-map_48_example :
    translate_48 bits get_bits page_table (state_of mapped_48).memory 0x400123 ≡ (
      if FourLevel.small_number 0x400123 == FourLevel.small_number 0x400000
      then done (some (0x7000 + 0x400123 % 2 ^ 12))
      else translate_48 bits get_bits page_table start.memory 0x400123)
unfolding size
translate-map_48_example =
    translate-map_48 bits bits-FollowsBits page_table (2 ^ 30) (omega arith) (omega arith) 4096
      get_bits get_bits-ReadsBits at_top_48 no_pages start start_48
      (allocate-Allocates (format_48 bits get_bits)) (omega arith) default 0x400000 0x7000
      (state_of mapped_48) (omega arith, omega arith) three_frames (ok_state mapped_48 mapped_ok_48)
      0x400123

at_top_39 : top_table (format_39 bits get_bits) page_table ≡ done 4096
at_top_39 = pointer_lem (format_39 bits get_bits) 4096 (omega arith)

start_39 : Represents (format_39 bits get_bits) (2 ^ 30) 0 3 4096 Available no_pages start
start_39 =
    (new_tables-Represents (format_39 bits get_bits) (2 ^ 30) page_table Available 3 4096
      (omega arith) at_top_39 blank fresh_frames).1

abbrev mapped_39 : Paging (Tables ℕ)
mapped_39 = map_39 bits get_bits page_table allocate size_4kib 0x400000 0x7000 default start

mapped_ok_39 : is_ok mapped_39 ≡ true
unfolding map_39 map_3 PageWalk.map_from_p4 PageWalk.map_from_p3 PageWalk.next_table_create
    PageWalk.create_table PageWalk.next_table PageWalk.existing_table PageWalk.fill PageWalk.pointer
    VAddr.add VAddr.new VAddr.canonicalise Entry.address Entry.table_entry Entry.leaf_entry
    Entry.is_valid Entry.is_leaf PAddr.new
mapped_ok_39 = refl

unmap-map_39_example :
    (memory : ℕ → ℕ → ℕ) × (unmap_39 bits get_bits page_table size_4kib 0x400000
        (state_of mapped_39).memory
      ≡ done (some 0x7000, memory))
    × ((address : ℕ)
        → translate_39 bits get_bits page_table memory address
          ≡ translate_39 bits get_bits page_table start.memory address)
unfolding size
unmap-map_39_example =
    unmap-map_39 bits bits-FollowsBits page_table (2 ^ 30) (omega arith) (omega arith) 4096 get_bits
      get_bits-ReadsBits at_top_39 no_pages start start_39
      (allocate-Allocates (format_39 bits get_bits)) (omega arith) default 0x400000 0x7000
      (state_of mapped_39) (omega arith, omega arith) two_frames (ok_state mapped_39 mapped_ok_39)
