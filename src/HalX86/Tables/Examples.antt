-- ===== src/HalX86/Tables/Examples.antt =====
-- A new page table, in which the page at 4 MiB is mapped to the frame at 0x7000.
use poplar.Prelude.{
  ℕ, ◌+◌, ◌-◌, ◌*◌, ◌/◌, ◌%◌, ◌^◌, ◌≡◌, ◌≢◌, refl, true, some, done, panic, arith, ◌==◌,
  if◌then◌else◌, ltb,
}
use poplar.BitField.{SetBits, WritesBits}
use poplar.Hal.VAddr
use poplar.Hal.PAddr
use poplar.Hal.Frame.{size, size_4kib, size_2mib, size_1gib}
use poplar.Hal.Flags.{default}
use poplar.Hal.PageTable.{Paging, ok}
use poplar.PageWalk
use poplar.PageWalk.{Tables, zero_table, p1_index, p2_index, p3_index, p4_index}
use poplar.PageWalk.Impl.{top_table, new_tables}
use poplar.PageWalk.Create.{HasFrames, Represents, Filled}
use poplar.PageWalk.Map.{MapsSmall}
use poplar.PageWalk.Unmap.{Unmaps}
use poplar.PageWalk.FourLevel.{large_number, small_number}
use poplar.PageWalk.Start.{no_pages, new_tables-Represents}
use poplar.PageWalk.TestData.{
  bits, bits-FollowsBits, get_bits, get_bits-ReadsBits, allocate, Available, pointer_lem,
  allocate-Allocates, page_table, blank,
}
use poplar.HalX86.Entry
use poplar.Hal.Arch.{x86_64}
use poplar.PageWalk.Flaws.{translate-map_1gib, unmap_inside_large}
use poplar.HalX86.Entry.{format}
use poplar.HalX86.Entry.Laws.{format-IsFormat}
use poplar.HalX86.Tables.{map, unmap, from_indices}
use poplar.HalX86.Tables.Laws.{unmap-Unmaps, map-MapsSmall, map-Filled, from_indices_round_trip}

at_top : top_table (format bits) page_table ≡ done 4096
at_top = pointer_lem (format bits) 4096 (omega arith)

fresh_frames : (c : ℕ) → Available blank.frames c → c ≢ 4096
fresh_frames c h e = absurd (omega (arith, h, e))

abbrev start : Tables ℕ
start = record { memory = zero_table blank.memory 4096; frames = 2 }

new_example :
    (new_tables (format bits) page_table blank.memory ≡ done (zero_table blank.memory 4096))
    × Represents
        (format bits)
        (2 ^ 30)
        0
        4
        4096
        Available
        no_pages
        (record blank { memory = zero_table blank.memory 4096 })
new_example =
    new_tables-Represents (format bits) (2 ^ 30) page_table Available 4 4096 (omega arith) at_top
      blank fresh_frames

start-Represents : Represents (format bits) (2 ^ 30) 0 4 4096 Available no_pages start
start-Represents = new_example.1

three_frames : HasFrames allocate 3 2
three_frames = (8192, 3, refl, (12288, 4, refl, (16384, 5, refl, tt)))

two_frames : HasFrames allocate 2 2
two_frames = (8192, 3, refl, (12288, 4, refl, tt))

unmap-Unmaps_example :
    Unmaps
      (format bits)
      (2 ^ 30)
      0
      4
      4096
      Available
      no_pages
      (small_number 0x400000)
      start
      (unmap bits page_table get_bits size_4kib 0x400000 start.memory)
unmap-Unmaps_example =
    unmap-Unmaps bits bits-FollowsBits page_table (2 ^ 30) (omega arith) (omega arith) 4096 at_top
      get_bits get_bits-ReadsBits no_pages start start-Represents 0x400000 refl

map-MapsSmall_example :
    MapsSmall
      (format bits)
      (2 ^ 30)
      0
      4
      4096
      Available
      no_pages
      (small_number 0x400000)
      0x7000
      (map bits page_table get_bits allocate size_4kib 0x400000 0x7000 default start)
unfolding size
map-MapsSmall_example =
    map-MapsSmall bits bits-FollowsBits page_table (2 ^ 30) (omega arith) (omega arith) 4096 at_top
      get_bits get_bits-ReadsBits no_pages start start-Represents (allocate-Allocates (format bits))
      (omega arith) default 0x400000 0x7000 (omega arith, omega arith) three_frames

map-Filled_example :
    Filled
      (format bits)
      (2 ^ 30)
      0
      4
      4096
      Available
      no_pages
      2
      (large_number 0x400000)
      0x600000
      (map bits page_table get_bits allocate size_2mib 0x400000 0x600000 default start)
unfolding size
map-Filled_example =
    map-Filled bits bits-FollowsBits page_table (2 ^ 30) (omega arith) (omega arith) 4096 at_top
      get_bits get_bits-ReadsBits no_pages start start-Represents (allocate-Allocates (format bits))
      (omega arith) default 0x400000 0x600000 (omega arith, omega arith) two_frames

abbrev mapped_state : Paging (Tables ℕ)
mapped_state = map bits page_table get_bits allocate size_4kib 0x400000 0x7000 default start

-- `set_bits` in arithmetic.
abbrev set_bits : SetBits
set_bits value low high field =
    if ltb field (2 ^ (high - low))
    then done (value - value / 2 ^ low % 2 ^ (high - low) * 2 ^ low + field * 2 ^ low)
    else panic

set_bits-WritesBits : WritesBits set_bits
set_bits-WritesBits value low high field le fits zeros = ground (arith, fits, zeros)

from_indices_round_trip_example :
    (address : ℕ) × (from_indices set_bits 511 1 2 3 ≡ done address)
    × (p4_index get_bits address ≡ 511)
    × (p3_index get_bits address ≡ 1)
    × (p2_index get_bits address ≡ 2)
    × (p1_index get_bits address ≡ 3)
from_indices_round_trip_example =
    from_indices_round_trip get_bits set_bits 511 1 2 3 get_bits-ReadsBits set_bits-WritesBits
      (omega arith) (omega arith) (omega arith) (omega arith)

vacant_start : (format bits).is_vacant (blank.memory 4096 (p3_index get_bits 0x40000000)) ≡ true
unfolding Entry.is_unused
vacant_start = refl

translate-map_1gib_example :
    (s' : Tables ℕ) × (PageWalk.map_from_p3
        (format bits)
        0
        get_bits
        allocate
        4096
        size_1gib
        0x40000000
        0
        default
        blank
      ≡ ok s')
    × (PageWalk.translate_from_p3 (format bits) 0 get_bits 4096 s'.memory 0x40000123
        ≡ PageWalk.translate_from_p2
            (format bits)
            0
            get_bits
            (VAddr.new x86_64 (0 + 0))
            s'.memory
            0x40000123)
unfolding size
translate-map_1gib_example =
    translate-map_1gib (format-IsFormat bits bits-FollowsBits (2 ^ 30) (omega arith) (omega arith))
      0 (omega arith) get_bits allocate default 4096 0x40000000 0 0x40000123 blank vacant_start
      (omega arith, omega arith) refl

-- Table 4096 points to table 8192, whose entries are all the large page at 0x200000.
abbrev large_memory : ℕ → ℕ → ℕ
large_memory t i =
    if t == 4096
    then Entry.table_entry bits 8192
    else Entry.leaf_entry bits size_2mib 0x200000 default

follows_p2 :
    PageWalk.next_table (format bits) 0 4096 (p3_index get_bits 0x400000) large_memory
    ≡ done (some 8192)
unfolding PageWalk.next_table PageWalk.pointer VAddr.add VAddr.new VAddr.canonicalise Entry.address
    Entry.table_entry PAddr.new
follows_p2 = refl

unmap_inside_large_example :
    PageWalk.unmap_from_p3 (format bits) 0 get_bits 4096 size_4kib 0x400000 large_memory
    ≡ PageWalk.clear_entry
        (format bits)
        0
        (VAddr.new x86_64 (0 + 0x200000))
        large_memory
        (p1_index get_bits 0x400000)
unfolding size
unmap_inside_large_example =
    unmap_inside_large (format-IsFormat bits bits-FollowsBits (2 ^ 30) (omega arith) (omega arith))
      0 (omega arith) get_bits allocate default 4096 8192 0x400000 0x200000 large_memory follows_p2
      (omega arith, omega arith) refl
