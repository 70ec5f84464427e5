-- ===== src/HalX86/Tables/Laws.antt =====
-- The page tables of x86_64 are a map from pages to frames.
use poplar.Prelude.{ℕ, ◌+◌, ◌*◌, ◌%◌, ◌^◌, ◌≤◌, ◌<◌, ◌≡◌, refl, none, Outcome, done, arith}
use poplar.BitField.{GetBits, ReadsBits, SetBits, WritesBits}
use poplar.BitFlags.{BitFlags, FollowsBits}
use poplar.Hal.Arch.{x86_64}
use poplar.Hal.VAddr
use poplar.Hal.VAddr.Laws.{new-IsCanonical}
use poplar.Hal.Frame.{size_4kib, size_2mib}
use poplar.Hal.Flags.{Flags}
use poplar.PageWalk.{Tables, p1_index, p2_index, p3_index, p4_index}
use poplar.PageWalk.Impl.{PageTableImpl, top_table}
use poplar.PageWalk.Tree.{Holds, Pages}
use poplar.PageWalk.Create.{Allocates, HasFrames, Represents, Filled}
use poplar.PageWalk.Map.{MapsSmall}
use poplar.PageWalk.Unmap.{Unmaps}
use poplar.PageWalk.FourLevel.{
  large_number, small_number, map_4-MapsSmall, map_4-Filled, unmap_4-Unmaps,
}
use poplar.HalX86.Entry.{format}
use poplar.HalX86.Entry.Laws.{format-IsFormat}
use poplar.HalX86.Tables.{map, unmap, from_indices}

module _ (b : BitFlags) (laws : FollowsBits b) (p : PageTableImpl) (limit : ℕ)
    (whole : limit % 2 ^ 30 ≡ 0) (le : limit ≤ 2 ^ 52) {A : Type 0} {Available : A → ℕ → Type 0}
    (t : ℕ) (top : top_table (format b) p ≡ done t) (get_bits : GetBits)
    (reads : ReadsBits get_bits) (pages : Pages) (s : Tables A)
    (r : Represents (format b) limit p.physical_base 4 t Available pages s) where
  -- `unmap` of a small page that is in no large one: where it was mapped, its frame is returned and
  -- memory then holds the tables of the other pages, and else `None`, with memory as it was.
  pub unmap-Unmaps :
      (page : ℕ)
      → pages 2 (large_number page) ≡ none
      → Unmaps
          (format b)
          limit
          p.physical_base
          4
          t
          Available
          pages
          (small_number page)
          s
          (unmap b p get_bits size_4kib page s.memory)
  unfolding unmap
  unmap-Unmaps page no_large =
      unmap_4-Unmaps (format-IsFormat b laws limit whole le) p t top get_bits reads pages s r page
        no_large

  module _ {allocate : A → Outcome (ℕ × A)}
      (allocates : Allocates (format b) limit p.physical_base allocate Available)
      (reach : p.physical_base + limit ≤ 2 ^ 64) (flags : Flags) where
    -- `map` of a small page, with three frames left for tables: where neither the page nor a large
    -- page around it is mapped, memory then holds the tables of the pages and of this one, and else
    -- `map` fails and the pages are as they were.
    pub map-MapsSmall :
        (page frame : ℕ)
        → Holds limit size_4kib frame
        → HasFrames allocate 3 s.frames
        → MapsSmall
            (format b)
            limit
            p.physical_base
            4
            t
            Available
            pages
            (small_number page)
            frame
            (map b p get_bits allocate size_4kib page frame flags s)
    unfolding map
    map-MapsSmall page frame holds frames =
        map_4-MapsSmall (format-IsFormat b laws limit whole le) p t top get_bits reads pages s r
          allocates reach flags page frame holds frames

    -- `map` of a large page, with two frames left for tables: where it is not mapped, nor a table in
    -- its place, memory then holds the tables of the pages and of this one, and else `map` fails and
    -- the pages are as they were.
    pub map-Filled :
        (page frame : ℕ)
        → Holds limit size_2mib frame
        → HasFrames allocate 2 s.frames
        → Filled
            (format b)
            limit
            p.physical_base
            4
            t
            Available
            pages
            2
            (large_number page)
            frame
            (map b p get_bits allocate size_2mib page frame flags s)
    unfolding map
    map-Filled page frame holds frames =
        map_4-Filled (format-IsFormat b laws limit whole le) p t top get_bits reads pages s r
          allocates reach flags page frame holds frames

-- Indices below 512 make a canonical address without a panic, and its indices are those.
pub from_indices_round_trip :
    (get_bits : GetBits) (set_bits : SetBits) (p4 p3 p2 p1 : ℕ)
    → ReadsBits get_bits
    → WritesBits set_bits
    → p4 < 512
    → p3 < 512
    → p2 < 512
    → p1 < 512
    → (address : ℕ) × (from_indices set_bits p4 p3 p2 p1 ≡ done address)
      × (p4_index get_bits address ≡ p4)
      × (p3_index get_bits address ≡ p3)
      × (p2_index get_bits address ≡ p2)
      × (p1_index get_bits address ≡ p1)
unfolding from_indices VAddr.new
from_indices_round_trip get_bits set_bits p4 p3 p2 p1 reads writes h4 h3 h2 h1 =
    let w1 = writes 0 12 21 p1 (omega arith) h1 (omega arith) in
    let a1 = 0 + p1 * 2 ^ 12 in
    let w2 = writes a1 21 30 p2 (omega arith) h2 (omega arith) in
    let a2 = a1 + p2 * 2 ^ 21 in
    let w3 = writes a2 30 39 p3 (omega arith) h3 (omega arith) in
    let a3 = a2 + p3 * 2 ^ 30 in
    let w4 = writes a3 39 48 p4 (omega arith) h4 (omega arith) in
    let a4 = a3 + p4 * 2 ^ 39 in
    let same = (new-IsCanonical x86_64 a4 (omega arith)).1 in
    (
      VAddr.new x86_64 a4,
      rw (w1, w2, w3, w4) refl,
      omega (arith, reads (VAddr.new x86_64 a4) 39 48 (omega arith), same),
      omega (arith, reads (VAddr.new x86_64 a4) 30 39 (omega arith), same),
      omega (arith, reads (VAddr.new x86_64 a4) 21 30 (omega arith), same),
      omega (arith, reads (VAddr.new x86_64 a4) 12 21 (omega arith), same),
    )
