-- ===== src/PageWalk/FourLevel.antt =====
-- The page table with four levels is a map from pages to frames.
use poplar.Prelude.{
  ℕ, ◌+◌, ◌*◌, ◌/◌, ◌%◌, ◌^◌, ◌≤◌, ◌≡◌, ◌∙◌, ap, subst, none, Outcome, done, arith,
}
use poplar.BitField.{GetBits, ReadsBits}
use poplar.Hal.Frame.{size_4kib, size_2mib}
use poplar.Hal.Flags.{Flags}
use poplar.PageWalk.{EntryFormat, Tables, map_from_p4, unmap_from_p4}
use poplar.PageWalk.Impl.{PageTableImpl, top_table, translate_4, map_4, unmap_4}
use poplar.PageWalk.Tree.{Holds, IsFormat, Pages}
use poplar.PageWalk.Translate.{lookup, translate_from_p4_lem}
use poplar.PageWalk.Create.{Allocates, HasFrames, Represents, Filled}
use poplar.PageWalk.Map.{MapsSmall, map_small_from_p4, map_large_from_p4}
use poplar.PageWalk.MapTranslate.{KeepsPages}
use poplar.PageWalk.Unmap.{Unmaps, unmap_from_p4_lem}

-- The numbers of the large page and of the small page that an address is in.
abbrev pub large_number : ℕ → ℕ
large_number address = address / 2 ^ 21 % 2 ^ 27

abbrev pub small_number : ℕ → ℕ
small_number address = address / 2 ^ 12 % 2 ^ 36

large_indices :
    (n address : ℕ)
    → n ≡ 0
    → ((n * 512 + address / 2 ^ 39 % 512) * 512 + address / 2 ^ 30 % 512) * 512
        + address / 2 ^ 21 % 512
      ≡ large_number address
large_indices n address e = omega (arith, e)

small_indices :
    (n address : ℕ)
    → n ≡ 0
    → (((n * 512 + address / 2 ^ 39 % 512) * 512 + address / 2 ^ 30 % 512) * 512
            + address / 2 ^ 21 % 512)
          * 512
        + address / 2 ^ 12 % 512
      ≡ small_number address
small_indices n address e = omega (arith, e, large_indices n address e)

module _ {f : EntryFormat} {limit : ℕ} (format : IsFormat f limit) (p : PageTableImpl) {A : Type 0}
    {Available : A → ℕ → Type 0} (t : ℕ) (top : top_table f p ≡ done t) (get_bits : GetBits)
    (reads : ReadsBits get_bits) (pages : Pages) (s : Tables A)
    (r : Represents f limit p.physical_base 4 t Available pages s) where
  -- Where memory holds the tables of some pages, `translate` of any address gives the address in the
  -- frame of the page that it is in, large or small, and `None` where no page is mapped.
  pub translate_4-lookup :
      (address : ℕ)
      → translate_4 f p get_bits s.memory address
        ≡ done (lookup pages (large_number address) (small_number address) address)
  unfolding translate_4
  translate_4-lookup address = rw top (
      translate_from_p4_lem format r.tree get_bits reads t address r.tree.level_root
      ∙ ap (λ n. done (lookup pages n (n * 512 + address / 2 ^ 12 % 512) address))
          (large_indices (r.number t) address r.tree.number_root)
      ∙ ap (λ n. done (lookup pages (large_number address) n address)) (omega arith))

  -- `unmap` of a small page that is in no large one: where it was mapped, its frame is returned and
  -- memory then holds the tables of the other pages, and else `None`, with memory as it was.
  pub unmap_4-Unmaps :
      (page : ℕ)
      → pages 2 (large_number page) ≡ none
      → Unmaps f limit p.physical_base 4 t Available pages
          (small_number page)
          s
          (unmap_4 f p get_bits size_4kib page s.memory)
  unfolding unmap_4
  unmap_4-Unmaps page no_large =
      let e = small_indices (r.number t) page r.tree.number_root in
      let l = large_indices (r.number t) page r.tree.number_root in
      rw top (
        subst
          (λ n.
            Unmaps f limit p.physical_base 4 t Available pages n s
              (unmap_from_p4 f p.physical_base get_bits t size_4kib page s.memory))
          e
          (unmap_from_p4_lem format 4 t pages s r get_bits reads t page r.tree.level_root
            (ap (pages 2) l ∙ no_large)))

  module _ {allocate : A → Outcome (ℕ × A)}
      (allocates : Allocates f limit p.physical_base allocate Available)
      (reach : p.physical_base + limit ≤ 2 ^ 64) (flags : Flags) where
    -- `map` of a small page, with three frames left for tables: where neither the page nor a large
    -- page around it is mapped, memory then holds the tables of the pages and of this one, and else
    -- `map` fails and the pages are as they were.
    pub map_4-MapsSmall :
        (page frame : ℕ)
        → Holds limit size_4kib frame
        → HasFrames allocate 3 s.frames
        → MapsSmall f limit p.physical_base 4 t Available pages
            (small_number page)
            frame
            (map_4 f p get_bits allocate size_4kib page frame flags s)
    unfolding map_4
    map_4-MapsSmall page frame holds frames =
        let e = small_indices (r.number t) page r.tree.number_root in
        rw top (
          subst
            (λ n.
              MapsSmall f limit p.physical_base 4 t Available pages n frame
                (map_from_p4 f p.physical_base get_bits allocate t size_4kib page frame flags s))
            e
            (map_small_from_p4 format allocates reach 4 t pages get_bits reads flags s r t page
              frame r.tree.level_root frames holds))

    -- `map` of a large page, with two frames left for tables: where it is not mapped, nor a table in
    -- its place, memory then holds the tables of the pages and of this one, and else `map` fails and
    -- the pages are as they were.
    pub map_4-Filled :
        (page frame : ℕ)
        → Holds limit size_2mib frame
        → HasFrames allocate 2 s.frames
        → Filled f limit p.physical_base 4 t Available pages 2
            (large_number page)
            frame
            (map_4 f p get_bits allocate size_2mib page frame flags s)
    unfolding map_4
    map_4-Filled page frame holds frames =
        let e = large_indices (r.number t) page r.tree.number_root in
        rw top (
          subst
            (λ n.
              Filled f limit p.physical_base 4 t Available pages 2 n frame
                (map_from_p4 f p.physical_base get_bits allocate t size_2mib page frame flags s))
            e
            (map_large_from_p4 format allocates reach 4 t pages get_bits reads flags s r t page
              frame r.tree.level_root frames holds))

module _ {f : EntryFormat} {limit : ℕ} (format : IsFormat f limit) (p : PageTableImpl) {A : Type 0}
    {Available : A → ℕ → Type 0} (t : ℕ) (top : top_table f p ≡ done t) (get_bits : GetBits)
    (reads : ReadsBits get_bits) {allocate : A → Outcome (ℕ × A)}
    (allocates : Allocates f limit p.physical_base allocate Available)
    (reach : p.physical_base + limit ≤ 2 ^ 64) (flags : Flags) where
  pub four-KeepsPages :
      KeepsPages f limit p.physical_base 4 t Available allocate large_number small_number 3
        (translate_4 f p get_bits)
        (λ page frame. map_4 f p get_bits allocate size_4kib page frame flags)
        (unmap_4 f p get_bits size_4kib)
  four-KeepsPages = record {
    agree = λ address. omega arith;
    looks_up = λ pages s r. translate_4-lookup format p t top get_bits reads pages s r;
    maps =
        λ pages s r. map_4-MapsSmall format p t top get_bits reads pages s r allocates reach flags;
    unmaps = λ pages s r. unmap_4-Unmaps format p t top get_bits reads pages s r;
  }
