-- ===== src/PageWalk/Flaws.antt =====
-- Where `translate` and `unmap` take the memory of a large page for a table.
use poplar.Prelude.{ℕ, ◌+◌, ◌^◌, ◌≤◌, ◌≡◌, ap, refl, true, some, Outcome, done}
use poplar.BitField.{GetBits}
use poplar.Hal.VAddr
use poplar.Hal.Frame.{size_4kib, size_2mib, size_1gib}
use poplar.Hal.Flags.{Flags}
use poplar.Hal.PageTable.{ok}
use poplar.PageWalk.{
  EntryFormat, Tables, next_table, and_some, fill, map_from_p3, translate_from_p2,
  translate_from_p3, unmap_from_p3, clear_entry, write, p1_index, p2_index, p3_index,
}
use poplar.PageWalk.Tree.{Holds, IsFormat}
use poplar.PageWalk.Translate.{next_table_leaf}
use poplar.PageWalk.Write.{write_self}

module _ {f : EntryFormat} {limit : ℕ} (format : IsFormat f limit) (physical_base : ℕ)
    (reach : physical_base + limit ≤ 2 ^ 64) where
  module _ (get_bits : GetBits) {A : Type 0} (allocate : A → Outcome (ℕ × A)) (flags : Flags) where
    -- After a page of 1 GiB is mapped in an empty entry, `translate` of each address with that entry
    -- reads the memory of the frame itself as a table, and looks for the address there: nothing of
    -- the mapping is used.
    pub translate-map_1gib :
        (t page frame address : ℕ) (s : Tables A)
        → f.is_vacant (s.memory t (p3_index get_bits page)) ≡ true
        → Holds limit size_1gib frame
        → p3_index get_bits address ≡ p3_index get_bits page
        → (s' : Tables A) × (map_from_p3 f physical_base get_bits allocate t size_1gib page frame
              flags s
            ≡ ok s')
          × (translate_from_p3 f physical_base get_bits t s'.memory address
              ≡ translate_from_p2 f physical_base get_bits
                  (VAddr.new f.arch (physical_base + frame))
                  s'.memory
                  address)
    unfolding map_from_p3 fill translate_from_p3
    translate-map_1gib t page frame address s empty h same =
        let i = p3_index get_bits page in
        let word = f.leaf_entry size_1gib frame flags in
        let memory = write s.memory t i word in
        (
          record s { memory = memory },
          rw empty refl,
          rw same (
              ap
                (λ o.
                  and_some o (λ p2. translate_from_p2 f physical_base get_bits p2 memory address))
                (next_table_leaf format physical_base reach memory t i frame size_1gib flags h
                  (write_self s.memory t i word))),
        )

    -- `unmap` of a small page in a large page that is mapped takes the memory of the large page's
    -- frame for the last table: what it returns is read from there, and it may clear a word there.
    pub unmap_inside_large :
        (p3 p2 page a : ℕ) (memory : ℕ → ℕ → ℕ)
        → next_table f physical_base p3 (p3_index get_bits page) memory ≡ done (some p2)
        → Holds limit size_2mib a
        → memory p2 (p2_index get_bits page) ≡ f.leaf_entry size_2mib a flags
        → unmap_from_p3 f physical_base get_bits p3 size_4kib page memory
          ≡ clear_entry f physical_base
              (VAddr.new f.arch (physical_base + a))
              memory
              (p1_index get_bits page)
    unfolding unmap_from_p3
    unmap_inside_large p3 p2 page a memory e h e' =
        rw
          (
            e,
            next_table_leaf format physical_base reach memory p2 (p2_index get_bits page) a
                size_2mib flags h e',
          )
          refl
