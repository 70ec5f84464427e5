-- ===== src/PageWalk/Unmap.antt =====
-- `unmap` takes a small page away, and gives back the frame that it was mapped to.
use poplar.Prelude.{
  ℕ, ◌+◌, ◌*◌, ◌/◌, ◌%◌, ◌^◌, ◌<◌, ◌≡◌, ◌∙◌, ap, subst, refl, Option, none, some, Outcome, done,
  arith,
}
use poplar.BitField.{GetBits, ReadsBits}
use poplar.Hal.Frame
use poplar.Hal.Frame.{FrameSize, size, size_4kib, size_2mib, size_1gib}
use poplar.PageWalk.{
  EntryFormat, next_table, Tables, clear_entry, descend, unmap_from_p3, unmap_from_p4, p1_index,
  p2_index,
}
use poplar.PageWalk.Indices.{p1_index_lem, p2_index_lem, p3_index_lem, p4_index_lem}
use poplar.PageWalk.Tree.{
  Holds, IsFormat, Pages, EntryIs, vacant, page, table, HasTable, entry_at, above,
}
use poplar.PageWalk.Translate.{next_table_vacant, next_table_table, no_page, vacant_below}
use poplar.PageWalk.Write.{set_page, set_page_self, write-IsTree}
use poplar.PageWalk.Create.{Represents}

module _ (f : EntryFormat) (limit physical_base top root : ℕ) {A : Type 0}
    (Available : A → ℕ → Type 0) where
  -- The page was mapped and is no longer, or it was not mapped and nothing changed.
  pub data Unmaps (pages : Pages) (n : ℕ) (s : Tables A)
      : Outcome (Option ℕ × (ℕ → ℕ → ℕ)) → Type 0 where
    removed :
        (a : ℕ) (memory : ℕ → ℕ → ℕ)
        → pages 1 n ≡ some a
        → Represents f limit physical_base top root Available
            (set_page pages 1 n none)
            (record s { memory = memory })
        → Unmaps pages n s (done (some a, memory))
    unmapped : pages 1 n ≡ none → Unmaps pages n s (done (none, s.memory))

module _ {f : EntryFormat} {limit physical_base : ℕ} (format : IsFormat f limit) {A : Type 0}
    {Available : A → ℕ → Type 0} (top root : ℕ) (pages : Pages) (s : Tables A)
    (r : Represents f limit physical_base top root Available pages s) where
  abbrev UnmapsTo : ℕ → Outcome (Option ℕ × (ℕ → ℕ → ℕ)) → Type 0
  UnmapsTo n o = Unmaps f limit physical_base top root Available pages n s o

  starts_with_lem : (a : ℕ) → Holds limit size_4kib a → Frame.starts_with size_4kib a ≡ done a
  unfolding Frame.starts_with
  starts_with_lem a h = ground (arith, h.0)

  in_p1 :
      (t i : ℕ)
      → r.level t ≡ 1
      → i < 512
      → EntryIs f limit physical_base top root r.level r.number pages 1
          (r.number t * 512 + i)
          (s.memory t i)
      → UnmapsTo (r.number t * 512 + i) (clear_entry f physical_base t s.memory i)
  unfolding clear_entry
  in_p1 t i lt small (vacant e none_here) = rw (e, format.address_zero) (unmapped none_here)
  in_p1 t i lt small (page size_4kib a flags ly le h e here) =
      let n = r.number t * 512 + i in
      let o : Option ℕ = none in
      let cleared =
        write-IsTree format r.tree t i 1 lt (omega arith) (omega arith) small
          (λ deep. absurd (omega (arith, deep))) 0 o (vacant refl (set_page_self pages 1 n o)) in
      rw (e, format.address_leaf size_4kib a flags h, starts_with_lem a h)
        (removed a _ here
          (record { level = r.level; number = r.number; tree = cleared; fresh = r.fresh }))
  in_p1 t i lt small (page size_2mib a flags ly le h e here) = absurd (omega (arith, ly))
  in_p1 t i lt small (page size_1gib a flags ly le h e here) = absurd (omega (arith, ly))
  in_p1 t i lt small (table a c h e p pos lc nc none_here) = absurd (omega (arith, lc, pos))

  -- Without a P1 the page is not mapped.
  no_small :
      (n address : ℕ)
      → (HasTable r.level r.number 1 n → ⊥)
      → pages 1 (n * 512 + address / 2 ^ 12 % 512) ≡ none
  no_small n address absent =
      no_page format r.tree 1 _ (λ (c, lc, nc). absent (c, lc, omega (arith, nc)))

  module _ (get_bits : GetBits) (reads : ReadsBits get_bits) where
    in_p2 :
        (t address : ℕ)
        → r.level t ≡ 2
        → pages 2 (r.number t * 512 + address / 2 ^ 21 % 512) ≡ none
        → EntryIs f limit physical_base top root r.level r.number pages 2
            (r.number t * 512 + address / 2 ^ 21 % 512)
            (s.memory t (address / 2 ^ 21 % 512))
        → UnmapsTo ((r.number t * 512 + address / 2 ^ 21 % 512) * 512 + address / 2 ^ 12 % 512) (
            descend
              (next_table f physical_base t (p2_index get_bits address) s.memory)
              s.memory
              (λ p1. clear_entry f physical_base p1 s.memory (p1_index get_bits address)))
    in_p2 t address lt no_large (vacant e none_here) =
        rw (p2_index_lem get_bits reads address, next_table_vacant format r.tree t _ e)
          (unmapped (
            no_small _ address (vacant_below format r.tree t _ 1 (omega arith) (omega arith) lt e)))
    in_p2 t address lt no_large (page z a flags ly le h e here) = absurd (cc)
    in_p2 t address lt no_large (table a c h e p pos lc nc none_here) =
        let i = address / 2 ^ 12 % 512 in
        let lc' : r.level c ≡ 1 = omega (arith, lc) in
        rw (p2_index_lem get_bits reads address, next_table_table format r.tree t _ a c h e p)
          (rw (p1_index_lem get_bits reads address) (
            subst (λ n. UnmapsTo (n * 512 + i) (clear_entry f physical_base c s.memory i)) nc
              (in_p1 c i lc' (omega arith)
                (entry_at format r.tree c i 1 _ (omega arith) lc' refl (omega arith)))))

    in_p3 :
        (t address : ℕ)
        → r.level t ≡ 3
        → pages 2 ((r.number t * 512 + address / 2 ^ 30 % 512) * 512 + address / 2 ^ 21 % 512)
          ≡ none
        → EntryIs f limit physical_base top root r.level r.number pages 3
            (r.number t * 512 + address / 2 ^ 30 % 512)
            (s.memory t (address / 2 ^ 30 % 512))
        → UnmapsTo
            (((r.number t * 512 + address / 2 ^ 30 % 512) * 512 + address / 2 ^ 21 % 512) * 512
              + address / 2 ^ 12 % 512)
            (unmap_from_p3 f physical_base get_bits t size_4kib address s.memory)
    unfolding unmap_from_p3
    in_p3 t address lt no_large (vacant e none_here) =
        rw (p3_index_lem get_bits reads address, next_table_vacant format r.tree t _ e)
          (unmapped (
            no_small _ address (λ p1.
              let (c, lc, nc) =
                above format r.tree 1 _ (omega arith) (omega (arith, r.tree.bounded t, lt)) p1 in
              vacant_below format r.tree t (address / 2 ^ 30 % 512) 2 (omega arith) (omega arith) lt
                e (c, lc, omega (arith, nc)))))
    in_p3 t address lt no_large (page z a flags ly le h e here) = absurd (omega (arith, le))
    in_p3 t address lt no_large (table a c h e p pos lc nc none_here) =
        let i = address / 2 ^ 21 % 512 in
        let j = address / 2 ^ 12 % 512 in
        let lc' : r.level c ≡ 2 = omega (arith, lc) in
        rw (p3_index_lem get_bits reads address, next_table_table format r.tree t _ a c h e p)
          (subst
            (λ n. UnmapsTo ((n * 512 + i) * 512 + j) (
              descend (next_table f physical_base c (p2_index get_bits address) s.memory) s.memory
                (λ p1. clear_entry f physical_base p1 s.memory (p1_index get_bits address))))
            nc
            (in_p2 c address lc' (ap (λ n. pages 2 (n * 512 + i)) nc ∙ no_large)
              (entry_at format r.tree c i 2 _ (omega arith) lc' refl (omega arith))))

    pub unmap_from_p3_lem :
        (t address : ℕ)
        → r.level t ≡ 3
        → pages 2 ((r.number t * 512 + address / 2 ^ 30 % 512) * 512 + address / 2 ^ 21 % 512)
          ≡ none
        → UnmapsTo
            (((r.number t * 512 + address / 2 ^ 30 % 512) * 512 + address / 2 ^ 21 % 512) * 512
              + address / 2 ^ 12 % 512)
            (unmap_from_p3 f physical_base get_bits t size_4kib address s.memory)
    unmap_from_p3_lem t address lt no_large =
        in_p3 t address lt no_large
          (entry_at format r.tree t _ 3 _ (omega arith) lt refl (omega arith))

    in_p4 :
        (t address : ℕ)
        → r.level t ≡ 4
        → pages 2 (
            ((r.number t * 512 + address / 2 ^ 39 % 512) * 512 + address / 2 ^ 30 % 512) * 512
            + address / 2 ^ 21 % 512)
          ≡ none
        → EntryIs f limit physical_base top root r.level r.number pages 4
            (r.number t * 512 + address / 2 ^ 39 % 512)
            (s.memory t (address / 2 ^ 39 % 512))
        → UnmapsTo
            ((((r.number t * 512 + address / 2 ^ 39 % 512) * 512 + address / 2 ^ 30 % 512) * 512
                  + address / 2 ^ 21 % 512)
                * 512
              + address / 2 ^ 12 % 512)
            (unmap_from_p4 f physical_base get_bits t size_4kib address s.memory)
    unfolding unmap_from_p4
    in_p4 t address lt no_large (vacant e none_here) =
        rw (p4_index_lem get_bits reads address, next_table_vacant format r.tree t _ e)
          (unmapped (
            no_small _ address (λ p1.
              let p2 =
                above format r.tree 1 _ (omega arith) (omega (arith, r.tree.bounded t, lt)) p1 in
              let (c, lc, nc) =
                above format r.tree 2 _ (omega arith) (omega (arith, r.tree.bounded t, lt)) p2 in
              vacant_below format r.tree t (address / 2 ^ 39 % 512) 3 (omega arith) (omega arith) lt
                e (c, lc, omega (arith, nc)))))
    in_p4 t address lt no_large (page z a flags ly le h e here) = absurd (omega (arith, le))
    in_p4 t address lt no_large (table a c h e p pos lc nc none_here) =
        let i = address / 2 ^ 30 % 512 in
        let j = address / 2 ^ 21 % 512 in
        let m = address / 2 ^ 12 % 512 in
        let lc' : r.level c ≡ 3 = omega (arith, lc) in
        rw (p4_index_lem get_bits reads address, next_table_table format r.tree t _ a c h e p)
          (subst
            (λ n.
              UnmapsTo (((n * 512 + i) * 512 + j) * 512 + m)
                (unmap_from_p3 f physical_base get_bits c size_4kib address s.memory))
            nc
            (unmap_from_p3_lem c address lc'
              (ap (λ n. pages 2 ((n * 512 + i) * 512 + j)) nc ∙ no_large)))

    pub unmap_from_p4_lem :
        (t address : ℕ)
        → r.level t ≡ 4
        → pages 2 (
            ((r.number t * 512 + address / 2 ^ 39 % 512) * 512 + address / 2 ^ 30 % 512) * 512
            + address / 2 ^ 21 % 512)
          ≡ none
        → UnmapsTo
            ((((r.number t * 512 + address / 2 ^ 39 % 512) * 512 + address / 2 ^ 30 % 512) * 512
                  + address / 2 ^ 21 % 512)
                * 512
              + address / 2 ^ 12 % 512)
            (unmap_from_p4 f physical_base get_bits t size_4kib address s.memory)
    unmap_from_p4_lem t address lt no_large =
        in_p4 t address lt no_large
          (entry_at format r.tree t _ 4 _ (omega arith) lt refl (omega arith))
