-- ===== src/PageWalk/Map.antt =====
-- `map` adds its page to the pages that are mapped, or refuses.
use poplar.Prelude.{
  ℕ, ◌+◌, ◌*◌, ◌/◌, ◌%◌, ◌^◌, ◌≤◌, ◌<◌, ◌≡◌, sym, ◌∙◌, ap, subst, refl, Option, none, some, Outcome,
  arith, inl, inr, ◌⊎◌,
}
use poplar.BitField.{GetBits, ReadsBits}
use poplar.Hal.Frame.{FrameSize, size_4kib, size_2mib, size_1gib}
use poplar.Hal.Flags.{Flags}
use poplar.Hal.PageTable.{Paging, ok, already_mapped}
use poplar.PageWalk.{
  EntryFormat, Tables, Creation, next_table_create, fill, and_in, map_from_p3, map_from_p4,
  p1_index, p2_index,
}
use poplar.PageWalk.Tree.{
  level_of, Holds, IsFormat, Pages, EntryIs, vacant, page, table, entry_at, table-ne-zero,
}
use poplar.PageWalk.Indices.{p1_index_lem, p2_index_lem, p3_index_lem, p4_index_lem}
use poplar.PageWalk.Write.{set_page, set_page_self, write-IsTree}
use poplar.PageWalk.Create.{
  Allocates, HasFrames, Represents, Created, made, blocked, Filled, filled, in_use,
  next_table_create_lem,
}

level_pos : (z : FrameSize) {k : ℕ} → level_of z ≡ k → 1 ≤ k
level_pos size_4kib e = omega (arith, e)
level_pos size_2mib e = omega (arith, e)
level_pos size_1gib e = omega (arith, e)

module _ (f : EntryFormat) (limit physical_base top root : ℕ) {A : Type 0}
    (Available : A → ℕ → Type 0) where
  -- A small page was mapped where there was none, or the state maps what it did, and the page is
  -- mapped or lies in a large page that is.
  pub data MapsSmall (pages : Pages) (n a : ℕ) : Paging (Tables A) → Type 0 where
    mapped :
        (s : Tables A)
        → pages 1 n ≡ none
        → pages 2 (n / 512) ≡ none
        → Represents f limit physical_base top root Available (set_page pages 1 n (some a)) s
        → MapsSmall pages n a (ok s)
    refused :
        (s : Tables A)
        → ((b : ℕ) × (pages 1 n ≡ some b)) ⊎ ((b : ℕ) × (pages 2 (n / 512) ≡ some b))
        → Represents f limit physical_base top root Available pages s
        → MapsSmall pages n a (already_mapped s)

module _ {f : EntryFormat} {limit physical_base : ℕ} (format : IsFormat f limit) {A : Type 0}
    {allocate : A → Outcome (ℕ × A)} {Available : A → ℕ → Type 0}
    (allocates : Allocates f limit physical_base allocate Available)
    (reach : physical_base + limit ≤ 2 ^ 64) (top root : ℕ) (pages : Pages) where
  abbrev Rep : Pages → Tables A → Type 0
  Rep = Represents f limit physical_base top root Available

  fill_entry :
      (s : Tables A) (r : Rep pages s) (t i k a : ℕ) (z : FrameSize) (flags : Flags)
      → level_of z ≡ k
      → k ≤ 2
      → r.level t ≡ k
      → i < 512
      → Holds limit z a
      → EntryIs f limit physical_base top root r.level r.number pages k
          (r.number t * 512 + i)
          (s.memory t i)
      → Filled f limit physical_base top root Available pages k
          (r.number t * 512 + i)
          a
          (fill f physical_base t i (f.leaf_entry z a flags) s)
  unfolding fill
  fill_entry s r t i k a z flags lz low lt small holds (vacant e none_here) =
      let n = r.number t * 512 + i in
      let o : Option ℕ = some a in
      let new =
        write-IsTree format r.tree t i k lt (level_pos z lz) low small
          (λ _ b h e'. table-ne-zero format r.tree b h (sym e' ∙ e)) (f.leaf_entry z a flags) o
          (page z a flags lz low holds refl (set_page_self pages k n o)) in
      rw (e, format.vacant_zero)
        (filled _ none_here
          (record { level = r.level; number = r.number; tree = new; fresh = r.fresh }))
  fill_entry s r t i k a z flags lz low lt small holds (page y b flags' ly le h e here) =
      rw (e, format.vacant_leaf y b flags' h) (in_use s r (inl (b, here)))
  fill_entry s r t i k a z flags lz low lt small holds (table b c h e p pos lc nc none_here) =
      rw (e, format.vacant_table b h)
        (in_use s r (inr (omega (arith, pos, lc), (c, omega (arith, lc), nc))))

  pub fill_lem :
      (s : Tables A) (r : Rep pages s) (t i k a : ℕ) (z : FrameSize) (flags : Flags)
      → level_of z ≡ k
      → k ≤ 2
      → r.level t ≡ k
      → i < 512
      → Holds limit z a
      → Filled f limit physical_base top root Available pages k
          (r.number t * 512 + i)
          a
          (fill f physical_base t i (f.leaf_entry z a flags) s)
  fill_lem s r t i k a z flags lz low lt small holds =
      fill_entry s r t i k a z flags lz low lt small holds
        (entry_at format r.tree t i k (r.number t) (level_pos z lz) lt refl small)

  module _ (get_bits : GetBits) (reads : ReadsBits get_bits) (flags : Flags) where
    from_fill :
        (n a : ℕ) (p : Paging (Tables A))
        → pages 2 (n / 512) ≡ none
        → Filled f limit physical_base top root Available pages 1 n a p
        → MapsSmall f limit physical_base top root Available pages n a p
    from_fill n a p above (filled s e r) = mapped s e above r
    from_fill n a p above (in_use s r (inl here)) = refused s (inl here) r
    from_fill n a p above (in_use s r (inr (le, below))) = absurd (omega (arith, le))

    -- The part of `map` that is left with a P1, for a small page.
    in_p1 :
        (p2 address frame : ℕ) (m : Creation (Tables A))
        → Holds limit size_4kib frame
        → Created f limit physical_base top root Available allocate pages 1 p2 0 m
        → MapsSmall f limit physical_base top root Available pages
            (p2 * 512 + address / 2 ^ 12 % 512)
            frame
            (and_in m (λ p1 s.
              fill f physical_base p1
                (p1_index get_bits address)
                (f.leaf_entry size_4kib frame flags)
                s))
    in_p1 p2 address frame m holds (made c s r lc nc none_here left) =
        let e : (p2 * 512 + address / 2 ^ 12 % 512) / 512 ≡ p2 = omega arith in
        let i = address / 2 ^ 12 % 512 in
        rw (p1_index_lem get_bits reads address) (
          from_fill _ frame _ (ap (pages 2) e ∙ none_here) (
            subst
              (λ n.
                Filled f limit physical_base top root Available pages 1 (n * 512 + i) frame
                  (fill f physical_base c i (f.leaf_entry size_4kib frame flags) s))
              nc
              (fill_lem s r c i 1 frame size_4kib flags refl (omega arith) lc (omega arith) holds)))
    in_p1 p2 address frame m holds (blocked a s here le r) =
        let e : (p2 * 512 + address / 2 ^ 12 % 512) / 512 ≡ p2 = omega arith in
        refused s (inr (a, ap (pages 2) e ∙ here)) r

    -- The part that is left with a P2.
    small_in_p2 :
        (n address frame : ℕ) (m : Creation (Tables A))
        → Holds limit size_4kib frame
        → Created f limit physical_base top root Available allocate pages 2 n 1 m
        → MapsSmall f limit physical_base top root Available pages
            ((n * 512 + address / 2 ^ 21 % 512) * 512 + address / 2 ^ 12 % 512)
            frame
            (and_in m (λ p2 s.
              and_in
                (next_table_create f physical_base allocate p2 (p2_index get_bits address) s)
                (λ p1 s'.
                  fill f physical_base p1
                    (p1_index get_bits address)
                    (f.leaf_entry size_4kib frame flags)
                    s')))
    small_in_p2 n address frame m holds (made c s r lc nc none_here left) =
        let i = address / 2 ^ 21 % 512 in
        rw (p2_index_lem get_bits reads address) (
          in_p1 (n * 512 + i) address frame _ holds (
            subst
              (λ k.
                Created f limit physical_base top root Available allocate pages 1 (k * 512 + i) 0
                  (next_table_create f physical_base allocate c i s))
              nc
              (next_table_create_lem format allocates reach top root pages s r c i 1 0 lc
                (omega arith) (omega arith) left)))
    small_in_p2 n address frame m holds (blocked a s here le r) = absurd (omega (arith, le))

    large_in_p2 :
        (n address frame left : ℕ) (m : Creation (Tables A))
        → Holds limit size_2mib frame
        → Created f limit physical_base top root Available allocate pages 2 n left m
        → Filled f limit physical_base top root Available pages 2
            (n * 512 + address / 2 ^ 21 % 512)
            frame
            (and_in m (λ p2 s.
              fill f physical_base p2
                (p2_index get_bits address)
                (f.leaf_entry size_2mib frame flags)
                s))
    large_in_p2 n address frame left m holds (made c s r lc nc none_here _) =
        let i = address / 2 ^ 21 % 512 in
        rw (p2_index_lem get_bits reads address) (
          subst
            (λ k.
              Filled f limit physical_base top root Available pages 2 (k * 512 + i) frame
                (fill f physical_base c i (f.leaf_entry size_2mib frame flags) s))
            nc (fill_lem s r c i 2 frame size_2mib flags refl (omega arith) lc (omega arith) holds))
    large_in_p2 n address frame left m holds (blocked a s here le r) = absurd (omega (arith, le))

    pub map_small_from_p3 :
        (s : Tables A) (r : Rep pages s) (t address frame : ℕ)
        → r.level t ≡ 3
        → HasFrames allocate 2 s.frames
        → Holds limit size_4kib frame
        → MapsSmall f limit physical_base top root Available pages
            (((r.number t * 512 + address / 2 ^ 30 % 512) * 512 + address / 2 ^ 21 % 512) * 512
              + address / 2 ^ 12 % 512)
            frame
            (map_from_p3 f physical_base get_bits allocate t size_4kib address frame flags s)
    unfolding map_from_p3
    map_small_from_p3 s r t address frame lt frames holds =
        rw (p3_index_lem get_bits reads address) (
          small_in_p2 (r.number t * 512 + address / 2 ^ 30 % 512) address frame _ holds (
            next_table_create_lem format allocates reach top root pages s r t
              (address / 2 ^ 30 % 512) 2 1 lt (omega arith) (omega arith) frames))

    pub map_large_from_p3 :
        (s : Tables A) (r : Rep pages s) (t address frame : ℕ)
        → r.level t ≡ 3
        → HasFrames allocate 1 s.frames
        → Holds limit size_2mib frame
        → Filled f limit physical_base top root Available pages 2
            ((r.number t * 512 + address / 2 ^ 30 % 512) * 512 + address / 2 ^ 21 % 512)
            frame
            (map_from_p3 f physical_base get_bits allocate t size_2mib address frame flags s)
    unfolding map_from_p3
    map_large_from_p3 s r t address frame lt frames holds =
        rw (p3_index_lem get_bits reads address) (
          large_in_p2 (r.number t * 512 + address / 2 ^ 30 % 512) address frame 0 _ holds (
            next_table_create_lem format allocates reach top root pages s r t
              (address / 2 ^ 30 % 512) 2 0 lt (omega arith) (omega arith) frames))

    small_in_p3 :
        (n address frame : ℕ) (m : Creation (Tables A))
        → Holds limit size_4kib frame
        → Created f limit physical_base top root Available allocate pages 3 n 2 m
        → MapsSmall f limit physical_base top root Available pages
            (((n * 512 + address / 2 ^ 30 % 512) * 512 + address / 2 ^ 21 % 512) * 512
              + address / 2 ^ 12 % 512)
            frame
            (and_in m (λ p3 s.
              map_from_p3 f physical_base get_bits allocate p3 size_4kib address frame flags s))
    small_in_p3 n address frame m holds (made c s r lc nc none_here left) =
        subst
          (λ k.
            MapsSmall f limit physical_base top root Available pages
              (((k * 512 + address / 2 ^ 30 % 512) * 512 + address / 2 ^ 21 % 512) * 512
                + address / 2 ^ 12 % 512)
              frame
              (map_from_p3 f physical_base get_bits allocate c size_4kib address frame flags s))
          nc (map_small_from_p3 s r c address frame lc left holds)
    small_in_p3 n address frame m holds (blocked a s here le r) = absurd (omega (arith, le))

    large_in_p3 :
        (n address frame : ℕ) (m : Creation (Tables A))
        → Holds limit size_2mib frame
        → Created f limit physical_base top root Available allocate pages 3 n 1 m
        → Filled f limit physical_base top root Available pages 2
            ((n * 512 + address / 2 ^ 30 % 512) * 512 + address / 2 ^ 21 % 512)
            frame
            (and_in m (λ p3 s.
              map_from_p3 f physical_base get_bits allocate p3 size_2mib address frame flags s))
    large_in_p3 n address frame m holds (made c s r lc nc none_here left) =
        subst
          (λ k.
            Filled f limit physical_base top root Available pages 2
              ((k * 512 + address / 2 ^ 30 % 512) * 512 + address / 2 ^ 21 % 512) frame
              (map_from_p3 f physical_base get_bits allocate c size_2mib address frame flags s))
          nc (map_large_from_p3 s r c address frame lc left holds)
    large_in_p3 n address frame m holds (blocked a s here le r) = absurd (omega (arith, le))

    pub map_small_from_p4 :
        (s : Tables A) (r : Rep pages s) (t address frame : ℕ)
        → r.level t ≡ 4
        → HasFrames allocate 3 s.frames
        → Holds limit size_4kib frame
        → MapsSmall f limit physical_base top root Available pages
            ((((r.number t * 512 + address / 2 ^ 39 % 512) * 512 + address / 2 ^ 30 % 512) * 512
                  + address / 2 ^ 21 % 512)
                * 512
              + address / 2 ^ 12 % 512)
            frame
            (map_from_p4 f physical_base get_bits allocate t size_4kib address frame flags s)
    unfolding map_from_p4
    map_small_from_p4 s r t address frame lt frames holds =
        rw (p4_index_lem get_bits reads address) (
          small_in_p3 (r.number t * 512 + address / 2 ^ 39 % 512) address frame _ holds (
            next_table_create_lem format allocates reach top root pages s r t
              (address / 2 ^ 39 % 512) 3 2 lt (omega arith) (omega arith) frames))

    pub map_large_from_p4 :
        (s : Tables A) (r : Rep pages s) (t address frame : ℕ)
        → r.level t ≡ 4
        → HasFrames allocate 2 s.frames
        → Holds limit size_2mib frame
        → Filled f limit physical_base top root Available pages 2
            (((r.number t * 512 + address / 2 ^ 39 % 512) * 512 + address / 2 ^ 30 % 512) * 512
              + address / 2 ^ 21 % 512)
            frame
            (map_from_p4 f physical_base get_bits allocate t size_2mib address frame flags s)
    unfolding map_from_p4
    map_large_from_p4 s r t address frame lt frames holds =
        rw (p4_index_lem get_bits reads address) (
          large_in_p3 (r.number t * 512 + address / 2 ^ 39 % 512) address frame _ holds (
            next_table_create_lem format allocates reach top root pages s r t
              (address / 2 ^ 39 % 512) 3 1 lt (omega arith) (omega arith) frames))
