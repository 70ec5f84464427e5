-- ===== src/PageWalk/Translate.antt =====
-- `translate` finds the page that an address is in.
use poplar.Prelude.{
  ℕ, suc, ◌+◌, ◌*◌, ◌/◌, ◌%◌, ◌^◌, ◌≤◌, ◌<◌, ◌≡◌, sym, ◌∙◌, ap, refl, Option, none, some, Outcome,
  done, ◌>>=◌, arith, Option-cases, inl, inr,
}
use poplar.BitField.{GetBits, ReadsBits}
use poplar.Hal.Arch.{Arch, physical_limit, x86_64, riscv64_sv48, riscv64_sv39}
use poplar.Hal.PAddr
use poplar.Hal.PAddr.Laws.{new_in_range}
use poplar.Hal.VAddr
use poplar.Hal.Frame.{FrameSize, size, size_4kib, size_2mib, size_1gib}
use poplar.Hal.Flags.{Flags}
use poplar.PageWalk.{
  EntryFormat, pointer, next_table, and_some, translate_from_p2, translate_from_p3,
  translate_from_p4,
}
use poplar.PageWalk.Indices.{p1_index_lem, p2_index_lem, p3_index_lem, p4_index_lem}
use poplar.PageWalk.Tree.{
  level_of, Holds, IsFormat, Pages, EntryIs, vacant, page, table, HasTable, IsTree, above,
  no_table_below, table-ne-zero, entry_at,
}

add_in_range :
    (arch : Arch) (a b : ℕ) → a + b < physical_limit arch → PAddr.add arch a b ≡ done (a + b)
unfolding PAddr.add
add_in_range x86_64 a b h = ground (arith, new_in_range x86_64 (a + b))
add_in_range riscv64_sv48 a b h = ground (arith, new_in_range riscv64_sv48 (a + b))
add_in_range riscv64_sv39 a b h = ground (arith, new_in_range riscv64_sv39 (a + b))

-- An entry that is a page is followed as a table is.
pub next_table_leaf :
    {f : EntryFormat} {limit : ℕ} (format : IsFormat f limit) (physical_base : ℕ)
    → physical_base + limit ≤ 2 ^ 64
    → (memory : ℕ → ℕ → ℕ) (t i a : ℕ) (s : FrameSize) (flags : Flags) → Holds limit s a
    → memory t i ≡ f.leaf_entry s a flags
    → next_table f physical_base t i memory ≡ done (some (VAddr.new f.arch (physical_base + a)))
unfolding next_table pointer VAddr.add
next_table_leaf format physical_base reach memory t i a s flags h e =
    rw (e, format.address_leaf s a flags h) (ground (arith, reach, h.1))

-- What `translate` is for: the address within the page that is mapped.
abbrev pub offset_in : Option ℕ → ℕ → Option ℕ
offset_in none offset = none
offset_in (some start) offset = some (start + offset)

-- A large page before a small one.
abbrev pub page_or : Option ℕ → Option ℕ → ℕ → Option ℕ
page_or (some start) small address = some (start + address % 2 ^ 21)
page_or none small address = offset_in small (address % 2 ^ 12)

abbrev pub lookup : Pages → ℕ → ℕ → ℕ → Option ℕ
lookup pages large small address = page_or (pages 2 large) (pages 1 small) address

abbrev pub lookup_p2 : Pages → ℕ → ℕ → Option ℕ
lookup_p2 pages n address =
    lookup pages (n * 512 + address / 2 ^ 21 % 512)
      ((n * 512 + address / 2 ^ 21 % 512) * 512 + address / 2 ^ 12 % 512) address

lookup_large :
    (pages : Pages) (n a address : ℕ)
    → pages 2 (n * 512 + address / 2 ^ 21 % 512) ≡ some a
    → lookup_p2 pages n address ≡ some (a + address % 2 ^ 21)
lookup_large pages n a address e = rw (e, page_or) refl

lookup_small :
    (pages : Pages) (n address : ℕ)
    → pages 2 (n * 512 + address / 2 ^ 21 % 512) ≡ none
    → lookup_p2 pages n address
      ≡ offset_in
          (pages 1 ((n * 512 + address / 2 ^ 21 % 512) * 512 + address / 2 ^ 12 % 512))
          (address % 2 ^ 12)
lookup_small pages n address e = rw (e, page_or) refl

module _ {f : EntryFormat} {limit physical_base top root : ℕ} (format : IsFormat f limit)
    {level number : ℕ → ℕ} {pages : Pages} {memory : ℕ → ℕ → ℕ}
    (tree : IsTree f limit physical_base top root level number pages memory) where
  pub next_table_vacant :
      (t i : ℕ) → memory t i ≡ 0 → next_table f physical_base t i memory ≡ done none
  unfolding next_table
  next_table_vacant t i e = rw e (rw format.address_zero refl)

  pub next_table_table :
      (t i a c : ℕ)
      → Holds limit size_4kib a
      → memory t i ≡ f.table_entry a
      → pointer f physical_base a ≡ done c
      → next_table f physical_base t i memory ≡ done (some c)
  unfolding next_table
  next_table_table t i a c h e p = rw e (rw (format.address_table a h) (rw p refl))

  -- Under an entry that is empty no page is mapped.
  pub no_page : (k n : ℕ) → (HasTable level number k (n / 512) → ⊥) → pages k n ≡ none
  no_page k n absent = elim (Option-cases (pages k n)) [
    | inl e ↦ e
    | inr (a, e) ↦ absurd (absent ((tree.closed k n a e).2))
  ]

  pub vacant_below :
      (t i k : ℕ)
      → i < 512
      → 1 ≤ k
      → level t ≡ suc k
      → memory t i ≡ 0
      → HasTable level number k (number t * 512 + i)
      → ⊥
  vacant_below t i k h pos lt e (c, lc, nc) =
      no_table_below format tree t i h
        (λ a holds e'. table-ne-zero format tree a holds (sym e' ∙ e)) c (omega (arith, lc))
        (omega (arith, lc)) nc

  module _ (get_bits : GetBits) (reads : ReadsBits get_bits) where
    start_in_range :
        (s : FrameSize) (a address : ℕ)
        → level_of s ≤ 2
        → Holds limit s a
        → PAddr.add f.arch a (address % size s) ≡ done (a + address % size s)
    unfolding size
    start_in_range size_4kib a address le h =
        add_in_range f.arch a _ (omega (arith, h.0, h.1, format.limit_aligned, format.in_range))
    start_in_range size_2mib a address le h =
        add_in_range f.arch a _ (omega (arith, h.0, h.1, format.limit_aligned, format.in_range))
    start_in_range size_1gib a address le h = absurd (omega (arith, le))

    size_lem :
        (a address : ℕ)
        → ◌≡◌ {A = Outcome (Option ℕ)}
            (done (some (a + address % size size_4kib)))
            (done (some (a + address % 2 ^ 12)))
    unfolding size
    size_lem a address = refl

    large_lem :
        (a address : ℕ)
        → ◌≡◌ {A = Outcome (Option ℕ)}
            (done (some (a + address % size size_2mib)))
            (done (some (a + address % 2 ^ 21)))
    unfolding size
    large_lem a address = refl

    -- An entry of a P1.
    p1_entry :
        (t n i address : ℕ)
        → EntryIs f limit physical_base top root level number pages 1 n (memory t i)
        → and_some
            (f.address (memory t i))
            (λ start. PAddr.add f.arch start (address % size size_4kib) >>= λ a. done (some a))
          ≡ done (offset_in (pages 1 n) (address % 2 ^ 12))
    p1_entry t n i address (vacant e none_here) = rw (e, format.address_zero, none_here) refl
    p1_entry t n i address (page size_4kib a flags lv le h e here) =
        rw
          (
            e,
            format.address_leaf size_4kib a flags h,
            start_in_range size_4kib a address le h,
            here,
          )
          (size_lem a address)
    p1_entry t n i address (page size_2mib a flags lv le h e here) = absurd (omega (arith, lv))
    p1_entry t n i address (page size_1gib a flags lv le h e here) = absurd (omega (arith, lv))
    p1_entry t n i address (table a c h e p pos lv nc none_here) = absurd (omega (arith, lv, pos))

    -- An entry of a P2.
    p2_entry :
        (t address : ℕ)
        → level t ≡ 2
        → EntryIs f limit physical_base top root level number pages 2
            (number t * 512 + address / 2 ^ 21 % 512)
            (memory t (address / 2 ^ 21 % 512))
        → translate_from_p2 f physical_base get_bits t memory address
          ≡ done (lookup_p2 pages (number t) address)
    unfolding translate_from_p2
    p2_entry t address lv (vacant e none_here) =
        let absent =
          no_page 1 ((number t * 512 + address / 2 ^ 21 % 512) * 512 + address / 2 ^ 12 % 512)
            (λ (c, lc, nc).
              vacant_below t (address / 2 ^ 21 % 512) 1 (omega arith) (omega arith) lv e
                (c, lc, omega (arith, nc))) in
        rw (p2_index_lem get_bits reads address, e, format.leaf_zero, next_table_vacant t _ e)
          (ap done (
            sym (
              lookup_small pages (number t) address none_here
              ∙ ap (λ o. offset_in o (address % 2 ^ 12)) absent)))
    p2_entry t address lv (page size_4kib a flags ls le h e here) = absurd (omega (arith, ls))
    p2_entry t address lv (page size_2mib a flags ls le h e here) =
        rw
          (
            p2_index_lem get_bits reads address,
            e,
            format.leaf_leaf size_2mib a flags h (omega arith),
          )
          (rw (format.address_leaf size_2mib a flags h, start_in_range size_2mib a address le h)
            (large_lem a address ∙ ap done (sym (lookup_large pages (number t) a address here))))
    p2_entry t address lv (page size_1gib a flags ls le h e here) = absurd (omega (arith, ls))
    p2_entry t address lv (table a c h e p pos lc nc none_here) =
        let lv_c : level c ≡ 1 = omega (arith, lc) in
        let i = address / 2 ^ 12 % 512 in
        let below = entry_at format tree c i 1 _ (omega arith) lv_c nc (omega arith) in
        rw
          (
            p2_index_lem get_bits reads address,
            e,
            format.leaf_table a h,
            next_table_table t _ a c h e p,
          )
          (rw (p1_index_lem get_bits reads address) (
            p1_entry c _ i address below
            ∙ ap done (sym (lookup_small pages (number t) address none_here))))

    pub translate_from_p2_lem :
        (t address : ℕ)
        → level t ≡ 2
        → translate_from_p2 f physical_base get_bits t memory address
          ≡ done (lookup_p2 pages (number t) address)
    translate_from_p2_lem t address lv =
        p2_entry t address lv (entry_at format tree t _ 2 _ (omega arith) lv refl (omega arith))

    -- Without a P2 no page of it is mapped.
    lookup_absent :
        (n address : ℕ)
        → 2 ≤ top
        → (HasTable level number 2 n → ⊥)
        → lookup_p2 pages n address ≡ none
    lookup_absent n address deep absent =
        let i = address / 2 ^ 21 % 512 in
        let large = no_page 2 (n * 512 + i) (λ (c, lc, nc). absent (c, lc, omega (arith, nc))) in
        let small = no_page 1 ((n * 512 + i) * 512 + address / 2 ^ 12 % 512) (λ p1.
          let (c, lc, nc) = above format tree 1 _ (omega arith) (omega arith) p1 in
          absent (c, lc, omega (arith, nc))) in
        lookup_small pages n address large ∙ ap (λ o. offset_in o (address % 2 ^ 12)) small

    p3_entry :
        (t address : ℕ)
        → level t ≡ 3
        → EntryIs f limit physical_base top root level number pages 3
            (number t * 512 + address / 2 ^ 30 % 512)
            (memory t (address / 2 ^ 30 % 512))
        → translate_from_p3 f physical_base get_bits t memory address
          ≡ done (lookup_p2 pages (number t * 512 + address / 2 ^ 30 % 512) address)
    unfolding translate_from_p3
    p3_entry t address lv (vacant e none_here) =
        rw (p3_index_lem get_bits reads address, next_table_vacant t _ e)
          (ap done (
            sym (
              lookup_absent _ address (omega (arith, tree.bounded t, lv))
                (vacant_below t _ 2 (omega arith) (omega arith) lv e))))
    p3_entry t address lv (page s a flags ls le h e here) = absurd (omega (arith, le))
    p3_entry t address lv (table a c h e p pos lc nc none_here) =
        rw (p3_index_lem get_bits reads address, next_table_table t _ a c h e p)
          (translate_from_p2_lem c address (omega (arith, lc))
            ∙ ap (λ n. done (lookup_p2 pages n address)) nc)

    -- From a P3, `translate` finds the page that the address is in, and nothing where there is none.
    pub translate_from_p3_lem :
        (t address : ℕ)
        → level t ≡ 3
        → translate_from_p3 f physical_base get_bits t memory address
          ≡ done (lookup_p2 pages (number t * 512 + address / 2 ^ 30 % 512) address)
    translate_from_p3_lem t address lv =
        p3_entry t address lv (entry_at format tree t _ 3 _ (omega arith) lv refl (omega arith))

    p4_entry :
        (t address : ℕ)
        → level t ≡ 4
        → EntryIs f limit physical_base top root level number pages 4
            (number t * 512 + address / 2 ^ 39 % 512)
            (memory t (address / 2 ^ 39 % 512))
        → translate_from_p4 f physical_base get_bits t memory address
          ≡ done (
              lookup_p2 pages
                ((number t * 512 + address / 2 ^ 39 % 512) * 512 + address / 2 ^ 30 % 512)
                address)
    unfolding translate_from_p4
    p4_entry t address lv (vacant e none_here) =
        rw (p4_index_lem get_bits reads address, next_table_vacant t _ e)
          (ap done (
            sym (
              lookup_absent _ address (omega (arith, tree.bounded t, lv)) (λ p2.
                let (c, lc, nc) =
                  above format tree 2 _ (omega arith) (omega (arith, tree.bounded t, lv)) p2 in
                vacant_below t (address / 2 ^ 39 % 512) 3 (omega arith) (omega arith) lv e
                  (c, lc, omega (arith, nc))))))
    p4_entry t address lv (page s a flags ls le h e here) = absurd (omega (arith, le))
    p4_entry t address lv (table a c h e p pos lc nc none_here) =
        rw (p4_index_lem get_bits reads address, next_table_table t _ a c h e p)
          (translate_from_p3_lem c address (omega (arith, lc))
            ∙ ap (λ n. done (lookup_p2 pages (n * 512 + address / 2 ^ 30 % 512) address)) nc)

    pub translate_from_p4_lem :
        (t address : ℕ)
        → level t ≡ 4
        → translate_from_p4 f physical_base get_bits t memory address
          ≡ done (
              lookup_p2 pages
                ((number t * 512 + address / 2 ^ 39 % 512) * 512 + address / 2 ^ 30 % 512)
                address)
    translate_from_p4_lem t address lv =
        p4_entry t address lv (entry_at format tree t _ 4 _ (omega arith) lv refl (omega arith))
