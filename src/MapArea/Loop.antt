-- ===== src/MapArea/Loop.antt =====
-- The loop of `map_area`: its cursor, and one run for each of the three sizes of page.
use mathlib.Core.Path.{fun_ext}
use poplar.Prelude.{
  ℕ, suc, ◌+◌, ◌-◌, ◌*◌, ◌/◌, ◌%◌, ◌^◌, ◌≤◌, ◌<◌, ◌≡◌, ◌⊎◌, refl, min, List, [], ◌++◌, arith, sym,
  ◌∙◌, ap, ltb, true, false, done,
}
use poplar.Hal.Arch.{Arch, physical_limit}
use poplar.Hal.PAddr
use poplar.Hal.PAddr.Laws.{new_in_range}
use poplar.Hal.VAddr
use poplar.Hal.Frame.{FrameSize, size, size_4kib, size_2mib, size_1gib}
use poplar.Hal.Flags.{Flags}
use poplar.Hal.PageTable.{Paging, and_then}
use poplar.Hal.PageTable.Laws.{
  IsInHalf, Mapping, Tiles, Tiles-append, map_all, map_all-append, pages, pages-Tiles,
}
use poplar.MapArea.{choose, fits_page, physical_of, map_area_loop}
use poplar.MapArea.Step.{
  VAddr_add, whole_pages_1gib, whole_pages_2mib, to_boundary_lem, map_bytes-pages,
}

-- The cursor `c` of the loop for an area that starts at `v`, `q`: `p` is its physical address and
-- `left` the number of bytes still to map.
pub record IsAt (arch : Arch) (v q c p left : ℕ) : Type 0 where
  pub start : v ≤ c
  pub offset : p + v ≡ q + c
  pub cursor_aligned : c % 4096 ≡ 0
  pub physical_aligned : p % 4096 ≡ 0
  pub left_aligned : left % 4096 ≡ 0
  pub phase : c % 2 ^ 21 ≡ p % 2 ^ 21
  pub half : IsInHalf arch c left
  pub physical : p + left < physical_limit arch
  pub sum : q + c + left < 2 ^ 64
  pub room : c + left + 2 ^ 21 < 2 ^ 64

IsInHalf-advance :
    (arch : Arch) (c bytes left : ℕ)
    → IsInHalf arch c left
    → bytes ≤ left
    → IsInHalf arch (c + bytes) (left - bytes)
IsInHalf-advance arch c bytes left h le = ground arith

IsInHalf-shorter :
    (arch : Arch) (c bytes left : ℕ) → IsInHalf arch c left → bytes ≤ left → IsInHalf arch c bytes
IsInHalf-shorter arch c bytes left h le = ground arith

pub IsAt-advance :
    (arch : Arch) (v q c p left bytes : ℕ)
    → IsAt arch v q c p left
    → bytes ≤ left
    → bytes % 4096 ≡ 0
    → IsAt arch v q (c + bytes) (p + bytes) (left - bytes)
IsAt-advance arch v q c p left bytes i le h = record {
  start = omega (arith, i.start);
  offset = omega (arith, i.offset);
  cursor_aligned = omega (arith, i.cursor_aligned);
  physical_aligned = omega (arith, i.physical_aligned);
  left_aligned = omega (arith, i.left_aligned);
  phase = omega (arith, i.phase);
  half = IsInHalf-advance arch c bytes left i.half le;
  physical = omega (arith, i.physical);
  sum = omega (arith, i.sum);
  room = omega (arith, i.room);
}

pub choose_1gib :
    (arch : Arch) (c p left : ℕ)
    → fits_page size_1gib c p left ≡ true
    → left < 2 ^ 64
    → choose arch c p left ≡ done (size_1gib, left / 2 ^ 30 * 2 ^ 30)
unfolding choose
choose_1gib arch c p left fits h = rw fits (whole_pages_1gib left h)

pub choose_2mib :
    (arch : Arch) (c p left : ℕ)
    → fits_page size_1gib c p left ≡ false
    → fits_page size_2mib c p left ≡ true
    → left < 2 ^ 64
    → choose arch c p left ≡ done (size_2mib, left / 2 ^ 21 * 2 ^ 21)
unfolding choose
choose_2mib arch c p left huge fits h = rw (huge, fits) (whole_pages_2mib left h)

choose_4kib :
    (arch : Arch) (v q c p left : ℕ)
    → IsAt arch v q c p left
    → 0 < left
    → fits_page size_1gib c p left ≡ false
    → fits_page size_2mib c p left ≡ false
    → choose arch c p left ≡ done (size_4kib, min (2 ^ 21 - c % 2 ^ 21) left)
unfolding choose
choose_4kib arch v q c p left i pos huge large =
    rw (huge, large) (to_boundary_lem arch c left i.half pos i.room)

-- What the sizes that fit say of the cursor.
pub fits_1gib :
    (c p left : ℕ)
    → fits_page size_1gib c p left ≡ true
    → (c % 2 ^ 30 ≡ 0) × (p % 2 ^ 30 ≡ 0) × (2 ^ 30 ≤ left)
unfolding fits_page size VAddr.is_aligned PAddr.is_aligned
fits_1gib c p left h = (ground arith, ground arith, ground arith)

pub fits_1gib_long : (c p left : ℕ) → left < 2 ^ 30 → fits_page size_1gib c p left ≡ false
unfolding fits_page size VAddr.is_aligned PAddr.is_aligned
fits_1gib_long c p left h = ground arith

pub fits_1gib_unaligned : (c p left : ℕ) → 0 < c % 2 ^ 21 → fits_page size_1gib c p left ≡ false
unfolding fits_page size VAddr.is_aligned PAddr.is_aligned
fits_1gib_unaligned c p left h = ground arith

pub fits_2mib_aligned :
    (c p left : ℕ)
    → c % 2 ^ 21 ≡ 0
    → p % 2 ^ 21 ≡ 0
    → 2 ^ 21 ≤ left
    → fits_page size_2mib c p left ≡ true
unfolding fits_page size VAddr.is_aligned PAddr.is_aligned
fits_2mib_aligned c p left h k le = ground arith

pub fits_2mib_long :
    (c p left : ℕ) → (left < 2 ^ 21) ⊎ (0 < c % 2 ^ 21) → fits_page size_2mib c p left ≡ false
unfolding fits_page size VAddr.is_aligned PAddr.is_aligned
fits_2mib_long c p left h = ground arith

module _ {T : Type 0} (arch : Arch) (map : FrameSize → ℕ → ℕ → Flags → T → Paging T) (flags : Flags)
    (v q stop : ℕ) where
  -- From the cursor on, the loop makes mappings that tile what is left.
  abbrev pub Covers : ℕ → ℕ → ℕ → ℕ → Type 0
  Covers fuel c p left =
      (ms : List Mapping) × Tiles c p ms left
      × ((t : T) → map_area_loop arch map flags fuel v q stop c t ≡ map_all map flags ms t)

  physical_of-IsAt : (c p left : ℕ) → IsAt arch v q c p left → physical_of arch q v c ≡ done p
  unfolding physical_of
  physical_of-IsAt c p left i =
      let there : q + c - v ≡ p = omega (arith, i.offset, i.start) in
      let fits = new_in_range arch p (omega (arith, i.physical)) in
      ground (arith, i.sum, i.start, i.offset, there, fits)

  pub loop_end : (fuel c p : ℕ) → c ≡ stop → Covers (suc fuel) c p 0
  unfolding map_area_loop map_all
  loop_end fuel c p e = ([], refl, λ t. ground arith)

  -- One run, which maps `count` pages of one size.
  pub loop_run :
      (fuel c p left count : ℕ) (s : FrameSize)
      → IsAt arch v q c p left
      → c + left ≡ stop
      → 0 < left
      → choose arch c p left ≡ done (s, count * size s)
      → count * size s ≤ left
      → c % size s ≡ 0
      → p % size s ≡ 0
      → Covers fuel (c + count * size s) (p + count * size s) (left - count * size s)
      → Covers (suc fuel) c p left
  unfolding map_area_loop
  loop_run fuel c p left count s i e pos chosen le av aligned (ms, tiles, runs) =
      let bytes = count * size s in
      let more : ltb c stop ≡ true = ground arith in
      let rest : stop - c ≡ left = omega arith in
      let here = physical_of-IsAt c p left i in
      let go = VAddr_add arch c left bytes i.half le in
      (
        pages s count c p ++ ms,
        Tiles-append (pages s count c p) ms c p (c + bytes) (p + bytes) bytes (left - bytes) left
            refl refl (omega arith) (pages-Tiles s count c p av aligned) tiles,
        λ t.
            let mapped =
              map_bytes-pages arch map flags s count c p t av aligned
                (IsInHalf-shorter arch c bytes left i.half le) (omega (arith, i.physical)) in
            rw (more, here, rest, chosen, mapped, go)
              (ap (and_then (map_all map flags (pages s count c p) t)) (fun_ext runs)
                ∙ sym (map_all-append map flags (pages s count c p) ms t)),
      )

  pub run_4kib :
      (fuel c p left : ℕ)
      → IsAt arch v q c p left
      → c + left ≡ stop
      → 0 < left
      → fits_page size_1gib c p left ≡ false
      → fits_page size_2mib c p left ≡ false
      → (let bytes = min (2 ^ 21 - c % 2 ^ 21) left in
          Covers fuel (c + bytes) (p + bytes) (left - bytes))
      → Covers (suc fuel) c p left
  unfolding size
  run_4kib fuel c p left i e pos huge large rest =
      let bytes = min (2 ^ 21 - c % 2 ^ 21) left in
      let whole : bytes / 4096 * 4096 ≡ bytes = ground (arith, i.cursor_aligned, i.left_aligned) in
      loop_run fuel c p left (bytes / 4096) size_4kib i e pos
        (choose_4kib arch v q c p left i pos huge large ∙ ap (λ b. done (size_4kib, b)) (sym whole))
        (omega (arith, whole)) i.cursor_aligned i.physical_aligned (rw whole rest)
