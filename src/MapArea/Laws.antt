-- ===== src/MapArea/Laws.antt =====
-- `map_area` covers exactly the area, with pages that are aligned to their sizes.
use poplar.Prelude.{
  ℕ, suc, ◌+◌, ◌-◌, ◌*◌, ◌/◌, ◌%◌, ◌^◌, ◌<◌, ◌≡◌, inl, inr, refl, min, List, arith, sym, ◌∙◌, ap,
  subst, ltb, true, false, ◌==◌, Bool-cases, not, ◌||◌,
}
use native.Mathlib.Decide.{ℕ_discrete, dec_lt}
use poplar.Hal.Arch.{Arch, physical_limit}
use poplar.Hal.PAddr
use poplar.Hal.VAddr
use poplar.Hal.Frame.{FrameSize, size, size_4kib, size_2mib, size_1gib}
use poplar.Hal.Flags.{Flags}
use poplar.Hal.PageTable.{Paging}
use poplar.Hal.PageTable.Laws.{IsInHalf, Mapping, Tiles, map_all, pages, pages-Tiles}
use poplar.Mulch.Math
use poplar.MapArea.{fits_page, map_bytes, map_area}
use poplar.MapArea.Step.{VAddr_add, map_bytes-pages}
use poplar.MapArea.Loop.{
  IsAt, IsAt-advance, fits_1gib, fits_1gib_long, fits_1gib_unaligned, fits_2mib_aligned,
  fits_2mib_long, choose_1gib, choose_2mib, Covers, loop_end, loop_run, run_4kib,
}

module _ {T : Type 0} (arch : Arch) (map : FrameSize → ℕ → ℕ → Flags → T → Paging T) (flags : Flags)
    (v q stop : ℕ) where
  abbrev Covered : ℕ → ℕ → ℕ → ℕ → Type 0
  Covered = Covers arch map flags v q stop

  -- Nothing is left, or what is left is smaller than a large page.
  runs_small :
      (fuel c p left : ℕ)
      → IsAt arch v q c p left
      → c + left ≡ stop
      → c % 2 ^ 21 ≡ 0
      → left < 2 ^ 21
      → Covered (suc (suc fuel)) c p left
  runs_small fuel c p left i e on small = elim (ℕ_discrete left 0) [
    | yes none ↦ rw none (loop_end arch map flags v q stop (suc fuel) c p (omega (arith, none)))
    | no some_left ↦
        let all : min (2 ^ 21 - c % 2 ^ 21) left ≡ left = ground arith in
        let over : left - left ≡ 0 = omega arith in
        run_4kib arch map flags v q stop (suc fuel) c p left i e (ground arith)
          (fits_1gib_long c p left (omega arith)) (fits_2mib_long c p left (inl small))
          (rw (all, over) (loop_end arch map flags v q stop fuel (c + left) (p + left) e))
  ]

  -- Less than a page of 1 GiB is left.
  runs_2mib :
      (fuel c p left : ℕ)
      → IsAt arch v q c p left
      → c + left ≡ stop
      → c % 2 ^ 21 ≡ 0
      → fits_page size_1gib c p left ≡ false
      → Covered (suc (suc (suc fuel))) c p left
  unfolding size
  runs_2mib fuel c p left i e on huge = elim (dec_lt left (2 ^ 21)) [
    | yes small ↦ runs_small (suc fuel) c p left i e on small
    | no long ↦
        let bytes = left / 2 ^ 21 * 2 ^ 21 in
        let on_p : p % 2 ^ 21 ≡ 0 = omega (arith, i.phase) in
        let fits = fits_2mib_aligned c p left on on_p (ground arith) in
        loop_run arch map flags v q stop (suc (suc fuel)) c p left (left / 2 ^ 21) size_2mib i e
          (ground arith) (choose_2mib arch c p left huge fits (omega (arith, i.room))) (omega arith)
          on on_p
          (runs_small fuel (c + bytes) (p + bytes) (left - bytes)
            (IsAt-advance arch v q c p left bytes i (omega arith) (omega arith)) (omega arith)
            (omega arith) (omega arith))
  ]

  -- The cursor is at a boundary of 2 MiB.
  runs_boundary :
      (fuel c p left : ℕ)
      → IsAt arch v q c p left
      → c + left ≡ stop
      → c % 2 ^ 21 ≡ 0
      → Covered (suc (suc (suc (suc fuel)))) c p left
  unfolding size
  runs_boundary fuel c p left i e on = elim (Bool-cases (fits_page size_1gib c p left)) [
    | inr huge ↦ runs_2mib (suc fuel) c p left i e on huge
    | inl fits ↦
        let bytes = left / 2 ^ 30 * 2 ^ 30 in
        let (on_c, on_p, long) = fits_1gib c p left fits in
        loop_run arch map flags v q stop (suc (suc (suc fuel))) c p left (left / 2 ^ 30) size_1gib i
          e (omega arith) (choose_1gib arch c p left fits (omega (arith, i.room))) (omega arith)
          on_c on_p
          (runs_2mib fuel (c + bytes) (p + bytes) (left - bytes)
            (IsAt-advance arch v q c p left bytes i (omega arith) (omega arith)) (omega arith)
            (omega arith) (fits_1gib_long _ _ _ (omega arith)))
  ]

  after_boundary :
      (fuel c p left : ℕ)
      → IsAt arch v q c p left
      → c + left ≡ stop
      → ¬ (c % 2 ^ 21 ≡ 0)
      → (let bytes = min (2 ^ 21 - c % 2 ^ 21) left in
          Covered (suc (suc (suc (suc fuel)))) (c + bytes) (p + bytes) (left - bytes))
  after_boundary fuel c p left i e off = elim (dec_lt left (2 ^ 21 - c % 2 ^ 21)) [
    | yes near ↦
        let all : min (2 ^ 21 - c % 2 ^ 21) left ≡ left = ground arith in
        let over : left - left ≡ 0 = omega arith in
        rw (all, over)
          (loop_end arch map flags v q stop (suc (suc (suc fuel))) (c + left) (p + left) e)
    | no far ↦
        let up : min (2 ^ 21 - c % 2 ^ 21) left ≡ 2 ^ 21 - c % 2 ^ 21 = ground arith in
        let bytes = 2 ^ 21 - c % 2 ^ 21 in
        rw up (
          runs_boundary fuel (c + bytes) (p + bytes) (left - bytes)
            (IsAt-advance arch v q c p left bytes i (ground arith)
              (omega (arith, i.cursor_aligned)))
            (ground arith) (omega arith))
  ]

  -- Anywhere: small pages go up to a boundary first.
  runs_anywhere :
      (fuel c p left : ℕ)
      → IsAt arch v q c p left
      → c + left ≡ stop
      → Covered (suc (suc (suc (suc (suc fuel))))) c p left
  runs_anywhere fuel c p left i e = elim (ℕ_discrete (c % 2 ^ 21) 0) [
    | yes on ↦ runs_boundary (suc fuel) c p left i e on
    | no off ↦ elim (ℕ_discrete left 0) [
      | yes none ↦
          rw none (
            loop_end arch map flags v q stop (suc (suc (suc (suc fuel)))) c p (omega (arith, none)))
      | no some_left ↦
          let bytes = min (2 ^ 21 - c % 2 ^ 21) left in
          run_4kib arch map flags v q stop (suc (suc (suc (suc fuel)))) c p left i e (ground arith)
            (fits_1gib_unaligned c p left (ground arith))
            (fits_2mib_long c p left (inr (ground arith))) (after_boundary fuel c p left i e off)
    ]
  ]

-- What `map_area` needs of an area: whole small pages, in one half of the virtual addresses and in
-- physical memory. The sums that the code forms on the way must not overflow either.
pub record IsMappable (arch : Arch) (v q bytes : ℕ) : Type 0 where
  pub virtual_aligned : v % 4096 ≡ 0
  pub physical_aligned : q % 4096 ≡ 0
  pub whole : bytes % 4096 ≡ 0
  pub half : IsInHalf arch v bytes
  pub physical : q + bytes < physical_limit arch
  pub sum : q + v + bytes < 2 ^ 64
  pub room : v + bytes + 2 ^ 21 < 2 ^ 64

in_phase :
    (v q bytes : ℕ)
    → (ltb bytes 2097152 || not (Math.abs_difference q v % 2097152 == 0)) ≡ false
    → v % 2 ^ 21 ≡ q % 2 ^ 21
unfolding Math.abs_difference
in_phase v q bytes h = ground arith

IsAt-start :
    (arch : Arch) (v q bytes : ℕ)
    → IsMappable arch v q bytes
    → v % 2 ^ 21 ≡ q % 2 ^ 21
    → IsAt arch v q v q bytes
IsAt-start arch v q bytes m h = record {
  start = omega arith;
  offset = omega arith;
  cursor_aligned = m.virtual_aligned;
  physical_aligned = m.physical_aligned;
  left_aligned = m.whole;
  phase = h;
  half = m.half;
  physical = m.physical;
  sum = m.sum;
  room = m.room;
}

-- `map_area` of a mappable area runs to its end, whatever the page table: it makes the mappings of
-- a list, up to the first that fails. Those mappings cover exactly the area, in order, without a
-- gap or an overlap, each physical address at the same distance from the start as the virtual one,
-- and each mapping aligned to its size of 4 KiB, 2 MiB or 1 GiB.
pub map_area-Tiles :
    {T : Type 0} (arch : Arch) (map : FrameSize → ℕ → ℕ → Flags → T → Paging T) (flags : Flags)
    (v q bytes : ℕ)
    → IsMappable arch v q bytes
    → (ms : List Mapping) × Tiles v q ms bytes
      × ((t : T) → map_area arch map flags v q bytes t ≡ map_all map flags ms t)
unfolding map_area size VAddr.is_aligned PAddr.is_aligned
map_area-Tiles arch map flags v q bytes m =
    let a : (v % 4096 == 0) ≡ true = ground (arith, m.virtual_aligned) in
    let b : (q % 4096 == 0) ≡ true = ground (arith, m.physical_aligned) in
    let c : (bytes % 4096 == 0) ≡ true = ground (arith, m.whole) in
    elim (Bool-cases (ltb bytes 2097152 || not (Math.abs_difference q v % 2097152 == 0))) [
      | inl small ↦
          let count : bytes / 4096 * 4096 ≡ bytes = omega (arith, m.whole) in
          let here : IsInHalf arch v (bytes / 4096 * 4096) = rw count m.half in
          let there : q + bytes / 4096 * 4096 < physical_limit arch = rw count m.physical in
          (
            pages size_4kib (bytes / 4096) v q,
            subst (Tiles v q (pages size_4kib (bytes / 4096) v q)) count
                (pages-Tiles size_4kib (bytes / 4096) v q m.virtual_aligned m.physical_aligned),
            λ t.
                rw (a, b, c, small)
                  (ap (λ n. map_bytes arch map flags size_4kib v q n t) (sym count)
                    ∙ map_bytes-pages arch map flags size_4kib (bytes / 4096) v q t
                        m.virtual_aligned m.physical_aligned here there),
          )
      | inr large ↦
          let (ms, tiles, runs) =
            runs_anywhere arch map flags v q (v + bytes) 0 v q bytes
              (IsAt-start arch v q bytes m (in_phase v q bytes large)) refl in
          (
            ms,
            tiles,
            λ t. rw (a, b, c, large, VAddr_add arch v bytes bytes m.half (omega arith)) (runs t),
          )
    ]
