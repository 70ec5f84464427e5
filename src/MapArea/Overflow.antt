-- ===== src/MapArea/Overflow.antt =====
-- `physical_start + cursor - virtual_start` is computed from left to right.
use poplar.Prelude.{
  ℕ, ◌+◌, ◌%◌, ◌^◌, ◌≤◌, ◌≡◌, refl, ltb, true, false, ◌==◌, arith, not, ◌||◌, panic,
}
use poplar.Hal.Arch.{Arch}
use poplar.Hal.PAddr
use poplar.Hal.VAddr
use poplar.Hal.Frame.{FrameSize, size}
use poplar.Hal.Flags.{Flags}
use poplar.Hal.PageTable.{Paging, crash}
use poplar.Hal.PageTable.Laws.{IsInHalf}
use poplar.Mulch.Math
use poplar.MapArea.{physical_of, map_area, map_area_loop}
use poplar.MapArea.Step.{VAddr_add}

physical_of_overflow : (arch : Arch) (v q : ℕ) → 2 ^ 64 ≤ q + v → physical_of arch q v v ≡ panic
unfolding physical_of
physical_of_overflow arch v q h = ground arith

-- Under overflow checks, `map_area` of an area of at least 2 MiB whose two starts are in phase
-- panics where their sum leaves `usize`, as for a kernel image in the last 2 GiB of virtual memory
-- that is loaded above the first 2 GiB of physical memory.
pub map_area_overflow :
    {T : Type 0} (arch : Arch) (map : FrameSize → ℕ → ℕ → Flags → T → Paging T) (flags : Flags)
    (v q bytes : ℕ) (t : T)
    → v % 4096 ≡ 0
    → q % 4096 ≡ 0
    → bytes % 4096 ≡ 0
    → 2 ^ 21 ≤ bytes
    → v % 2 ^ 21 ≡ q % 2 ^ 21
    → IsInHalf arch v bytes
    → 2 ^ 64 ≤ q + v
    → map_area arch map flags v q bytes t ≡ crash
unfolding map_area map_area_loop size VAddr.is_aligned PAddr.is_aligned Math.abs_difference
map_area_overflow arch map flags v q bytes t a b c long phase half over =
    let a' : (v % 4096 == 0) ≡ true = ground arith in
    let b' : (q % 4096 == 0) ≡ true = ground arith in
    let c' : (bytes % 4096 == 0) ≡ true = ground arith in
    let large : (ltb bytes 2097152 || not (Math.abs_difference q v % 2097152 == 0)) ≡ false =
      ground arith in
    let more : ltb v (v + bytes) ≡ true = ground arith in
    rw
      (
        a',
        b',
        c',
        large,
        VAddr_add arch v bytes bytes half (omega arith),
        more,
        physical_of_overflow arch v q over,
      )
      refl
