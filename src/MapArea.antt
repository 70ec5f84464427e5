-- ===== src/MapArea.antt =====
-- `PageTable::map_area` of lib/hal_x86_64/src/paging.rs, which lib/hal_riscv/src/paging.rs repeats
-- for Sv48 and Sv39: an area is cut into pages of three sizes.
pub mod Step
pub mod Loop
pub mod Laws
pub mod Overflow
pub mod Riscv
mod Examples
use poplar.Prelude.{
  ℕ, zero, suc, ◌+◌, ◌-◌, ◌%◌, min, Bool, not, ◌&&◌, ◌||◌, ltb, leb, ◌==◌, if◌then◌else◌, Outcome,
  done, ◌>>=◌, ◌>>◌, assert, unwrap,
}
use poplar.Hal.Arch.{Arch}
use poplar.Hal.Usize
use poplar.Hal.PAddr
use poplar.Hal.VAddr
use poplar.Hal.Frame
use poplar.Hal.Frame.{FrameSize, size, size_4kib, size_2mib, size_1gib}
use poplar.Hal.Page
use poplar.Hal.Flags.{Flags}
use poplar.Hal.PageTable.{Paging, ok, crash, and_then, after, map_range}
use poplar.Mulch.Math

-- As many bytes as whole large pages hold.
unfoldable pub whole_pages : FrameSize → ℕ → Outcome (FrameSize × ℕ)
whole_pages s bytes_left = do
  bytes_to_map ← Math.align_down bytes_left (size s)
  done (s, bytes_to_map)

-- Small pages up to the next boundary of 2 MiB, or to the end of the area.
unfoldable pub to_boundary : Arch → ℕ → ℕ → Outcome (FrameSize × ℕ)
unfolding Usize.checked_sub
to_boundary arch cursor bytes_left = do
  next ← VAddr.add arch cursor 1
  next_boundary ← VAddr.align_up next (size size_2mib)
  up_to_boundary ← unwrap (Usize.checked_sub next_boundary cursor)
  done (size_4kib, min up_to_boundary bytes_left)

unfoldable pub fits_page : FrameSize → ℕ → ℕ → ℕ → Bool
unfolding VAddr.is_aligned PAddr.is_aligned
fits_page s cursor cursor_physical bytes_left =
    VAddr.is_aligned cursor (size s)
    && PAddr.is_aligned cursor_physical (size s)
    && leb (size s) bytes_left

-- The size of page for the part of the area at the cursor, and how many bytes to map with it.
unfoldable pub choose : Arch → ℕ → ℕ → ℕ → Outcome (FrameSize × ℕ)
unfolding fits_page
choose arch cursor cursor_physical bytes_left =
    if fits_page size_1gib cursor cursor_physical bytes_left
    then whole_pages size_1gib bytes_left
    else if fits_page size_2mib cursor cursor_physical bytes_left
    then whole_pages size_2mib bytes_left
    else to_boundary arch cursor bytes_left

-- `PAddr::new(physical_start + cursor - virtual_start).unwrap()`, from left to right.
unfoldable pub physical_of : Arch → ℕ → ℕ → ℕ → Outcome ℕ
unfolding Usize.checked_add Usize.checked_sub
physical_of arch physical_start virtual_start cursor = do
  sum ← unwrap (Usize.checked_add physical_start cursor)
  address ← unwrap (Usize.checked_sub sum virtual_start)
  unwrap (PAddr.new arch address)

module _ {T : Type 0} (arch : Arch) (map : FrameSize → ℕ → ℕ → Flags → T → Paging T)
    (flags : Flags) where
  -- The pages and the frames from two addresses on, for a number of bytes.
  unfoldable pub map_bytes : FrameSize → ℕ → ℕ → ℕ → T → Paging T
  unfolding Page.starts_with Frame.starts_with
  map_bytes s virtual physical bytes t = after (Page.starts_with s virtual) (λ page.
      after (VAddr.add arch virtual bytes) (λ virtual_end.
        after (Page.starts_with s virtual_end) (λ pages_end.
          after (Frame.starts_with s physical) (λ frame.
            after (PAddr.add arch physical bytes) (λ physical_end.
              after (Frame.starts_with s physical_end)
                (λ frames_end. map_range arch map flags s page pages_end frame frames_end t))))))

  -- The loop `while cursor < virtual_end`; `fuel` bounds the number of its runs.
  pub map_area_loop : ℕ → ℕ → ℕ → ℕ → ℕ → T → Paging T
  map_area_loop zero virtual_start physical_start virtual_end cursor t = crash
  map_area_loop (suc fuel) virtual_start physical_start virtual_end cursor t =
      let rest : ℕ → T → Paging T = map_area_loop fuel virtual_start physical_start virtual_end in
      if ltb cursor virtual_end
      then after (physical_of arch physical_start virtual_start cursor) (λ cursor_physical.
        after (choose arch cursor cursor_physical (virtual_end - cursor)) (λ (s, bytes_to_map).
          and_then (map_bytes s cursor cursor_physical bytes_to_map t)
            (λ t'. after (VAddr.add arch cursor bytes_to_map) (λ cursor'. rest cursor' t'))))
      else after (assert (cursor == virtual_end)) (λ _. ok t)

  -- Five runs are enough: up to a boundary, then large pages, then the rest, then the test fails.
  unfoldable pub map_area : ℕ → ℕ → ℕ → T → Paging T
  unfolding VAddr.is_aligned PAddr.is_aligned
  map_area virtual_start physical_start bytes t =
      after (assert (VAddr.is_aligned virtual_start (size size_4kib))) (λ _.
        after (assert (PAddr.is_aligned physical_start (size size_4kib))) (λ _.
          after (assert (bytes % size size_4kib == 0)) (λ _.
            if ltb bytes (size size_2mib)
              || not (Math.abs_difference physical_start virtual_start % size size_2mib == 0)
            then map_bytes size_4kib virtual_start physical_start bytes t
            else after (VAddr.add arch virtual_start bytes) (λ virtual_end.
              map_area_loop 5 virtual_start physical_start virtual_end virtual_start t))))
