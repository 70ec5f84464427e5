-- ===== src/Hal/PageTable.antt =====
-- lib/hal/src/memory/paging.rs: the trait `PageTable`. An implementation's state, its frame
-- allocator's included, is a type `T`; what the trait's own code needs of it is `map`.
pub mod Laws
use poplar.Prelude.{ℕ, zero, suc, ◌+◌, ◌-◌, ◌/◌, ltb, if◌then◌else◌, Outcome, done, panic, unwrap}
use poplar.Hal.Arch.{Arch}
use poplar.Hal.Frame
use poplar.Hal.Frame.{FrameSize, size}
use poplar.Hal.Page
use poplar.Hal.Flags.{Flags}

-- `Result<(), PagingError>` with the page table as it was left, or a panic. `PagingError` has the
-- one value `AlreadyMapped`.
pub data Paging (T : Type 0) : Type 0 where
  ok : T → Paging T
  already_mapped : T → Paging T
  crash : Paging T

-- `?` and `;`
abbrev pub and_then : {T : Type 0} → Paging T → (T → Paging T) → Paging T
and_then (ok t) f = f t
and_then (already_mapped t) f = already_mapped t
and_then crash f = crash

-- Code that may panic, before the page table is used.
abbrev pub after : {A T : Type 0} → Outcome A → (A → Paging T) → Paging T
after (done a) f = f a
after panic f = crash

module _ {T : Type 0} (arch : Arch) (map : FrameSize → ℕ → ℕ → Flags → T → Paging T)
    (flags : Flags) where
  -- The loop over `pages.zip(frames)`: the next page is taken first, then the next frame. `fuel`
  -- bounds the number of pages.
  pub map_range_loop : ℕ → FrameSize → ℕ → ℕ → ℕ → ℕ → T → Paging T
  map_range_loop zero s page pages_end frame frames_end t = crash
  map_range_loop (suc fuel) s page pages_end frame frames_end t =
      let rest : ℕ → ℕ → T → Paging T =
        λ page' frame' t'. map_range_loop fuel s page' pages_end frame' frames_end t' in
      if ltb page pages_end
      then after (unwrap (Page.forward_checked arch s page 1)) (λ page'.
        if ltb frame frames_end
        then after (unwrap (Frame.forward_checked arch s frame 1))
            (λ frame'. and_then (map s page frame flags t) (rest page' frame'))
        else ok t)
      else ok t

  unfoldable pub map_range : FrameSize → ℕ → ℕ → ℕ → ℕ → T → Paging T
  map_range s page pages_end frame frames_end t =
      map_range_loop ((pages_end - page) / size s + 1) s page pages_end frame frames_end t
