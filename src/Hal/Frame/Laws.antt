-- ===== src/Hal/Frame/Laws.antt =====
-- Frames: counting them, and stepping from one to another.
use poplar.Prelude.{ℕ, ◌+◌, ◌*◌, ◌≤◌, ◌<◌, ◌≡◌, some, arith, done}
use poplar.Hal.Arch.{Arch, x86_64, riscv64_sv48, riscv64_sv39, physical_limit}
use poplar.Hal.PAddr.{new}
use poplar.Hal.PAddr
use poplar.Hal.Frame.{
  FrameSize, size_4kib, size_2mib, size_1gib, size, frames_needed, steps_between, forward_checked,
  backward_checked,
}

-- `frames_needed` is the least number of frames that hold the bytes.
pub frames_needed_least :
    (s : FrameSize) (bytes : ℕ)
    → (bytes ≤ frames_needed s bytes * size s) × (frames_needed s bytes * size s < bytes + size s)
unfolding frames_needed size
frames_needed_least size_4kib bytes = ground arith
frames_needed_least size_2mib bytes = ground arith
frames_needed_least size_1gib bytes = ground arith

-- Going `count` frames forward from a frame and back again ends where it began, wherever the step
-- forward stays in physical memory; and the steps between the two are `count`.
pub step_round_trip :
    (arch : Arch) (s : FrameSize) (start count stop : ℕ)
    → start < physical_limit arch
    → forward_checked arch s start count ≡ some stop
    → (backward_checked arch s stop count ≡ some start)
      × (steps_between s start stop ≡ done (count, some count))
unfolding forward_checked backward_checked steps_between size PAddr.checked_add PAddr.checked_sub
step_round_trip x86_64 size_4kib start count stop p h = (ground arith, ground arith)
step_round_trip riscv64_sv48 size_4kib start count stop p h = (ground arith, ground arith)
step_round_trip riscv64_sv39 size_4kib start count stop p h = (ground arith, ground arith)
step_round_trip arch s start count stop p h = (ground arith, ground arith)
