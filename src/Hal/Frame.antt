-- ===== src/Hal/Frame.antt =====
-- lib/hal/src/memory/mod.rs and frame.rs: frame sizes, and frames of physical memory.
pub mod Laws
use poplar.Prelude.{
  ℕ, ◌+◌, ◌-◌, ◌*◌, ◌/◌, ◌%◌, ◌^◌, Option, none, some, ltb, leb, ◌==◌, if◌then◌else◌, Outcome, done,
  panic, ◌>>=◌, ◌>>◌, assert, unwrap,
}
use poplar.Hal.Arch.{Arch}
use poplar.Hal.PAddr
use poplar.Hal.Usize

unfoldable pub kibibytes : ℕ → ℕ
kibibytes n = n * 1024

unfoldable pub mebibytes : ℕ → ℕ
unfolding kibibytes
mebibytes n = kibibytes (n * 1024)

unfoldable pub gibibytes : ℕ → ℕ
unfolding mebibytes
gibibytes n = mebibytes (n * 1024)

-- The marker types of the trait `FrameSize`, and its constant `SIZE`.
pub data FrameSize : Type 0 where
  size_4kib size_2mib size_1gib : FrameSize

unfoldable pub size : FrameSize → ℕ
unfolding kibibytes mebibytes gibibytes
size size_4kib = kibibytes 4
size size_2mib = mebibytes 2
size size_1gib = gibibytes 1

unfoldable pub frames_needed : FrameSize → ℕ → ℕ
frames_needed s bytes = bytes / size s + (if ltb 0 (bytes % size s) then 1 else 0)

-- A `Frame<S>` is its start address.
unfoldable pub starts_with : FrameSize → ℕ → Outcome ℕ
unfolding PAddr.is_aligned
starts_with s address = do assert (PAddr.is_aligned address (size s)); done address

unfoldable pub contains : FrameSize → ℕ → Outcome ℕ
contains s address = PAddr.align_down address (size s)

-- `usize::checked_mul`
unfoldable pub checked_mul : ℕ → ℕ → Option ℕ
checked_mul a b = if ltb (a * b) (2 ^ 64) then some (a * b) else none

-- `impl Add<usize> for Frame<S>`: the product and the sum are checked, and so is the address.
unfoldable pub add : Arch → FrameSize → ℕ → ℕ → Outcome ℕ
unfolding checked_mul
add arch s start num_frames = do
  bytes ← unwrap (checked_mul num_frames (size s))
  PAddr.add arch start bytes

-- `impl Step for Frame<S>`: `steps_between` returns a lower bound and, unless the end is before the
-- start, the exact number.
unfoldable pub steps_between : FrameSize → ℕ → ℕ → Outcome (ℕ × Option ℕ)
steps_between s start stop = if ltb stop start then done (0, none) else do
  assert ((stop - start) % size s == 0)
  done ((stop - start) / size s, some ((stop - start) / size s))

unfoldable pub forward_checked : Arch → FrameSize → ℕ → ℕ → Option ℕ
unfolding checked_mul
forward_checked arch s start count = elim (checked_mul (size s) count) [
  | none ↦ none
  | some bytes ↦ PAddr.checked_add arch start bytes
]

unfoldable pub backward_checked : Arch → FrameSize → ℕ → ℕ → Option ℕ
unfolding checked_mul
backward_checked arch s start count = elim (checked_mul (size s) count) [
  | none ↦ none
  | some bytes ↦ PAddr.checked_sub arch start bytes
]
