-- ===== src/Hal/Page.antt =====
-- lib/hal/src/memory/page.rs: pages of virtual memory. A `Page<S>` is its start address.
pub mod Laws
use poplar.Prelude.{
  ℕ, ◌-◌, ◌/◌, ◌%◌, Option, none, some, ltb, ◌==◌, if◌then◌else◌, Outcome, done, ◌>>=◌, ◌>>◌,
  assert, unwrap,
}
use poplar.Hal.Arch.{Arch}
use poplar.Hal.VAddr
use poplar.Hal.Frame.{FrameSize, size, checked_mul}

unfoldable pub starts_with : FrameSize → ℕ → Outcome ℕ
starts_with s address = do assert (address % size s == 0); done address

unfoldable pub contains : FrameSize → ℕ → Outcome ℕ
contains s address = VAddr.align_down address (size s)

-- `impl Add<usize> for Page<S>`, with the overflow check of the product.
unfoldable pub add : Arch → FrameSize → ℕ → ℕ → Outcome ℕ
unfolding checked_mul contains
add arch s start num_pages = do
  bytes ← unwrap (checked_mul num_pages (size s))
  sum ← VAddr.add arch start bytes
  contains s sum

-- `impl Step for Page<S>`
unfoldable pub steps_between : FrameSize → ℕ → ℕ → Outcome (ℕ × Option ℕ)
steps_between s start stop = if ltb stop start then done (0, none) else do
  assert ((stop - start) % size s == 0)
  done ((stop - start) / size s, some ((stop - start) / size s))

unfoldable pub forward_checked : Arch → FrameSize → ℕ → ℕ → Option ℕ
unfolding checked_mul
forward_checked arch s start count = elim (checked_mul (size s) count) [
  | none ↦ none
  | some bytes ↦ VAddr.checked_add arch start bytes
]

unfoldable pub backward_checked : Arch → FrameSize → ℕ → ℕ → Option ℕ
unfolding checked_mul
backward_checked arch s start count = elim (checked_mul (size s) count) [
  | none ↦ none
  | some bytes ↦ VAddr.checked_sub arch start bytes
]
