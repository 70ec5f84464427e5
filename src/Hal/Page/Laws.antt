-- ===== src/Hal/Page/Laws.antt =====
-- Pages: stepping from one to another within a half of the address space.
use poplar.Prelude.{ℕ, ◌+◌, ◌-◌, ◌*◌, ◌^◌, ◌<◌, ◌≡◌, some, done, arith}
use poplar.Hal.Arch.{Arch, x86_64, riscv64_sv48, riscv64_sv39}
use poplar.Hal.VAddr
use poplar.Hal.VAddr.Laws.{IsCanonical, new_iff}
use poplar.Hal.Frame.{FrameSize, size_4kib, size_2mib, size_1gib, size}
use poplar.Hal.Page.{steps_between, forward_checked, backward_checked}

pub IsCanonical-lt : (arch : Arch) (address : ℕ) → IsCanonical arch address → address < 2 ^ 64
IsCanonical-lt x86_64 address c = ground arith
IsCanonical-lt riscv64_sv48 address c = ground arith
IsCanonical-lt riscv64_sv39 address c = ground arith

module _ (arch : Arch) (start bytes : ℕ) (c : IsCanonical arch start)
    (c' : IsCanonical arch (start + bytes)) where
  checked_add-canonical : VAddr.checked_add arch start bytes ≡ some (start + bytes)
  unfolding VAddr.checked_add
  checked_add-canonical =
      let fits = IsCanonical-lt arch (start + bytes) c' in
      let same = (new_iff arch (start + bytes) fits).1 c' in ground (arith, same)

  checked_sub-canonical : VAddr.checked_sub arch (start + bytes) bytes ≡ some start
  unfolding VAddr.checked_sub
  checked_sub-canonical =
      let same = (new_iff arch start (IsCanonical-lt arch start c)).1 c in
      let back : start + bytes - bytes ≡ start = omega arith in ground (arith, same, back)

  bytes_fit : bytes < 2 ^ 64
  bytes_fit = omega (arith, IsCanonical-lt arch (start + bytes) c')

-- From a page to the one `count` pages on, where both are canonical and nothing overflows: stepping
-- forward gets there, stepping backward returns, and `count` steps lie between.
pub step_round_trip_canonical :
    (arch : Arch) (s : FrameSize) (start count : ℕ)
    → IsCanonical arch start
    → IsCanonical arch (start + count * size s)
    → (forward_checked arch s start count ≡ some (start + count * size s))
      × (backward_checked arch s (start + count * size s) count ≡ some start)
      × (steps_between s start (start + count * size s) ≡ done (count, some count))
unfolding forward_checked backward_checked steps_between size
step_round_trip_canonical arch size_4kib start count c c' =
    let fits = bytes_fit arch start (count * 4096) c c' in
    let turn : 4096 * count ≡ count * 4096 = omega arith in
    (
      rw (forward_checked, turn)
          (ground (arith, checked_add-canonical arch start (count * 4096) c c')),
      rw (backward_checked, turn)
          (ground (arith, checked_sub-canonical arch start (count * 4096) c c')),
      ground arith,
    )
step_round_trip_canonical arch size_2mib start count c c' =
    let fits = bytes_fit arch start (count * 2097152) c c' in
    let turn : 2097152 * count ≡ count * 2097152 = omega arith in
    (
      rw (forward_checked, turn)
          (ground (arith, checked_add-canonical arch start (count * 2097152) c c')),
      rw (backward_checked, turn)
          (ground (arith, checked_sub-canonical arch start (count * 2097152) c c')),
      ground arith,
    )
step_round_trip_canonical arch size_1gib start count c c' =
    let fits = bytes_fit arch start (count * 1073741824) c c' in
    let turn : 1073741824 * count ≡ count * 1073741824 = omega arith in
    (
      rw (forward_checked, turn)
          (ground (arith, checked_add-canonical arch start (count * 1073741824) c c')),
      rw (backward_checked, turn)
          (ground (arith, checked_sub-canonical arch start (count * 1073741824) c c')),
      ground arith,
    )
