-- ===== src/Kernel/Vmm/Laws.antt =====
-- The areas of kernel space that kernel/src/vmm/mod.rs gives out.
pub mod Examples
use poplar.Prelude.{
  ℕ, ◌+◌, ◌-◌, ◌%◌, ◌^◌, ◌≤◌, ◌<◌, ◌≡◌, refl, sym, ap, ◌∙◌, true, false, Option, none, some, ltb,
  if◌then◌else◌, Outcome, done, ◌>>=◌, unwrap, inr, ◌↔◌, arith,
}
use poplar.Hal.Arch.{Arch, x86_64, riscv64_sv48, riscv64_sv39}
use poplar.Hal.Usize
use poplar.Hal.VAddr
use poplar.Hal.VAddr.Laws.{IsCanonical, half, new_iff}
use poplar.Hal.Frame.{size, size_4kib}
use poplar.Mulch.Math
use poplar.Kernel.Vmm.{Vmm, alloc_kernel}

-- The next address is in the higher half, and the area ends in the address space.
abbrev pub IsValid : Arch → Vmm → Type 0
IsValid arch vmm =
    (2 ^ 64 - half arch ≤ vmm.kernel_dynamic_next_available)
    × (vmm.kernel_end_of_dynamic_area < 2 ^ 64)

-- The manager when some bytes have been given out.
abbrev pub moved : ℕ → Vmm → Vmm
moved bytes vmm = record vmm {
  kernel_dynamic_next_available = vmm.kernel_dynamic_next_available + bytes;
}

higher_half :
    (arch : Arch) (address : ℕ)
    → 2 ^ 64 - half arch ≤ address
    → address < 2 ^ 64
    → VAddr.new arch address ≡ address
higher_half arch address low high = (new_iff arch address high).1 (inr (low, high))

add_higher_half :
    (arch : Arch) (address bytes : ℕ)
    → 2 ^ 64 - half arch ≤ address
    → address + bytes < 2 ^ 64
    → VAddr.add arch address bytes ≡ done (address + bytes)
unfolding VAddr.add Usize.checked_add
add_higher_half arch address bytes low high =
    let fits : ltb (address + bytes) (2 ^ 64) ≡ true = ground (arith, high) in
    rw (fits) (ap done (higher_half arch (address + bytes) (omega (arith, low)) high))

-- Both results of `alloc_kernel`.
alloc_kernel_lem :
    (arch : Arch) (bytes aligned : ℕ) (vmm : Vmm)
    → IsValid arch vmm
    → Math.align_up bytes (size size_4kib) ≡ done aligned
    → vmm.kernel_dynamic_next_available + aligned < 2 ^ 64
    → alloc_kernel arch bytes vmm ≡ (
        if ltb vmm.kernel_end_of_dynamic_area (vmm.kernel_dynamic_next_available + aligned)
        then done (none, moved aligned vmm)
        else done (some vmm.kernel_dynamic_next_available, moved aligned vmm))
unfolding alloc_kernel
alloc_kernel_lem arch bytes aligned vmm (low, top) e fits =
    let wrap : (vmm.kernel_dynamic_next_available + aligned) % 2 ^ 64
        ≡ vmm.kernel_dynamic_next_available + aligned =
      omega (arith, fits) in
    rw
      (
        e,
        higher_half arch vmm.kernel_dynamic_next_available low (omega (arith, fits)),
        add_higher_half arch vmm.kernel_dynamic_next_available aligned low fits,
        wrap,
      )
      refl

-- Two allocations that fit below the end of the area, their sizes rounded up to pages: both
-- succeed, the first area ends where the second begins or before, and the second ends at the
-- end of the area or before. The manager stays valid.
pub alloc_kernel_disjoint :
    (arch : Arch) (bytes1 bytes2 aligned1 aligned2 : ℕ) (vmm : Vmm)
    → IsValid arch vmm
    → Math.align_up bytes1 (size size_4kib) ≡ done aligned1
    → Math.align_up bytes2 (size size_4kib) ≡ done aligned2
    → vmm.kernel_dynamic_next_available + aligned1 + aligned2 ≤ vmm.kernel_end_of_dynamic_area
    → (first : ℕ) × (second : ℕ) × (vmm1 : Vmm) × (vmm2 : Vmm) × (alloc_kernel arch bytes1 vmm
        ≡ done (some first, vmm1))
      × (alloc_kernel arch bytes2 vmm1 ≡ done (some second, vmm2))
      × (vmm.kernel_dynamic_next_available ≤ first)
      × (first + aligned1 ≤ second)
      × (second + aligned2 ≤ vmm.kernel_end_of_dynamic_area)
      × IsValid arch vmm2
alloc_kernel_disjoint arch bytes1 bytes2 aligned1 aligned2 vmm valid e1 e2 fits =
    let next = vmm.kernel_dynamic_next_available in
    let end = vmm.kernel_end_of_dynamic_area in
    let (low, top) = valid in
    let valid1 : IsValid arch (moved aligned1 vmm) = (omega (arith, low), top) in
    let below1 : ltb end (next + aligned1) ≡ false = ground (arith, fits) in
    let below2 : ltb end (next + aligned1 + aligned2) ≡ false = ground (arith, fits) in
    (
      next,
      next + aligned1,
      moved aligned1 vmm,
      moved aligned2 (moved aligned1 vmm),
      alloc_kernel_lem arch bytes1 aligned1 vmm valid e1 (omega (arith, fits, top))
          ∙ rw (below1) refl,
      alloc_kernel_lem arch bytes2 aligned2 (moved aligned1 vmm) valid1 e2
            (omega (arith, fits, top))
          ∙ rw (below2) refl,
      omega arith,
      omega arith,
      fits,
      (omega (arith, low), top),
    )

-- An allocation that does not fit is refused, but it uses up the space all the same: an allocation
-- after it is refused too, though its pages fit between the next address and the end of the area.
pub refused_uses_space :
    (arch : Arch) (bytes1 bytes2 aligned1 aligned2 : ℕ) (vmm : Vmm)
    → IsValid arch vmm
    → Math.align_up bytes1 (size size_4kib) ≡ done aligned1
    → Math.align_up bytes2 (size size_4kib) ≡ done aligned2
    → vmm.kernel_end_of_dynamic_area < vmm.kernel_dynamic_next_available + aligned1
    → vmm.kernel_dynamic_next_available + aligned2 ≤ vmm.kernel_end_of_dynamic_area
    → vmm.kernel_dynamic_next_available + aligned1 + aligned2 < 2 ^ 64
    → (vmm1 : Vmm) × (vmm2 : Vmm) × (alloc_kernel arch bytes1 vmm ≡ done (none, vmm1))
      × (alloc_kernel arch bytes2 vmm1 ≡ done (none, vmm2))
      × (alloc_kernel arch bytes2 vmm
          ≡ done (some vmm.kernel_dynamic_next_available, moved aligned2 vmm))
refused_uses_space arch bytes1 bytes2 aligned1 aligned2 vmm valid e1 e2 large small inside =
    let next = vmm.kernel_dynamic_next_available in
    let end = vmm.kernel_end_of_dynamic_area in
    let (low, top) = valid in
    let valid1 : IsValid arch (moved aligned1 vmm) = (omega (arith, low), top) in
    let above1 : ltb end (next + aligned1) ≡ true = ground (arith, large) in
    let above2 : ltb end (next + aligned1 + aligned2) ≡ true = ground (arith, large) in
    let below : ltb end (next + aligned2) ≡ false = ground (arith, small) in
    (
      moved aligned1 vmm,
      moved aligned2 (moved aligned1 vmm),
      alloc_kernel_lem arch bytes1 aligned1 vmm valid e1 (omega (arith, inside)) ∙ rw (above1) refl,
      alloc_kernel_lem arch bytes2 aligned2 (moved aligned1 vmm) valid1 e2 inside
          ∙ rw (above2) refl,
      alloc_kernel_lem arch bytes2 aligned2 vmm valid e2 (omega (arith, inside)) ∙ rw (below) refl,
    )
