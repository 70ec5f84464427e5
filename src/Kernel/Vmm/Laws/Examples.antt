-- ===== src/Kernel/Vmm/Laws/Examples.antt =====
-- Kernel space of kernel/src/vmm/mod.rs at concrete inputs.
use poplar.Prelude.{ℕ, ◌+◌, ◌≤◌, ◌≡◌, refl, none, some, done, arith}
use poplar.Hal.Arch.{x86_64}
use poplar.Hal.Usize
use poplar.Hal.Frame.{size}
use poplar.Mulch.Math
use poplar.Kernel.Vmm.{Vmm, alloc_kernel}
use poplar.Kernel.Vmm.Laws.{IsValid, moved, alloc_kernel_disjoint, refused_uses_space}

abbrev vmm : Vmm
vmm = record {
  higher_half_start = 0xffff800000000000;
  physical_mapping_base = 0xffff800000000000;
  kernel_dynamic_area_base = 0xffffffff00000000;
  kernel_image_base = 0xffffffff80000000;
  kernel_dynamic_next_available = 0xffffffff7fffd000;
  kernel_end_of_dynamic_area = 0xffffffff80000000;
}

alloc_kernel_disjoint_example :
    (first : ℕ) × (second : ℕ) × (vmm1 : Vmm) × (vmm2 : Vmm) × (alloc_kernel x86_64 1 vmm
      ≡ done (some first, vmm1))
    × (alloc_kernel x86_64 4097 vmm1 ≡ done (some second, vmm2))
    × (0xffffffff7fffd000 ≤ first)
    × (first + 0x1000 ≤ second)
    × (second + 0x2000 ≤ 0xffffffff80000000)
    × IsValid x86_64 vmm2
unfolding Math.align_up Usize.checked_add Usize.checked_sub Math.align_down Usize.is_power_of_two
    size
alloc_kernel_disjoint_example =
    alloc_kernel_disjoint x86_64 1 4097 0x1000 0x2000 vmm (omega arith, omega arith) refl refl
      (omega arith)

refused_uses_space_example :
    (vmm1 : Vmm) × (vmm2 : Vmm) × (alloc_kernel x86_64 0x4000 vmm ≡ done (none, vmm1))
    × (alloc_kernel x86_64 1 vmm1 ≡ done (none, vmm2))
    × (alloc_kernel x86_64 1 vmm ≡ done (some 0xffffffff7fffd000, moved 0x1000 vmm))
unfolding Math.align_up Usize.checked_add Usize.checked_sub Math.align_down Usize.is_power_of_two
    size
refused_uses_space_example =
    refused_uses_space x86_64 0x4000 1 0x4000 0x1000 vmm (omega arith, omega arith) refl refl
      (omega arith) (omega arith) (omega arith)
