-- ===== src/Kernel/Vmm.antt =====
-- kernel/src/vmm/mod.rs: the part of kernel space that is given out. The kernel's page table is left
-- out of the state, and what `BootInfo` gives is a record of addresses.
pub mod Laws
use poplar.Prelude.{ℕ, ◌+◌, ◌%◌, ◌^◌, Option, none, some, ltb, if◌then◌else◌, Outcome, done, ◌>>=◌}
use poplar.Hal.Arch.{Arch}
use poplar.Hal.VAddr
use poplar.Hal.Frame.{size, size_4kib}
use poplar.Mulch.Math

pub record BootInfo : Type 0 where
  pub higher_half_base : ℕ
  pub physical_mapping_base : ℕ
  pub kernel_dynamic_area_base : ℕ
  pub kernel_image_base : ℕ

pub record Vmm : Type 0 where
  pub higher_half_start : ℕ
  pub physical_mapping_base : ℕ
  pub kernel_dynamic_area_base : ℕ
  pub kernel_image_base : ℕ
  pub kernel_dynamic_next_available : ℕ
  pub kernel_end_of_dynamic_area : ℕ

unfoldable pub new : BootInfo → Vmm
new boot_info = record {
  higher_half_start = boot_info.higher_half_base;
  physical_mapping_base = boot_info.physical_mapping_base;
  kernel_dynamic_area_base = boot_info.kernel_dynamic_area_base;
  kernel_image_base = boot_info.kernel_image_base;
  kernel_dynamic_next_available = boot_info.kernel_dynamic_area_base;
  kernel_end_of_dynamic_area = boot_info.kernel_image_base;
}

unfoldable pub physical_to_virtual : Arch → ℕ → Vmm → Outcome ℕ
unfolding VAddr.add
physical_to_virtual arch phys vmm = VAddr.add arch vmm.physical_mapping_base phys

-- `fetch_add` wraps around.
unfoldable pub alloc_kernel : Arch → ℕ → Vmm → Outcome (Option ℕ × Vmm)
unfolding Math.align_up VAddr.new VAddr.add
alloc_kernel arch bytes vmm = do
  aligned ← Math.align_up bytes (size size_4kib)
  let address = VAddr.new arch vmm.kernel_dynamic_next_available in
      let vmm' = record vmm {
        kernel_dynamic_next_available = (vmm.kernel_dynamic_next_available + aligned) % 2 ^ 64;
      } in
      VAddr.add arch address aligned >>= λ top.
      if ltb vmm.kernel_end_of_dynamic_area top
      then done (none, vmm')
      else done (some address, vmm')
