-- ===== src/Kernel/Pmm.antt =====
-- kernel/src/pmm/mod.rs: the physical memory manager, over the buddy allocator. The lock round the
-- allocator is taken for one operation at a time, so the operations are functions of the state.
pub mod Boot
mod Examples
use poplar.Prelude.{
  ℕ, ◌+◌, ◌-◌, ◌*◌, ◌/◌, List, [], ◌∷◌, Option, none, some, Outcome, done, panic, ◌>>=◌, ◌>>◌,
  unwrap,
}
use poplar.Hal.Arch.{Arch}
use poplar.Hal.PAddr
use poplar.Hal.Frame
use poplar.Hal.Frame.{FrameSize, size_4kib, size}
use poplar.Hal.Usize
use poplar.Kernel.Buddy
use poplar.Kernel.Buddy.{BuddyAllocator}

-- `seed_bootinfo::MemoryType`
pub data MemoryType : Type 0 where
  usable reserved acpi_reclaimable acpi_nvs uefi_runtime_services device_tree kernel : MemoryType
  loaded_image framebuffer scratch : MemoryType

-- `seed_bootinfo::MemoryEntry`
pub record MemoryEntry : Type 0 where
  pub base : ℕ
  pub length : ℕ
  pub typ : MemoryType

module _ (arch : Arch) where
  -- The frames of a usable entry; the range from `start` to `stop` is empty unless it ascends.
  pub free_entry : MemoryEntry → BuddyAllocator → Outcome BuddyAllocator
  unfolding Frame.starts_with Usize.checked_add
  free_entry entry a = do
    base ← unwrap (PAddr.new arch entry.base)
    start ← Frame.starts_with size_4kib base
    last ← unwrap (Usize.checked_add entry.base entry.length)
    limit ← unwrap (PAddr.new arch last)
    stop ← Frame.starts_with size_4kib limit
    Buddy.free_range arch ((stop - start) / size size_4kib) start a

  -- Only usable entries are freed.
  pub add_entry : MemoryEntry → MemoryType → BuddyAllocator → Outcome BuddyAllocator
  add_entry entry usable a = free_entry entry a
  add_entry entry other a = done a

  pub add_entries : List MemoryEntry → BuddyAllocator → Outcome BuddyAllocator
  add_entries [] a = done a
  add_entries (entry ∷ memory_map) a = do
    a' ← add_entry entry entry.typ a
    add_entries memory_map a'

  pub new : List MemoryEntry → Outcome BuddyAllocator
  new memory_map = add_entries memory_map Buddy.new

  -- `Pmm::alloc`, and `Pmm::free`: `expect` panics where the allocator has no block.
  unfoldable pub alloc : ℕ → BuddyAllocator → Outcome (ℕ × BuddyAllocator)
  alloc count a = do
    result ← Buddy.alloc arch count a
    address ← unwrap (result.0)
    done (address, result.1)

  unfoldable pub free : ℕ → ℕ → BuddyAllocator → Outcome BuddyAllocator
  free base count a = Buddy.free arch base count a

  -- `FrameAllocator::allocate_n`: the range of frames from a first to a last address.
  unfoldable pub allocate_n : FrameSize → ℕ → BuddyAllocator → Outcome ((ℕ × ℕ) × BuddyAllocator)
  allocate_n s n a = do
    bytes ← unwrap (Frame.checked_mul n (size s))
    (address, a') ← alloc (bytes / size size_4kib) a
    start ← Frame.starts_with s address
    stop ← Frame.add arch s start n
    done ((start, stop), a')

  unfoldable pub free_n : FrameSize → ℕ → ℕ → BuddyAllocator → Outcome BuddyAllocator
  free_n s start num_frames a = do
    bytes ← unwrap (Frame.checked_mul num_frames (size s))
    free start (bytes / size size_4kib) a
