-- ===== src/Kernel/MemoryObject.antt =====
-- kernel/src/object/memory_object.rs: memory objects and the physical memory behind them. The lock is
-- held for one operation; the id that `alloc_kernel_object_id` gives is an argument.
pub mod Laws
use poplar.Prelude.{
  ℕ, ◌+◌, ◌-◌, ◌^◌, Bool, true, Option, none, some, List, [], ◌∷◌, ◌++◌, ltb, ◌==◌, if◌then◌else◌,
  Outcome, done, panic, ◌>>=◌, ◌>>◌, assert, unwrap,
}
use poplar.Hal.Arch.{Arch}
use poplar.Hal.PAddr
use poplar.Hal.Usize
use poplar.Hal.Flags.{Flags, default}

pub record Inner : Type 0 where
  pub size : ℕ
  pub flags : Flags
  pub backing : List (ℕ × ℕ)

pub record MemoryObject : Type 0 where
  pub id : ℕ
  pub owner : ℕ
  pub inner : Inner

unfoldable pub new : ℕ → ℕ → ℕ → ℕ → Flags → MemoryObject
new id owner physical_address size flags = record {
  id = id;
  owner = owner;
  inner = record { size = size; flags = flags; backing = (physical_address, size) ∷ [] };
}

-- `LoadedSegment` of seed/seed_bootinfo/src/lib.rs, its flags read by the crate
-- mycelium_bitfield.
pub record LoadedSegment : Type 0 where
  pub phys_addr : ℕ
  pub size : ℕ
  pub writable : Bool
  pub executable : Bool

unfoldable pub from_boot_info : Arch → ℕ → ℕ → LoadedSegment → Outcome MemoryObject
unfolding PAddr.new
from_boot_info arch id owner segment = do
  address ← unwrap (PAddr.new arch segment.phys_addr)
  done (record {
    id = id;
    owner = owner;
    inner = record {
      size = segment.size;
      flags = record default {
        writable = segment.writable;
        executable = segment.executable;
        user_accessible = true;
      };
      backing = (address, segment.size) ∷ [];
    };
  })

unfoldable pub extend : ℕ → ℕ → MemoryObject → Outcome MemoryObject
unfolding Usize.checked_add
extend extend_by new_backing object = do
  assert (ltb 0 extend_by)
  size ← unwrap (Usize.checked_add object.inner.size extend_by)
  done (record object {
    inner = record object.inner {
      size = size;
      backing = object.inner.backing ++ ((new_backing, extend_by) ∷ []);
    };
  })

unfoldable pub size : MemoryObject → ℕ
size object = object.inner.size

unfoldable pub flags : MemoryObject → Flags
flags object = object.inner.flags

-- `PartialEq`
unfoldable pub eq : MemoryObject → MemoryObject → Bool
eq a b = a.id == b.id
