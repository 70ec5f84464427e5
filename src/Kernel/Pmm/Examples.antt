-- ===== src/Kernel/Pmm/Examples.antt =====
-- A memory map, and the physical memory manager that it makes.
use poplar.Prelude.{ℕ, ◌≤◌, ◌≡◌, refl, List, [], ◌∷◌, done, arith}
use poplar.Hal.Arch.{x86_64}
use poplar.Kernel.Buddy.{BuddyAllocator}
use poplar.Kernel.Buddy.Cover.{cover}
use poplar.Kernel.Buddy.Invariant.{IsValid}
use poplar.Kernel.Pmm.{MemoryEntry, usable, reserved, new}
use poplar.Kernel.Pmm.Boot.{AreWhole, usable_at, new-Covers}

-- Five usable frames, and a reserved entry that is not made of frames.
abbrev memory_map : List MemoryEntry
memory_map =
    record { base = 65536; length = 20480; typ = usable }
    ∷ record { base = 100; length = 7; typ = reserved }
    ∷ []

memory_map-AreWhole : AreWhole x86_64 memory_map
memory_map-AreWhole =
    (record { first = (16, refl); frames = (5, refl); ends = omega arith }, (tt, tt))

memory_map_once : (x : ℕ) → usable_at memory_map x ≤ 1
unfolding usable_at
memory_map_once x = ground arith

new-Covers_example :
    (a : BuddyAllocator) × (new x86_64 memory_map ≡ done a)
    × IsValid x86_64 a
    × ((x : ℕ) → cover a x ≡ usable_at memory_map x)
new-Covers_example = new-Covers x86_64 memory_map memory_map-AreWhole memory_map_once
