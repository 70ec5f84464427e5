-- ===== src/Kernel/Pmm/Boot.antt =====
-- `Pmm::new`: from the boot loader's memory map the usable memory becomes free, and nothing else.
use poplar.Prelude.{
  ℕ, ◌+◌, ◌-◌, ◌*◌, ◌/◌, ◌%◌, ◌^◌, ◌≤◌, ◌<◌, ◌≡◌, refl, List, [], ◌∷◌, arith, done, sym, ◌∙◌, ap,
  some, true, ltb, ◌==◌,
}
use poplar.Hal.Arch.{Arch, physical_limit, x86_64, riscv64_sv48, riscv64_sv39}
use poplar.Hal.PAddr
use poplar.Hal.PAddr.Laws.{new_in_range}
use poplar.Hal.Frame.{size}
use poplar.Kernel.Buddy
use poplar.Kernel.Buddy.{BuddyAllocator, base_size}
use poplar.Kernel.Buddy.Address.{inside}
use poplar.Kernel.Buddy.Cover.{cover}
use poplar.Kernel.Buddy.Invariant.{IsValid}
use poplar.Kernel.Buddy.Range.{IsRange, free_range-HoldsMore, new-HoldsNothing}
use poplar.Kernel.Pmm.{MemoryType, MemoryEntry, usable, free_entry, add_entry, add_entries, new}

-- How often usable entries of the map hold an address.
abbrev pub usable_of : MemoryType → MemoryEntry → ℕ → ℕ
usable_of usable entry x = inside entry.base entry.length x
usable_of other entry x = 0

unfoldable pub usable_at : List MemoryEntry → ℕ → ℕ
usable_at [] x = 0
usable_at (entry ∷ memory_map) x = usable_of entry.typ entry x + usable_at memory_map x

-- What `Pmm::new` needs of a usable entry: whole frames, below the end of physical memory.
pub record IsWhole (arch : Arch) (entry : MemoryEntry) : Type 0 where
  pub first : (k : ℕ) × (entry.base ≡ k * base_size)
  pub frames : (n : ℕ) × (entry.length ≡ n * base_size)
  pub ends : entry.base + entry.length < physical_limit arch

abbrev pub IsWholeIfUsable : Arch → MemoryType → MemoryEntry → Type 0
IsWholeIfUsable arch usable entry = IsWhole arch entry
IsWholeIfUsable arch other entry = Unit {0}

abbrev pub AreWhole : Arch → List MemoryEntry → Type 0
AreWhole arch [] = Unit {0}
AreWhole arch (entry ∷ memory_map) = IsWholeIfUsable arch entry.typ entry × AreWhole arch memory_map

limit-le : (arch : Arch) → physical_limit arch ≤ 2 ^ 64
limit-le x86_64 = omega arith
limit-le riscv64_sv48 = omega arith
limit-le riscv64_sv39 = omega arith

-- The checks that a usable entry goes through all pass.
free_entry-eq-free_range :
    (arch : Arch) (entry : MemoryEntry) (a : BuddyAllocator)
    → (w : IsWhole arch entry)
    → free_entry arch entry a ≡ Buddy.free_range arch w.frames.0 entry.base a
unfolding free_entry size
free_entry-eq-free_range arch entry a w =
    let base : PAddr.new arch entry.base ≡ some entry.base =
      new_in_range arch entry.base (omega (arith, w.ends)) in
    let last : PAddr.new arch (entry.base + entry.length) ≡ some (entry.base + entry.length) =
      new_in_range arch _ w.ends in
    let first : (entry.base % 4096 == 0) ≡ true = ground (arith, w.first.1) in
    let fits : ltb (entry.base + entry.length) (2 ^ 64) ≡ true =
      ground (arith, limit-le arch, w.ends) in
    let end : ((entry.base + entry.length) % 4096 == 0) ≡ true =
      ground (arith, w.first.1, w.frames.1) in
    let count : (entry.base + entry.length - entry.base) / 4096 ≡ w.frames.0 =
      omega (arith, w.frames.1) in
    rw base (rw first (rw fits (rw last (rw end (rw count)))))

-- One entry of the map, with those after it still to come.
add_entry-HoldsMore :
    (arch : Arch) (entry : MemoryEntry) (typ : MemoryType) (a : BuddyAllocator)
    → IsValid arch a
    → IsWholeIfUsable arch typ entry
    → ((x : ℕ) → cover a x + usable_of typ entry x ≤ 1)
    → (a' : BuddyAllocator) × (add_entry arch entry typ a ≡ done a')
      × IsValid arch a'
      × ((x : ℕ) → cover a' x ≡ cover a x + usable_of typ entry x)
unfolding add_entry
add_entry-HoldsMore arch entry usable a v w once =
    let (first, e) = w.first in
    let (n, len) = w.frames in
    let range : IsRange arch entry.base n = record {
      aligned = w.first;
      in_memory = omega (arith, w.ends, len);
    } in
    let unused : (x : ℕ) → inside entry.base (n * base_size) x ≡ 1 → cover a x ≡ 0 =
      λ x inner. ground (arith, once x, inner, len) in
    let (a', r, m) = free_range-HoldsMore arch n entry.base a v range unused in
    (
      a',
      free_entry-eq-free_range arch entry a w ∙ r,
      m.valid,
      λ x. m.covers x ∙ ap (λ size. cover a x + inside entry.base size x) (sym len),
    )
add_entry-HoldsMore arch entry other a v w once = (a, refl, v, λ x. omega arith)

add_entries-Covers :
    (arch : Arch) (memory_map : List MemoryEntry) (a : BuddyAllocator)
    → IsValid arch a
    → AreWhole arch memory_map
    → ((x : ℕ) → cover a x + usable_at memory_map x ≤ 1)
    → (a' : BuddyAllocator) × (add_entries arch memory_map a ≡ done a')
      × IsValid arch a'
      × ((x : ℕ) → cover a' x ≡ cover a x + usable_at memory_map x)
unfolding add_entries usable_at
add_entries-Covers arch [] a v w once = (a, refl, v, λ x. omega arith)
add_entries-Covers arch (entry ∷ memory_map) a v w once =
    let (a', r, v', c) =
      add_entry-HoldsMore arch entry entry.typ a v w.0 (λ x. omega (arith, once x)) in
    let (a'', r', v'', c') =
      add_entries-Covers arch memory_map a' v' w.1 (λ x. omega (arith, once x, c x)) in
    (a'', rw r r', v'', λ x. omega (arith, c x, c' x))

-- From a memory map whose usable entries are whole frames below the end of physical memory and do
-- not overlap, `Pmm::new` succeeds: the allocator is valid, and an address is free exactly as often
-- as usable entries hold it.
pub new-Covers :
    (arch : Arch) (memory_map : List MemoryEntry)
    → AreWhole arch memory_map
    → ((x : ℕ) → usable_at memory_map x ≤ 1)
    → (a : BuddyAllocator) × (new arch memory_map ≡ done a)
      × IsValid arch a
      × ((x : ℕ) → cover a x ≡ usable_at memory_map x)
unfolding new
new-Covers arch memory_map w once =
    let (v, empty) = new-HoldsNothing arch in
    let (a, r, v', c) =
      add_entries-Covers arch memory_map Buddy.new v w (λ x. omega (arith, once x, empty x)) in
    (a, r, v', λ x. omega (arith, c x, empty x))
