-- ===== src/Kernel/Buddy/Examples.antt =====
-- An allocator stocked with sixteen frames, and runs of the operations.
use poplar.Prelude.{
  ℕ, ◌≤◌, ◌<◌, ◌≡◌, refl, ◌⊎◌, [], ◌∷◌, some, arith, set, replicate, done, subst, ◌^◌, ◌+◌, ◌*◌,
  sym, ◌∙◌,
}
use poplar.Prelude.BTreeSet
use poplar.Hal.Arch.{x86_64}
use poplar.Hal.PAddr
use poplar.Hal.Usize.{is_power_of_two}
use poplar.Kernel.Buddy.{
  BuddyAllocator, new, alloc, free, free_range, available_bytes, num_bins, base_size, block_size,
  buddy_of, put_block, free_block, free_block_loop, allocate_block, allocate_block_loop,
  split_block,
}
use poplar.Kernel.Buddy.Address.{IsBlock, block_at}
use poplar.Kernel.Buddy.Cover.{cover}
use poplar.Kernel.Buddy.Order.{IsRounded, next_power_of_two, power_from, trailing_zeros, zeros_from}
use poplar.Kernel.Buddy.Invariant.{IsValid}
use poplar.Kernel.Buddy.Free.{IsUnused}
use poplar.Kernel.Buddy.Alloc.{Allocates}
use poplar.Kernel.Buddy.Api.{alloc-Allocates, free-Frees, alloc_disjoint, available_bytes-alloc}
use poplar.Kernel.Buddy.Range.{HoldsMore, free_range-HoldsMore, new-HoldsNothing}
use poplar.Kernel.Buddy.RoundTrip.{free-alloc}

-- The bins with one block of order 4, at 64 KiB.
abbrev stocked : BuddyAllocator
stocked = record { bins = set (replicate num_bins []) 4 (65536 ∷ []) }

-- After three frames have been allocated: the other four and the other eight.
abbrev after_first : BuddyAllocator
after_first = record { bins = set (set (replicate num_bins []) 2 (81920 ∷ [])) 3 (98304 ∷ []) }

abbrev after_second : BuddyAllocator
after_second = record { bins = set (replicate num_bins []) 3 (98304 ∷ []) }

free_sixteen : free x86_64 65536 (2 ^ 4) new ≡ done stocked
unfolding free is_power_of_two new free_block free_block_loop put_block buddy_of block_size
    trailing_zeros zeros_from PAddr.new BTreeSet.insert BTreeSet.contains BTreeSet.remove
free_sixteen = refl

alloc_three : alloc x86_64 3 stocked ≡ done (some 65536, after_first)
unfolding alloc next_power_of_two power_from trailing_zeros zeros_from allocate_block
    allocate_block_loop split_block free_block free_block_loop put_block buddy_of block_size
    PAddr.new BTreeSet.insert BTreeSet.contains BTreeSet.remove BTreeSet.first
alloc_three = refl

alloc_four : alloc x86_64 4 after_first ≡ done (some 81920, after_second)
unfolding alloc next_power_of_two power_from trailing_zeros zeros_from allocate_block
    allocate_block_loop split_block free_block free_block_loop put_block buddy_of block_size
    PAddr.new BTreeSet.insert BTreeSet.contains BTreeSet.remove BTreeSet.first
alloc_four = refl

alloc_again : alloc x86_64 (2 ^ 2) stocked ≡ done (some 65536, after_first)
unfolding alloc next_power_of_two power_from trailing_zeros zeros_from allocate_block
    allocate_block_loop split_block free_block free_block_loop put_block buddy_of block_size
    PAddr.new BTreeSet.insert BTreeSet.contains BTreeSet.remove BTreeSet.first
alloc_again = refl

new-IsValid : IsValid x86_64 new
new-IsValid = (new-HoldsNothing x86_64).0

new-IsUnused : (order start : ℕ) → IsUnused order start new
new-IsUnused order start x inner = (new-HoldsNothing x86_64).1 x

sixteen-IsBlock : IsBlock x86_64 4 65536
unfolding block_size
sixteen-IsBlock = block_at x86_64 4 65536 (1, refl) (omega arith)

stocked-IsValid : IsValid x86_64 stocked
stocked-IsValid =
    let (a', r, f) =
      free-Frees x86_64 4 65536 new (omega arith) new-IsValid sixteen-IsBlock
        (new-IsUnused 4 65536) in
    let same : done a' ≡ done stocked = sym r ∙ free_sixteen in
    let stock : a' ≡ stocked = cc in subst (IsValid x86_64) stock f.valid

alloc-Allocates_example :
    (order : ℕ) × IsRounded 3 order × Allocates x86_64 order stocked (alloc x86_64 3 stocked)
alloc-Allocates_example = alloc-Allocates x86_64 3 stocked (omega arith) stocked-IsValid

alloc_disjoint_example : ¬ ((81920 ≤ 65536) × (65536 < 81920 + 4 * base_size))
alloc_disjoint_example =
    alloc_disjoint x86_64 3 4 65536 81920 65536 stocked after_first after_second (omega arith)
      (omega arith) stocked-IsValid alloc_three alloc_four (omega arith) (omega arith)

available_bytes-alloc_example :
    (size : ℕ) × (available_bytes after_first + size ≡ available_bytes stocked)
    × (3 * base_size ≤ size)
    × ((size ≡ base_size) ⊎ (size < 2 * (3 * base_size)))
available_bytes-alloc_example =
    available_bytes-alloc x86_64 3 65536 stocked after_first (omega arith) stocked-IsValid
      alloc_three

free-alloc_example :
    (a'' : BuddyAllocator) × (free x86_64 65536 (2 ^ 2) after_first ≡ done a'')
    × IsValid x86_64 a''
    × ((x : ℕ) → cover a'' x ≡ cover stocked x)
free-alloc_example =
    free-alloc x86_64 2 65536 stocked after_first (omega arith) stocked-IsValid alloc_again

free_range-HoldsMore_example :
    (a' : BuddyAllocator) × (free_range x86_64 5 65536 new ≡ done a')
    × HoldsMore x86_64 65536 (5 * base_size) new a'
free_range-HoldsMore_example =
    free_range-HoldsMore x86_64 5 65536 new new-IsValid
      (record { aligned = (16, refl); in_memory = omega arith })
      (λ x inner. (new-HoldsNothing x86_64).1 x)
