-- ===== src/Kernel/Buddy.antt =====
-- kernel/src/pmm/buddy.rs: the buddy allocator of physical memory.
pub mod Order
pub mod Address
pub mod Cover
pub mod Invariant
pub mod Free
pub mod Alloc
pub mod Api
pub mod Range
pub mod RoundTrip
mod Examples
use poplar.Prelude.{
  ℕ, zero, suc, ◌+◌, ◌*◌, ◌/◌, ◌-◌, ◌^◌, min, Bool, not, Option, none, some, List, [], ◌∷◌, ltb,
  leb, ◌==◌, if◌then◌else◌, Outcome, done, panic, ◌>>=◌, ◌>>◌, assert, unwrap, bit_xor, length,
  get_elem?, set, replicate,
}
use poplar.Prelude.BTreeSet
use poplar.Prelude.BTreeSet.{contains, first}
use poplar.Hal.Arch.{Arch}
use poplar.Hal.PAddr
use poplar.Hal.Usize.{is_power_of_two}
use Order.{next_power_of_two, trailing_zeros}

abbrev pub max_order : ℕ
max_order = 12

abbrev pub num_bins : ℕ
num_bins = max_order + 1

abbrev pub base_size : ℕ
base_size = 4096

-- Bin `i` holds the start addresses of the free blocks of order `i`.
pub record BuddyAllocator : Type 0 where
  pub bins : List (List ℕ)

unfoldable pub new : BuddyAllocator
new = record { bins = replicate num_bins [] }

-- `(1 << order) * BASE_SIZE`
unfoldable pub block_size : ℕ → ℕ
block_size order = 2 ^ order * base_size

unfoldable pub buddy_of : Arch → ℕ → ℕ → Outcome ℕ
unfolding block_size
buddy_of arch block_start order = unwrap (PAddr.new arch (bit_xor block_start (block_size order)))

-- `self.bins[order]`, which panics out of bounds.
abbrev pub bin : BuddyAllocator → ℕ → Outcome (List ℕ)
bin a order = unwrap (get_elem? a.bins order)

abbrev pub set_bin : BuddyAllocator → ℕ → List ℕ → BuddyAllocator
set_bin a order s = record { bins = set a.bins order s }

-- `assert!(!self.bins[order].contains(&start)); self.bins[order].insert(start);`
pub put_block : ℕ → ℕ → BuddyAllocator → Outcome BuddyAllocator
put_block start order a = do
  s ← bin a order
  assert (not (contains s start))
  done (set_bin a order (BTreeSet.insert s start))

module _ (arch : Arch) where
  -- `free_block`, which calls itself for the order above: `fuel` bounds the depth of the calls.
  pub free_block_loop : ℕ → ℕ → ℕ → BuddyAllocator → Outcome BuddyAllocator
  free_block_loop zero start order a = panic
  free_block_loop (suc fuel) start order a =
      if order == max_order then put_block start order a else do
        buddy ← buddy_of arch start order
        s ← bin a order
        let coalesced =
            free_block_loop fuel (min start buddy) (order + 1)
              (set_bin a order (BTreeSet.remove s buddy))
        if contains s buddy then coalesced else put_block start order a

  unfoldable pub free_block : ℕ → ℕ → BuddyAllocator → Outcome BuddyAllocator
  free_block start order a = free_block_loop num_bins start order a

  -- The larger block's second half goes back to the allocator.
  pub split_block : ℕ → Option ℕ × BuddyAllocator → Outcome (Option ℕ × BuddyAllocator)
  split_block order (none, a) = done (none, a)
  split_block order (some block, a) = do
    second_half ← buddy_of arch block order
    a' ← free_block second_half order a
    done (some block, a')

  -- `allocate_block`, which calls itself for the order above.
  pub allocate_block_loop : ℕ → ℕ → BuddyAllocator → Outcome (Option ℕ × BuddyAllocator)
  allocate_block_loop zero order a = panic
  allocate_block_loop (suc fuel) order a =
      let larger = allocate_block_loop fuel (order + 1) a in
      if ltb max_order order then done (none, a) else do
        s ← bin a order
        elim (first s) [
          | some block ↦ done (some block, set_bin a order (BTreeSet.remove s block))
          | none ↦ larger >>= split_block order
        ]

  unfoldable pub allocate_block : ℕ → BuddyAllocator → Outcome (Option ℕ × BuddyAllocator)
  allocate_block order a = allocate_block_loop (num_bins + 1) order a

  unfoldable pub alloc : ℕ → BuddyAllocator → Outcome (Option ℕ × BuddyAllocator)
  alloc count a = do rounded ← next_power_of_two count; allocate_block (trailing_zeros rounded) a

  unfoldable pub free : ℕ → ℕ → BuddyAllocator → Outcome BuddyAllocator
  free base count a = do assert (is_power_of_two count); free_block base (trailing_zeros count) a

  -- `free_range`: the frames of a `Range<Frame>`, as its first address and its number of frames.
  pub free_range : ℕ → ℕ → BuddyAllocator → Outcome BuddyAllocator
  free_range zero start a = done a
  free_range (suc n) start a = do a' ← free_block start 0 a; free_range n (start + base_size) a'

pub bytes_from : ℕ → List (List ℕ) → ℕ
unfolding block_size
bytes_from i [] = 0
bytes_from i (s ∷ bins) = length s * block_size i + bytes_from (suc i) bins

unfoldable pub available_bytes : BuddyAllocator → ℕ
available_bytes a = bytes_from 0 a.bins
