-- ===== src/Kernel/Buddy/Range.antt =====
-- `new`, `free_range`, and memory that goes out and comes back.
use poplar.Prelude.{
  ℕ, zero, suc, ◌+◌, ◌*◌, ◌≤◌, ◌≡◌, refl, List, [], some, arith, get_elem?, replicate, done,
}
use poplar.Prelude.BTreeSet.{contains, total}
use poplar.Hal.Arch.{Arch, physical_limit}
use poplar.Kernel.Buddy.{BuddyAllocator, num_bins, base_size, new, free_range}
use poplar.Kernel.Buddy.Address.{IsBlock, inside, frame-IsBlock, block_size-zero}
use poplar.Kernel.Buddy.Cover.{cover, cover_weight, sum_blocks, sum_from}
use poplar.Kernel.Buddy.Invariant.{IsValid, IsBin}
use poplar.Kernel.Buddy.Free.{IsUnused, Freed, cover-IsAdditive, free_block-Frees}

-- `a'` holds what `a` holds and the `size` bytes from `start`.
pub record HoldsMore (arch : Arch) (start size : ℕ) (a a' : BuddyAllocator) : Type 0 where
  pub valid : IsValid arch a'
  pub covers : (x : ℕ) → cover a' x ≡ cover a x + inside start size x

-- The frames that a range of `n` starts with: their addresses are frames, in physical memory.
pub record IsRange (arch : Arch) (start n : ℕ) : Type 0 where
  pub aligned : (k : ℕ) × (start ≡ k * base_size)
  pub in_memory : start + n * base_size ≤ physical_limit arch

module _ (arch : Arch) (n start : ℕ) (range : IsRange arch start (suc n)) where
  first_frame : IsBlock arch 0 start
  first_frame = frame-IsBlock arch range.aligned.0 start range.aligned.1 (omega arith)

  other_frames : IsRange arch (start + base_size) n
  other_frames = record {
    aligned = (suc range.aligned.0, omega (arith, range.aligned.1));
    in_memory = omega arith;
  }

module _ (arch : Arch) (start : ℕ) (a a' : BuddyAllocator) (f : Freed arch 0 start a a')
    (x : ℕ) where
  cover_frame : cover a' x ≡ cover a x + inside start base_size x
  unfolding cover
  cover_frame = rw (← block_size-zero) (f.sums (cover_weight x) (cover-IsAdditive x))

  cover_others :
      (n : ℕ)
      → (inside start (suc n * base_size) x ≡ 1 → cover a x ≡ 0)
      → inside (start + base_size) (n * base_size) x ≡ 1
      → cover a' x ≡ 0
  cover_others n unused inner = ground (arith, cover_frame)

inside_range :
    (start n x : ℕ)
    → inside start (suc n * base_size) x
      ≡ inside start base_size x + inside (start + base_size) (n * base_size) x
inside_range start n x = ground arith

-- Freeing a range of frames of physical memory, none of which is free, succeeds and adds exactly
-- its bytes to what is free.
pub free_range-HoldsMore :
    (arch : Arch) (n start : ℕ) (a : BuddyAllocator)
    → IsValid arch a
    → IsRange arch start n
    → ((x : ℕ) → inside start (n * base_size) x ≡ 1 → cover a x ≡ 0)
    → (a' : BuddyAllocator) × (free_range arch n start a ≡ done a')
      × HoldsMore arch start (n * base_size) a a'
unfolding free_range
free_range-HoldsMore arch zero start a v range unused =
    (a, refl, record { valid = v; covers = λ x. ground arith })
free_range-HoldsMore arch (suc n) start a v range unused =
    let first : IsUnused 0 start a = rw block_size-zero (λ x inner. unused x (ground arith)) in
    let (a', r, f) =
      free_block-Frees arch 0 start a (omega arith) v (first_frame arch n start range) first in
    let (a'', r', m) =
      free_range-HoldsMore arch n (start + base_size) a' f.valid (other_frames arch n start range)
        (λ x. cover_others arch start a a' f x n (unused x)) in
    (
      a'',
      rw r r',
      record {
        valid = m.valid;
        covers =
            λ x. omega (arith, m.covers x, cover_frame arch start a a' f x, inside_range start n x);
      },
    )

-- `new` is valid and empty.
replicate-empty : (n i : ℕ) (s : List ℕ) → get_elem? (replicate n []) i ≡ some s → s ≡ []
replicate-empty zero i s h = absurd (cc)
replicate-empty (suc n) zero s h = cc
replicate-empty (suc n) (suc i) s h = replicate-empty n i s h

empty-IsBin : (arch : Arch) (order : ℕ) → IsBin arch order []
unfolding contains
empty-IsBin arch order = record {
  sorted = tt;
  blocks = λ b e. absurd (cc);
  merged = λ b buddy lt e p. refl;
}

pub new-HoldsNothing : (arch : Arch) → IsValid arch new × ((x : ℕ) → cover new x ≡ 0)
unfolding new cover total sum_blocks sum_from
new-HoldsNothing arch = (
  record {
    num = refl;
    bins = λ i s h. rw (replicate-empty num_bins i s h) (empty-IsBin arch i);
    once = λ x. omega arith;
  },
  λ x. refl,
)
