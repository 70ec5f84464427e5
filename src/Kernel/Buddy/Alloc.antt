-- ===== src/Kernel/Buddy/Alloc.antt =====
-- `allocate_block`: it hands out a block that was free, or leaves the allocator as it was where no
-- block is large enough.
use native.Mathlib.Decide.{dec_lt, ℕ_discrete}
use poplar.Prelude.{
  ℕ, zero, suc, ◌+◌, ◌≤◌, ◌<◌, ◌≡◌, refl, ◌⊎◌, inl, inr, List, [], some, none, Option, arith,
  get_elem?, Outcome, done, Option-cases, get_elem?_lt, ◌>>=◌,
}
use poplar.Prelude.BTreeSet
use poplar.Prelude.BTreeSet.{contains, first, remove}
use poplar.Hal.Arch.{Arch}
use poplar.Kernel.Buddy.{
  BuddyAllocator, num_bins, max_order, set_bin, allocate_block, allocate_block_loop, split_block,
  block_size,
}
use poplar.Kernel.Buddy.Address.{IsBlock, IsAdditive, IsBlock-IsSplit, block_size-suc}
use poplar.Kernel.Buddy.Cover.{cover, cover_weight, sum_blocks, sum_blocks-remove}
use poplar.Kernel.Buddy.Invariant.{IsValid}
use poplar.Kernel.Buddy.Free.{IsUnused, cover-IsAdditive, remove-IsValid, free_block-Frees}

-- The block `b` was part of what `a` holds, and `a'` holds the rest.
pub record Allocated (arch : Arch) (order b : ℕ) (a a' : BuddyAllocator) : Type 0 where
  pub fits : order ≤ max_order
  pub valid : IsValid arch a'
  pub block : IsBlock arch order b
  pub sums : (w : ℕ → ℕ → ℕ) → IsAdditive w → sum_blocks w a' + w order b ≡ sum_blocks w a

-- Every bin from that of `order` on is empty.
abbrev pub IsExhausted : ℕ → BuddyAllocator → Type 0
IsExhausted order a = (i : ℕ) → order ≤ i → i < num_bins → get_elem? a.bins i ≡ some []

abbrev pub Allocates : Arch → ℕ → BuddyAllocator → Outcome (Option ℕ × BuddyAllocator) → Type 0
Allocates arch order a r =
    ((r ≡ done (none, a)) × IsExhausted order a)
    ⊎ ((b : ℕ) × (a' : BuddyAllocator) × (r ≡ done (some b, a')) × Allocated arch order b a a')

-- None of an allocated block's addresses is still free.
pub Allocated-IsUnused :
    (arch : Arch) (order b : ℕ) (a a' : BuddyAllocator)
    → IsValid arch a
    → Allocated arch order b a a'
    → IsUnused order b a'
unfolding cover
Allocated-IsUnused arch order b a a' v al x inner =
    omega (arith, al.sums (cover_weight x) (cover-IsAdditive x), v.once x)

-- A block of the order above is split: its second half goes back, its first half is handed out.
split_block-Allocated :
    (arch : Arch) (order b : ℕ) (a a' : BuddyAllocator)
    → IsValid arch a
    → Allocated arch (order + 1) b a a'
    → (a'' : BuddyAllocator) × (split_block arch order (some b, a') ≡ done (some b, a''))
      × Allocated arch order b a a''
unfolding split_block
split_block-Allocated arch order b a a' v al =
    let s = IsBlock-IsSplit arch order b (omega (arith, al.fits)) al.block in
    let half = b + block_size order in
    let whole = Allocated-IsUnused arch (order + 1) b a a' v al in
    let unused : IsUnused order half a' =
      λ x inner. whole x (ground (arith, inner, block_size-suc order)) in
    let (a'', r, f) = free_block-Frees arch order half a' (omega arith) al.valid s.second unused in
    (
      a'',
      rw (s.buddy_first, r),
      record {
        fits = omega arith;
        valid = f.valid;
        block = s.first;
        sums = λ w add. omega (arith, f.sums w add, al.sums w add, add order b);
      },
    )

-- The bin's least block is taken.
take_first-Allocated :
    (arch : Arch) (order b : ℕ) (a : BuddyAllocator) (s : List ℕ)
    → order ≤ max_order
    → IsValid arch a
    → get_elem? a.bins order ≡ some s
    → first s ≡ some b
    → Allocated arch order b a (set_bin a order (remove s b))
take_first-Allocated arch order b a s le v e h =
    let there = BTreeSet.contains-first s b h in
    record {
      fits = le;
      valid = remove-IsValid arch order b a v s e there;
      block = (v.bins order s e).blocks b there;
      sums = λ w add. sum_blocks-remove w a order b s e there;
    }

-- The ways that one call goes.
module _ (arch : Arch) (fuel order : ℕ) (a : BuddyAllocator) where
  alloc_beyond : max_order < order → allocate_block_loop arch (suc fuel) order a ≡ done (none, a)
  unfolding allocate_block_loop
  alloc_beyond h = ground arith

  alloc_first :
      (b : ℕ) (s : List ℕ)
      → order ≤ max_order
      → get_elem? a.bins order ≡ some s
      → first s ≡ some b
      → allocate_block_loop arch (suc fuel) order a ≡ done (some b, set_bin a order (remove s b))
  unfolding allocate_block_loop
  alloc_first b s h e f = ground arith

  alloc_larger :
      (s : List ℕ)
      → order ≤ max_order
      → get_elem? a.bins order ≡ some s
      → first s ≡ none
      → allocate_block_loop arch (suc fuel) order a
        ≡ (allocate_block_loop arch fuel (order + 1) a >>= split_block arch order)
  unfolding allocate_block_loop
  alloc_larger s h e f = ground arith

-- Where this bin is empty, the call is decided by the level above.
larger-Allocates :
    (arch : Arch) (order : ℕ) (a : BuddyAllocator) (r : Outcome (Option ℕ × BuddyAllocator))
    → order ≤ max_order
    → IsValid arch a
    → get_elem? a.bins order ≡ some []
    → Allocates arch (order + 1) a r
    → Allocates arch order a (r >>= split_block arch order)
unfolding split_block
larger-Allocates arch order a r h v e (inl (t, none_above)) = inl (
  rw t,
  λ i le lt. elim (ℕ_discrete order i) [
    | yes same ↦ rw (← same) e
    | no other ↦ none_above i (omega arith) lt
  ],
)
larger-Allocates arch order a r h v e (inr (b, a', t, al)) =
    let (a'', u, al') = split_block-Allocated arch order b a a' v al in inr (b, a'', rw t u, al')

allocate_block_loop-Allocates :
    (arch : Arch) (fuel order : ℕ) (a : BuddyAllocator)
    → order ≤ num_bins
    → num_bins < fuel + order
    → IsValid arch a
    → Allocates arch order a (allocate_block_loop arch fuel order a)
allocate_block_loop-Allocates arch zero order a h enough v = absurd (omega arith)
allocate_block_loop-Allocates arch (suc fuel) order a h enough v = elim (dec_lt max_order order) [
  | yes beyond ↦
      rw (alloc_beyond arch fuel order a beyond) (inl (refl, λ i le lt. absurd (omega arith)))
  | no in_range ↦
      let (s, e) = get_elem?_lt a.bins order (omega (arith, v.num)) in
      level s e (Option-cases (first s))
        (λ le. allocate_block_loop-Allocates arch fuel (order + 1) a le (omega arith) v)
        (omega arith)
]
  where
    level :
        (s : List ℕ)
        → get_elem? a.bins order ≡ some s
        → (first s ≡ none) ⊎ ((b : ℕ) × (first s ≡ some b))
        → (order + 1 ≤ num_bins
            → Allocates arch (order + 1) a (allocate_block_loop arch fuel (order + 1) a))
        → order ≤ max_order
        → Allocates arch order a (allocate_block_loop arch (suc fuel) order a)
    level s e (inl f) above le = rw (alloc_larger arch fuel order a s le e f) (
        larger-Allocates arch order a _ le v (rw (← BTreeSet.first-none s f) e)
          (above (omega arith)))
    level s e (inr (b, f)) above le = inr (
      b,
      _,
      alloc_first arch fuel order a b s le e f,
      take_first-Allocated arch order b a s le v e f,
    )

-- From a valid allocator, a call for a block of any order either fails, with the allocator
-- unchanged and every bin from that order on empty, or returns a block of that order: it was free,
-- and what remains is a valid allocator that holds the rest.
pub allocate_block-Allocates :
    (arch : Arch) (order : ℕ) (a : BuddyAllocator)
    → IsValid arch a
    → Allocates arch order a (allocate_block arch order a)
unfolding allocate_block
allocate_block-Allocates arch order a v = elim (dec_lt max_order order) [
  | yes beyond ↦
      rw (alloc_beyond arch num_bins order a beyond) (inl (refl, λ i le lt. absurd (omega arith)))
  | no in_range ↦
      allocate_block_loop-Allocates arch (num_bins + 1) order a (omega arith) (omega arith) v
]
