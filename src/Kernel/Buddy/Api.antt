-- ===== src/Kernel/Buddy/Api.antt =====
-- The public operations `alloc`, `free`, `free_range` and `available_bytes`.
use mathlib.Core.Path.{subst₂}
use poplar.Prelude.{
  ℕ, suc, ◌+◌, ◌*◌, ◌^◌, ◌≤◌, ◌<◌, ◌≡◌, refl, ◌⊎◌, inl, inr, List, [], ◌∷◌, some, arith, length,
  done,
}
use poplar.Prelude.BTreeSet.{total}
use poplar.Hal.Arch.{Arch}
use poplar.Hal.Usize.{is_power_of_two_pow}
use poplar.Kernel.Buddy.{
  BuddyAllocator, max_order, base_size, alloc, free, available_bytes, bytes_from, block_size,
}
use poplar.Kernel.Buddy.Order.{IsRounded, next_power_of_two-IsRounded, trailing_zeros-pow}
use poplar.Kernel.Buddy.Address.{IsBlock, IsAdditive, inside, block_size-suc}
use poplar.Kernel.Buddy.Cover.{cover, cover_weight, sum_blocks, sum_from}
use poplar.Kernel.Buddy.Invariant.{IsValid}
use poplar.Kernel.Buddy.Free.{IsUnused, Frees, cover-IsAdditive, free_block-Frees}
use poplar.Kernel.Buddy.Alloc.{Allocates, Allocated, allocate_block-Allocates}

-- `alloc` for a number of frames hands out a block of the least order that holds them, or fails
-- with the allocator unchanged, where every bin from that order on is empty.
pub alloc-Allocates :
    (arch : Arch) (count : ℕ) (a : BuddyAllocator)
    → count ≤ 2 ^ 63
    → IsValid arch a
    → (order : ℕ) × IsRounded count order × Allocates arch order a (alloc arch count a)
unfolding alloc
alloc-Allocates arch count a h v =
    let (order, e, rounded) = next_power_of_two-IsRounded count h in
    (
      order,
      rounded,
      rw (e, trailing_zeros-pow order rounded.1) (allocate_block-Allocates arch order a v),
    )

pub free-Frees :
    (arch : Arch) (order base : ℕ) (a : BuddyAllocator)
    → order ≤ max_order
    → IsValid arch a
    → IsBlock arch order base
    → IsUnused order base a
    → Frees arch order base a (free arch base (2 ^ order) a)
unfolding free
free-Frees arch order base a h v block unused =
    rw (is_power_of_two_pow order, trailing_zeros-pow order (omega arith))
      (free_block-Frees arch order base a h v block unused)

-- What a successful `alloc` returned.
pub alloc_inversion :
    (arch : Arch) (count b : ℕ) (a a' : BuddyAllocator)
    → count ≤ 2 ^ 63
    → IsValid arch a
    → alloc arch count a ≡ done (some b, a')
    → (order : ℕ) × IsRounded count order × Allocated arch order b a a'
alloc_inversion arch count b a a' h v e =
    let (order, rounded, result) = alloc-Allocates arch count a h v in
    (order, rounded, invert order result)
  where
    invert : (order : ℕ) → Allocates arch order a (alloc arch count a) → Allocated arch order b a a'
    invert order (inl (t, _)) = absurd (cc)
    invert order (inr (c, a'', t, al)) =
        subst₂ (λ block rest. Allocated arch order block a rest) (cc) (cc) al

-- The bytes of `count` frames fit the block.
count_inside :
    (order b count x : ℕ)
    → count ≤ 2 ^ order
    → b ≤ x
    → x < b + count * base_size
    → inside b (block_size order) x ≡ 1
unfolding block_size
count_inside order b count x h p q = ground arith

-- No address belongs to two allocations: the frames of a second `alloc` lie outside those that a
-- first one returned.
pub alloc_disjoint :
    (arch : Arch) (count count' b b' x : ℕ) (a a' a'' : BuddyAllocator)
    → count ≤ 2 ^ 63
    → count' ≤ 2 ^ 63
    → IsValid arch a
    → alloc arch count a ≡ done (some b, a')
    → alloc arch count' a' ≡ done (some b', a'')
    → b ≤ x
    → x < b + count * base_size
    → ¬ ((b' ≤ x) × (x < b' + count' * base_size))
unfolding cover
alloc_disjoint arch count count' b b' x a a' a'' h h' v e e' p q (p', q') =
    let (order, rounded, al) = alloc_inversion arch count b a a' h v e in
    let (order', rounded', al') = alloc_inversion arch count' b' a' a'' h' al.valid e' in
    omega (
      arith,
      al.sums (cover_weight x) (cover-IsAdditive x),
      al'.sums (cover_weight x) (cover-IsAdditive x),
      v.once x,
      count_inside order b count x rounded.0 p q,
      count_inside order' b' count' x rounded'.0 p' q',
    )

bytes_weight : ℕ → ℕ → ℕ
bytes_weight order b = block_size order

bytes_weight-IsAdditive : IsAdditive bytes_weight
unfolding bytes_weight
bytes_weight-IsAdditive order low = omega (arith, block_size-suc order)

total-const : (c : ℕ) (s : List ℕ) → total (λ _. c) s ≡ length s * c
unfolding total
total-const c [] = omega arith
total-const c (y ∷ s) = omega (arith, total-const c s)

bytes_from-sum : (i : ℕ) (bins : List (List ℕ)) → bytes_from i bins ≡ sum_from bytes_weight i bins
unfolding bytes_from sum_from bytes_weight
bytes_from-sum i [] = refl
bytes_from-sum i (s ∷ bins) =
    omega (arith, total-const (block_size i) s, bytes_from-sum (suc i) bins)

available_bytes-sum : (a : BuddyAllocator) → available_bytes a ≡ sum_blocks bytes_weight a
unfolding available_bytes sum_blocks
available_bytes-sum a = bytes_from-sum 0 a.bins

size_least :
    (order count : ℕ)
    → (order ≡ 0) ⊎ (2 ^ order < 2 * count)
    → (block_size order ≡ base_size) ⊎ (block_size order < 2 * (count * base_size))
unfolding block_size
size_least order count (inl e) = inl (rw e refl)
size_least order count (inr h) = inr (omega arith)

-- `available_bytes` falls by the size of the block that `alloc` returns: at least the bytes asked
-- for, and less than twice as many unless the block is a single frame.
pub available_bytes-alloc :
    (arch : Arch) (count b : ℕ) (a a' : BuddyAllocator)
    → count ≤ 2 ^ 63
    → IsValid arch a
    → alloc arch count a ≡ done (some b, a')
    → (size : ℕ) × (available_bytes a' + size ≡ available_bytes a)
      × (count * base_size ≤ size)
      × ((size ≡ base_size) ⊎ (size < 2 * (count * base_size)))
unfolding bytes_weight block_size
available_bytes-alloc arch count b a a' h v e =
    let (order, rounded, al) = alloc_inversion arch count b a a' h v e in
    (
      block_size order,
      omega (
        arith,
        al.sums bytes_weight bytes_weight-IsAdditive,
        available_bytes-sum a,
        available_bytes-sum a',
      ),
      omega (arith, rounded.0),
      size_least order count rounded.2,
    )
