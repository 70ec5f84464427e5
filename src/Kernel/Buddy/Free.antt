-- ===== src/Kernel/Buddy/Free.antt =====
-- `free_block`: the block becomes free and nothing else changes hands, however often it is merged.
use native.Mathlib.Decide.{dec_lt}
use poplar.Prelude.{
  ℕ, zero, suc, ◌+◌, ◌≤◌, ◌<◌, ◌≡◌, List, some, arith, get_elem?, true, false, Outcome, done, ◌==◌,
  Bool-cases, inl, inr, length-set, get_elem?_lt, min, sym, ◌∙◌,
}
use poplar.Prelude.BTreeSet.{contains, insert, remove}
use poplar.Hal.Arch.{Arch}
use poplar.Kernel.Buddy.{
  BuddyAllocator, num_bins, max_order, set_bin, buddy_of, put_block, free_block, free_block_loop,
  block_size,
}
use poplar.Kernel.Buddy.Address.{
  IsBlock, IsAdditive, IsMate, IsBlock-IsMate, inside, block_size_pos, block_size-suc,
  done-injective,
}
use poplar.Kernel.Buddy.Cover.{
  cover, cover_weight, sum_blocks, sum_blocks-insert, sum_blocks-remove,
}
use poplar.Kernel.Buddy.Invariant.{IsValid, set-IsBin, insert-IsBin, remove-IsBin}

-- None of the block's addresses is free.
abbrev pub IsUnused : ℕ → ℕ → BuddyAllocator → Type 0
IsUnused order start a = (x : ℕ) → inside start (block_size order) x ≡ 1 → cover a x ≡ 0

-- `a'` holds what `a` holds and the block.
pub record Freed (arch : Arch) (order start : ℕ) (a a' : BuddyAllocator) : Type 0 where
  pub valid : IsValid arch a'
  pub sums : (w : ℕ → ℕ → ℕ) → IsAdditive w → sum_blocks w a' ≡ sum_blocks w a + w order start

pub cover-IsAdditive : (x : ℕ) → IsAdditive (cover_weight x)
cover-IsAdditive x order low = ground (arith, block_size-suc order)

module _ (arch : Arch) (order start : ℕ) (a : BuddyAllocator) (v : IsValid arch a) where
  -- A free block has free addresses.
  not_contained :
      (s : List ℕ)
      → get_elem? a.bins order ≡ some s
      → IsUnused order start a
      → contains s start ≡ false
  unfolding cover
  not_contained s e unused = elim (Bool-cases (contains s start)) [
    | inr out ↦ out
    | inl there ↦ absurd (
        ground (
          arith,
          unused start,
          block_size_pos order,
          sum_blocks-remove (cover_weight start) a order start s e there,
        ))
  ]

  put_block-Freed :
      (s : List ℕ)
      → get_elem? a.bins order ≡ some s
      → IsBlock arch order start
      → IsUnused order start a
      → ((buddy : ℕ)
          → order < max_order
          → buddy_of arch start order ≡ done buddy
          → contains s buddy ≡ false)
      → (a' : BuddyAllocator) × (put_block start order a ≡ done a') × Freed arch order start a a'
  unfolding put_block cover
  put_block-Freed s e block unused alone =
      let fresh = not_contained s e unused in
      let added = λ (w : ℕ → ℕ → ℕ). sum_blocks-insert w a order start s e fresh in
      (
        set_bin a order (insert s start),
        rw (e, fresh),
        record {
          valid = record {
            num = length-set a.bins order _ ∙ v.num;
            bins =
                set-IsBin arch a order s (insert s start) v e
                  (insert-IsBin arch order s start (v.bins order s e) block alone);
            once = λ x. ground (arith, added (cover_weight x), v.once x, unused x);
          };
          sums = λ w add. added w;
        },
      )

-- Taking a free block out leaves a valid allocator.
module _ (arch : Arch) (order b : ℕ) (a : BuddyAllocator) (v : IsValid arch a) (s : List ℕ)
    (e : get_elem? a.bins order ≡ some s) (there : contains s b ≡ true) where
  removed :
      (w : ℕ → ℕ → ℕ) → sum_blocks w (set_bin a order (remove s b)) + w order b ≡ sum_blocks w a
  removed w = sum_blocks-remove w a order b s e there

  pub remove-IsValid : IsValid arch (set_bin a order (remove s b))
  unfolding cover
  remove-IsValid = record {
    num = length-set a.bins order _ ∙ v.num;
    bins =
        set-IsBin arch a order s (remove s b) v e (remove-IsBin arch order s b (v.bins order s e));
    once = λ x. ground (arith, removed (cover_weight x), v.once x);
  }

  -- With a free buddy, none of the merged block's addresses is free once the buddy is taken out.
  merged-IsUnused :
      (start : ℕ)
      → IsMate arch order start b
      → IsUnused order start a
      → IsUnused (order + 1) (min start b) (set_bin a order (remove s b))
  unfolding cover
  merged-IsUnused start mate unused x inner = ground (
    arith,
    removed (cover_weight x),
    mate.halves (cover_weight x) (cover-IsAdditive x),
    v.once x,
    unused x,
  )

  -- So freeing the merged block amounts to freeing the block.
  merged-Freed :
      (start : ℕ) (a' : BuddyAllocator)
      → IsMate arch order start b
      → Freed arch (order + 1) (min start b) (set_bin a order (remove s b)) a'
      → Freed arch order start a a'
  merged-Freed start a' mate f = record {
    valid = f.valid;
    sums = λ w add. omega (arith, f.sums w add, removed w, mate.halves w add);
  }

-- The three ways that one call goes.
module _ (arch : Arch) (fuel order start buddy : ℕ) (a : BuddyAllocator) (s : List ℕ) where
  loop_largest :
      order ≡ max_order → free_block_loop arch (suc fuel) start order a ≡ put_block start order a
  unfolding free_block_loop
  loop_largest h = ground arith

  loop_merges :
      order < max_order
      → buddy_of arch start order ≡ done buddy
      → get_elem? a.bins order ≡ some s
      → contains s buddy ≡ true
      → free_block_loop arch (suc fuel) start order a
        ≡ free_block_loop arch fuel (min start buddy) (order + 1) (set_bin a order (remove s buddy))
  unfolding free_block_loop
  loop_merges h p e there =
      let t : (order == max_order) ≡ false = ground arith in rw t (rw (p, e, there))

  loop_alone :
      order < max_order
      → buddy_of arch start order ≡ done buddy
      → get_elem? a.bins order ≡ some s
      → contains s buddy ≡ false
      → free_block_loop arch (suc fuel) start order a ≡ put_block start order a
  unfolding free_block_loop
  loop_alone h p e out =
      let t : (order == max_order) ≡ false = ground arith in rw t (rw (p, e, out))

abbrev pub Frees : Arch → ℕ → ℕ → BuddyAllocator → Outcome BuddyAllocator → Type 0
Frees arch order start a r = (a' : BuddyAllocator) × (r ≡ done a') × Freed arch order start a a'

-- One level of the recursion, by what the level above does.
below-Frees :
    (arch : Arch) (fuel order start : ℕ) (a : BuddyAllocator) (s : List ℕ)
    → order < max_order
    → IsValid arch a
    → IsBlock arch order start
    → IsUnused order start a
    → get_elem? a.bins order ≡ some s
    → ((start' : ℕ) (a' : BuddyAllocator)
        → IsValid arch a'
        → IsBlock arch (order + 1) start'
        → IsUnused (order + 1) start' a'
        → Frees arch (order + 1) start' a' (free_block_loop arch fuel start' (order + 1) a'))
    → Frees arch order start a (free_block_loop arch (suc fuel) start order a)
below-Frees arch fuel order start a s lt v block unused e above =
    let (buddy, mate) = IsBlock-IsMate arch order start lt block in
    elim (Bool-cases (contains s buddy)) [
      | inl there ↦
          let (a', r, f) =
            above (min start buddy) (set_bin a order (remove s buddy))
              (remove-IsValid arch order buddy a v s e there) mate.parent
              (merged-IsUnused arch order buddy a v s e there start mate unused) in
          (
            a',
            loop_merges arch fuel order start buddy a s lt mate.paired e there ∙ r,
            merged-Freed arch order buddy a v s e there start a' mate f,
          )
      | inr out ↦ rw (loop_alone arch fuel order start buddy a s lt mate.paired e out) (
          put_block-Freed arch order start a v s e block unused
            (λ b _ p. rw (done-injective b buddy (sym p ∙ mate.paired)) out))
    ]

free_block_loop-Frees :
    (arch : Arch) (fuel order start : ℕ) (a : BuddyAllocator)
    → order ≤ max_order
    → num_bins ≤ fuel + order
    → IsValid arch a
    → IsBlock arch order start
    → IsUnused order start a
    → Frees arch order start a (free_block_loop arch fuel start order a)
free_block_loop-Frees arch zero order start a h enough v block unused = absurd (omega arith)
free_block_loop-Frees arch (suc fuel) order start a h enough v block unused =
    let (s, e) = get_elem?_lt a.bins order (omega (arith, v.num)) in
    elim (dec_lt order max_order) [
      | no top ↦
          rw (loop_largest arch fuel order start 0 a s (omega arith))
            (put_block-Freed arch order start a v s e block unused (λ _ lt _. absurd (top lt)))
      | yes lt ↦ below-Frees arch fuel order start a s lt v block unused e λ start' a'.
          free_block_loop-Frees arch fuel (order + 1) start' a' (omega arith) (omega arith)
    ]

-- Freeing a block that is a block of its order and of which no address is free succeeds: it
-- returns a valid allocator whose free addresses are those from before and the block's.
pub free_block-Frees :
    (arch : Arch) (order start : ℕ) (a : BuddyAllocator)
    → order ≤ max_order
    → IsValid arch a
    → IsBlock arch order start
    → IsUnused order start a
    → Frees arch order start a (free_block arch start order a)
unfolding free_block
free_block-Frees arch order start a h v block unused =
    free_block_loop-Frees arch num_bins order start a h (omega arith) v block unused
