-- ===== src/Kernel/Buddy/Cover.antt =====
-- How often the allocator holds an address: the sum, over all free blocks, of whether the block
-- holds it. This view forgets how the free memory is cut into blocks.
use poplar.Prelude.{ℕ, zero, suc, ◌+◌, ◌≡◌, true, false, List, [], ◌∷◌, some, arith, get_elem?, set}
use poplar.Prelude.BTreeSet.{contains, insert, remove, total, total-insert, total-remove}
use poplar.Kernel.Buddy.{BuddyAllocator, block_size, set_bin}
use poplar.Kernel.Buddy.Address.{inside}

-- The sum of a weight over all blocks: `weight i b` for a block `b` of order `i`.
unfoldable pub sum_from : (ℕ → ℕ → ℕ) → ℕ → List (List ℕ) → ℕ
sum_from weight i [] = 0
sum_from weight i (s ∷ bins) = total (weight i) s + sum_from weight (suc i) bins

unfoldable pub sum_blocks : (ℕ → ℕ → ℕ) → BuddyAllocator → ℕ
sum_blocks weight a = sum_from weight 0 a.bins

abbrev pub cover_weight : ℕ → ℕ → ℕ → ℕ
cover_weight x i b = inside b (block_size i) x

unfoldable pub cover : BuddyAllocator → ℕ → ℕ
cover a x = sum_blocks (cover_weight x) a

module _ (weight : ℕ → ℕ → ℕ) where
  sum_from-set :
      (bins : List (List ℕ)) (i j k : ℕ) (old s : List ℕ)
      → i + j ≡ k
      → get_elem? bins j ≡ some old
      → sum_from weight i (set bins j s) + total (weight k) old
        ≡ sum_from weight i bins + total (weight k) s
  unfolding sum_from
  sum_from-set [] i j k old s e h = absurd (cc)
  sum_from-set (b ∷ bins) i zero k old s e h =
      let e' : i ≡ k = omega arith in let o : b ≡ old = cc in rw (e', o) (omega arith)
  sum_from-set (b ∷ bins) i (suc j) k old s e h =
      omega (arith, sum_from-set bins (suc i) j k old s (omega arith) h)

  pub sum_blocks-set :
      (a : BuddyAllocator) (i : ℕ) (old s : List ℕ)
      → get_elem? a.bins i ≡ some old
      → sum_blocks weight (set_bin a i s) + total (weight i) old
        ≡ sum_blocks weight a + total (weight i) s
  unfolding sum_blocks
  sum_blocks-set a i old s h = sum_from-set a.bins 0 i i old s (omega arith) h

  -- A block put into its bin adds its weight, and one taken out takes its weight away.
  pub sum_blocks-insert :
      (a : BuddyAllocator) (i block : ℕ) (s : List ℕ)
      → get_elem? a.bins i ≡ some s
      → contains s block ≡ false
      → sum_blocks weight (set_bin a i (insert s block)) ≡ sum_blocks weight a + weight i block
  sum_blocks-insert a i block s h fresh =
      omega (arith, sum_blocks-set a i s (insert s block) h, total-insert (weight i) s block fresh)

  pub sum_blocks-remove :
      (a : BuddyAllocator) (i block : ℕ) (s : List ℕ)
      → get_elem? a.bins i ≡ some s
      → contains s block ≡ true
      → sum_blocks weight (set_bin a i (remove s block)) + weight i block ≡ sum_blocks weight a
  sum_blocks-remove a i block s h there =
      omega (arith, sum_blocks-set a i s (remove s block) h, total-remove (weight i) s block there)
