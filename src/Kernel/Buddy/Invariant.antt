-- ===== src/Kernel/Buddy/Invariant.antt =====
-- What holds of the allocator between any two calls.
use native.Mathlib.Decide.{ℕ_discrete}
use poplar.Prelude.{
  ℕ, ◌≤◌, ◌<◌, ◌≡◌, ◌⊎◌, List, some, arith, get_elem?, set, length, true, false, done, inl, inr,
  get_elem?-set_self, get_elem?-set_ne, get_elem?-lt, sym, ap, ◌∙◌,
}
use poplar.Prelude.BTreeSet
use poplar.Prelude.BTreeSet.{contains, insert, remove, Ascends}
use poplar.Hal.Arch.{Arch}
use poplar.Kernel.Buddy.{BuddyAllocator, num_bins, max_order, buddy_of}
use poplar.Kernel.Buddy.Address.{IsBlock, buddy_of_sym}
use poplar.Kernel.Buddy.Cover.{cover}

-- One bin: its elements are blocks of its order, each once, and no two of them are buddies that
-- could have been merged.
pub record IsBin (arch : Arch) (order : ℕ) (s : List ℕ) : Type 0 where
  pub sorted : Ascends s
  pub blocks : (b : ℕ) → contains s b ≡ true → IsBlock arch order b
  pub merged :
      (b buddy : ℕ)
      → order < max_order
      → contains s b ≡ true
      → buddy_of arch b order ≡ done buddy
      → contains s buddy ≡ false

-- There is a bin for each order, and no address is free twice.
pub record IsValid (arch : Arch) (a : BuddyAllocator) : Type 0 where
  pub num : length a.bins ≡ num_bins
  pub bins : (i : ℕ) (s : List ℕ) → get_elem? a.bins i ≡ some s → IsBin arch i s
  pub once : (x : ℕ) → cover a x ≤ 1

contains-insert_cases :
    (s : List ℕ) (x b : ℕ) → contains (insert s x) b ≡ true → (b ≡ x) ⊎ (contains s b ≡ true)
contains-insert_cases s x b e = ground (arith, BTreeSet.contains-insert s x b)

true≢false : ¬ (true ≡ false)
true≢false e = cc

pub set-IsBin :
    (arch : Arch) (a : BuddyAllocator) (i : ℕ) (old s : List ℕ)
    → IsValid arch a
    → get_elem? a.bins i ≡ some old
    → IsBin arch i s
    → (j : ℕ) (t : List ℕ) → get_elem? (set a.bins i s) j ≡ some t
    → IsBin arch j t
set-IsBin arch a i old s v h fits j t e = elim (ℕ_discrete i j) [
  | yes same ↦
      let found : some s ≡ some t =
        sym (get_elem?-set_self a.bins i s (get_elem?-lt a.bins i h))
        ∙ ap (get_elem? (set a.bins i s)) same
        ∙ e in
      let t' : t ≡ s = cc in rw (t', ← same) fits
  | no other ↦ v.bins j t (sym (get_elem?-set_ne a.bins i j s other) ∙ e)
]

pub remove-IsBin :
    (arch : Arch) (order : ℕ) (s : List ℕ) (x : ℕ)
    → IsBin arch order s
    → IsBin arch order (remove s x)
remove-IsBin arch order s x h = record {
  sorted = BTreeSet.remove-AscendsFrom 0 s x h.sorted;
  blocks = λ b e. h.blocks b (ground (arith, BTreeSet.contains-remove 0 s x b h.sorted));
  merged = λ b buddy lt e p. ground (
    arith,
    BTreeSet.contains-remove 0 s x b h.sorted,
    BTreeSet.contains-remove 0 s x buddy h.sorted,
    h.merged b buddy,
  );
}

-- A block whose buddy is not free may join its bin.
module _ (arch : Arch) (order : ℕ) (s : List ℕ) (x : ℕ) (h : IsBin arch order s)
    (block : IsBlock arch order x)
    (alone : (buddy : ℕ)
      → order < max_order
      → buddy_of arch x order ≡ done buddy
      → contains s buddy ≡ false) where
  insert_blocks : (b : ℕ) → contains (insert s x) b ≡ true → IsBlock arch order b
  insert_blocks b e = elim (contains-insert_cases s x b e) [
    | inl same ↦ rw same block
    | inr there ↦ h.blocks b there
  ]

  new_buddy :
      (buddy : ℕ)
      → order < max_order
      → buddy_of arch x order ≡ done buddy
      → contains (insert s x) buddy ≡ false
  new_buddy buddy lt p = ground (
    arith,
    BTreeSet.contains-insert s x buddy,
    alone buddy lt p,
    (buddy_of_sym arch order x buddy lt block p).1,
  )

  old_buddy :
      (b buddy : ℕ)
      → order < max_order
      → contains s b ≡ true
      → buddy_of arch b order ≡ done buddy
      → contains (insert s x) buddy ≡ false
  old_buddy b buddy lt there p = elim (ℕ_discrete buddy x) [
    | yes same ↦
        let back : buddy_of arch x order ≡ done b =
          rw (← same) (buddy_of_sym arch order b buddy lt (h.blocks b there) p).0 in
        absurd (true≢false (sym there ∙ alone b lt back))
    | no other ↦ ground (arith, BTreeSet.contains-insert s x buddy, h.merged b buddy lt there p)
  ]

  pub insert-IsBin : IsBin arch order (insert s x)
  insert-IsBin = record {
    sorted = BTreeSet.insert-AscendsFrom 0 s x (omega arith) h.sorted;
    blocks = insert_blocks;
    merged = λ b buddy lt e p. elim (contains-insert_cases s x b e) [
      | inl same ↦ new_buddy buddy lt (rw (← same) p)
      | inr there ↦ old_buddy b buddy lt there p
    ];
  }
