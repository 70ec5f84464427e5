-- ===== src/PageWalk/Tree.antt =====
-- When memory holds a tree of page tables, and which pages it maps.
use poplar.Prelude.{
  ℕ, suc, ◌+◌, ◌*◌, ◌/◌, ◌%◌, ◌^◌, ◌≤◌, ◌<◌, ◌≡◌, ◌≢◌, sym, ap, subst, ◌∙◌, true, false, Option,
  none, some, done, arith,
}
use poplar.Hal.Arch.{physical_limit}
use poplar.Hal.Frame.{FrameSize, size, size_4kib, size_2mib, size_1gib}
use poplar.Hal.Flags.{Flags}
use poplar.PageWalk.{EntryFormat, pointer}

-- The level of the tables whose entries are pages of some size.
abbrev pub level_of : FrameSize → ℕ
level_of size_4kib = 1
level_of size_2mib = 2
level_of size_1gib = 3

-- A frame that an entry can hold: `limit` is the first address that it cannot.
abbrev pub Holds : ℕ → FrameSize → ℕ → Type 0
Holds limit s frame = (frame % size s ≡ 0) × (frame < limit)

-- What a format of entries must satisfy: an entry reads as it was set.
pub record IsFormat (f : EntryFormat) (limit : ℕ) : Type 0 where
  pub limit_aligned : limit % 2 ^ 30 ≡ 0
  pub in_range : limit ≤ physical_limit f.arch
  pub address_zero : f.address 0 ≡ done none
  pub leaf_zero : f.is_leaf 0 ≡ false
  pub vacant_zero : f.is_vacant 0 ≡ true
  pub address_table :
      (a : ℕ) → Holds limit size_4kib a → f.address (f.table_entry a) ≡ done (some a)
  pub leaf_table : (a : ℕ) → Holds limit size_4kib a → f.is_leaf (f.table_entry a) ≡ false
  pub vacant_table : (a : ℕ) → Holds limit size_4kib a → f.is_vacant (f.table_entry a) ≡ false
  pub address_leaf :
      (s : FrameSize) (a : ℕ) (flags : Flags)
      → Holds limit s a
      → f.address (f.leaf_entry s a flags) ≡ done (some a)
  pub leaf_leaf :
      (s : FrameSize) (a : ℕ) (flags : Flags)
      → Holds limit s a
      → 2 ≤ level_of s
      → f.is_leaf (f.leaf_entry s a flags) ≡ true
  pub vacant_leaf :
      (s : FrameSize) (a : ℕ) (flags : Flags)
      → Holds limit s a
      → f.is_vacant (f.leaf_entry s a flags) ≡ false

-- The pages that are mapped: by the level of the tables that map them and by number.
abbrev pub Pages : Type 0
Pages = ℕ → ℕ → Option ℕ

abbrev pub HasTable : (ℕ → ℕ) → (ℕ → ℕ) → ℕ → ℕ → Type 0
HasTable level number k n = (t : ℕ) × (level t ≡ k) × (number t ≡ n)

module _ (f : EntryFormat) (limit physical_base top root : ℕ) where
  -- What an entry is, of a table at level `k`: the pages below it have the number `n`. A table in
  -- memory has a level, and a number as its pages have; the level of all else is 0.
  pub data EntryIs (level number : ℕ → ℕ) (pages : Pages) (k n word : ℕ) : Type 0 where
    vacant : word ≡ 0 → pages k n ≡ none → EntryIs level number pages k n word
    page :
        (s : FrameSize) (a : ℕ) (flags : Flags)
        → level_of s ≡ k
        → k ≤ 2
        → Holds limit s a
        → word ≡ f.leaf_entry s a flags
        → pages k n ≡ some a
        → EntryIs level number pages k n word
    table :
        (a c : ℕ)
        → Holds limit size_4kib a
        → word ≡ f.table_entry a
        → pointer f physical_base a ≡ done c
        → 1 ≤ level c
        → suc (level c) ≡ k
        → number c ≡ n
        → pages k n ≡ none
        → EntryIs level number pages k n word

  -- The entry that points to a table below the top.
  pub record Parent (level number : ℕ → ℕ) (memory : ℕ → ℕ → ℕ) (c : ℕ) : Type 0 where
    pub parent : ℕ
    pub level_parent : level parent ≡ suc (level c)
    pub number_parent : number parent ≡ number c / 512
    pub frame : ℕ
    pub holds : Holds limit size_4kib frame
    pub entry : memory parent (number c % 512) ≡ f.table_entry frame

  pub record IsTree (level number : ℕ → ℕ) (pages : Pages) (memory : ℕ → ℕ → ℕ) : Type 0 where
    pub level_root : level root ≡ top
    pub number_root : number root ≡ 0
    pub bounded : (t : ℕ) → level t ≤ top
    pub entries :
        (t i : ℕ)
        → 1 ≤ level t
        → i < 512
        → EntryIs level number pages (level t) (number t * 512 + i) (memory t i)
    pub parented : (c : ℕ) → 1 ≤ level c → level c < top → Parent level number memory c
    pub unique : (t u : ℕ) → 1 ≤ level t → level t ≡ level u → number t ≡ number u → t ≡ u
    pub closed :
        (k n a : ℕ) → pages k n ≡ some a → (1 ≤ k) × (k ≤ 2) × HasTable level number k (n / 512)

module _ {f : EntryFormat} {limit physical_base top root : ℕ} (format : IsFormat f limit)
    {level number : ℕ → ℕ} {pages : Pages} {memory : ℕ → ℕ → ℕ}
    (tree : IsTree f limit physical_base top root level number pages memory) where
  -- No entry is both empty and a table.
  pub table-ne-zero : (a : ℕ) → Holds limit size_4kib a → f.table_entry a ≢ 0
  table-ne-zero a h e =
      let clash : false ≡ true =
        sym (format.vacant_table a h) ∙ ap f.is_vacant e ∙ format.vacant_zero in
      cc

  -- Below an entry that is no table there is no table.
  pub no_table_below :
      (t i : ℕ)
      → i < 512
      → ((a : ℕ) → Holds limit size_4kib a → memory t i ≢ f.table_entry a)
      → (c : ℕ) → 1 ≤ level c
      → suc (level c) ≡ level t
      → number c ≡ number t * 512 + i
      → ⊥
  no_table_below t i h other c pos le ne =
      let p = tree.parented c pos (omega (arith, tree.bounded t)) in
      let same =
        tree.unique p.parent t (omega (arith, p.level_parent)) (omega (arith, p.level_parent))
          (omega (arith, p.number_parent)) in
      let at : number c % 512 ≡ i = omega arith in
      other p.frame p.holds (ground (arith, p.entry, same, at))

  -- A table below the top stands below another.
  pub above :
      (k n : ℕ)
      → 1 ≤ k
      → k < top
      → HasTable level number k n
      → HasTable level number (suc k) (n / 512)
  above k n pos lt (c, le, ne) =
      let p = tree.parented c (omega arith) (omega arith) in
      (
        p.parent,
        omega (arith, p.level_parent),
        omega (arith, p.number_parent, ap (λ t. t / 512) ne),
      )

  pub entry_at :
      (t i k n : ℕ)
      → 1 ≤ k
      → level t ≡ k
      → number t ≡ n
      → i < 512
      → EntryIs f limit physical_base top root level number pages k (n * 512 + i) (memory t i)
  entry_at t i k n pos lt nt h =
      let Here = λ (k : ℕ) (n : ℕ).
        EntryIs f limit physical_base top root level number pages k (n * 512 + i) (memory t i) in
      subst (λ k. Here k n) lt (subst (Here (level t)) nt (tree.entries t i (omega (arith, lt)) h))
