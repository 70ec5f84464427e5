-- ===== src/PageWalk/Create.antt =====
-- `next_table_create`: the table below an entry, which is made where there is none.
use poplar.Prelude.{
  ℕ, zero, suc, ◌+◌, ◌-◌, ◌*◌, ◌^◌, ◌≤◌, ◌<◌, ◌≡◌, ◌≢◌, ◌∙◌, refl, none, some, Outcome, done, arith,
  ◌⊎◌, put, put_same,
}
use poplar.Hal.Frame.{size_4kib, size_2mib, size_1gib}
use poplar.Hal.PageTable.{Paging, ok, already_mapped}
use poplar.PageWalk.{
  EntryFormat, pointer, next_table, Tables, Creation, found, occupied, create_table, existing_table,
  next_table_create,
}
use poplar.PageWalk.Tree.{
  Holds, IsFormat, Pages, EntryIs, vacant, page, table, HasTable, IsTree, entry_at,
}
use poplar.PageWalk.Translate.{next_table_vacant, next_table_table, next_table_leaf}
use poplar.PageWalk.Write.{set_page, write_self}
use poplar.PageWalk.Grow.{put_other, grow-IsTree}

-- What a frame allocator promises: a frame that an entry can hold, in memory that the tables can be
-- reached in, which was available and is no longer.
pub record Allocates (f : EntryFormat) (limit physical_base : ℕ) {A : Type 0}
    (allocate : A → Outcome (ℕ × A)) (Available : A → ℕ → Type 0) : Type 0 where
  pub table_of : A → ℕ
  pub holds : (s s' : A) (a : ℕ) → allocate s ≡ done (a, s') → Holds limit size_4kib a
  pub points :
      (s s' : A) (a : ℕ) → allocate s ≡ done (a, s') → pointer f physical_base a ≡ done (table_of s)
  pub available : (s s' : A) (a : ℕ) → allocate s ≡ done (a, s') → Available s (table_of s)
  pub taken :
      (s s' : A) (a : ℕ)
      → allocate s ≡ done (a, s')
      → (d : ℕ) → Available s' d
      → Available s d × (d ≢ table_of s)

-- The allocator has some number of frames left.
abbrev pub HasFrames : {A : Type 0} → (A → Outcome (ℕ × A)) → ℕ → A → Type 0
HasFrames allocate zero s = Unit {0}
HasFrames {A} allocate (suc n) s =
    (a : ℕ) × (s' : A) × (allocate s ≡ done (a, s')) × HasFrames allocate n s'

pub HasFrames-fewer :
    {A : Type 0} (allocate : A → Outcome (ℕ × A)) (n : ℕ) (s : A)
    → HasFrames allocate (suc n) s
    → HasFrames allocate n s
HasFrames-fewer allocate zero s h = tt
HasFrames-fewer allocate (suc n) s (a, s', e, rest) = (a, s', e, HasFrames-fewer allocate n s' rest)

module _ (f : EntryFormat) (limit physical_base top root : ℕ) {A : Type 0}
    (Available : A → ℕ → Type 0) where
  -- Memory holds the tables that map some pages, and the available frames are no tables.
  pub record Represents (pages : Pages) (s : Tables A) : Type 0 where
    pub level : ℕ → ℕ
    pub number : ℕ → ℕ
    pub tree : IsTree f limit physical_base top root level number pages s.memory
    pub fresh : (c : ℕ) → Available s.frames c → level c ≡ 0

  module _ (allocate : A → Outcome (ℕ × A)) where
    -- A table was found or made, or a page is in its place.
    pub data Created (pages : Pages) (k n left : ℕ) : Creation (Tables A) → Type 0 where
      made :
          (c : ℕ) (s : Tables A) (r : Represents pages s)
          → r.level c ≡ k
          → r.number c ≡ n
          → pages (suc k) n ≡ none
          → HasFrames allocate left s.frames
          → Created pages k n left (found c s)
      blocked :
          (a : ℕ) (s : Tables A)
          → pages (suc k) n ≡ some a
          → suc k ≤ 2
          → Represents pages s
          → Created pages k n left (occupied s)

  -- An entry was set to a page, or it is in use.
  pub data Filled (pages : Pages) (k n a : ℕ) : Paging (Tables A) → Type 0 where
    filled :
        (s : Tables A)
        → pages k n ≡ none
        → Represents (set_page pages k n (some a)) s
        → Filled pages k n a (ok s)
    in_use :
        (s : Tables A) (r : Represents pages s)
        → ((b : ℕ) × (pages k n ≡ some b)) ⊎ ((2 ≤ k) × HasTable r.level r.number (k - 1) n)
        → Filled pages k n a (already_mapped s)

module _ {f : EntryFormat} {limit physical_base : ℕ} (format : IsFormat f limit) {A : Type 0}
    {allocate : A → Outcome (ℕ × A)} {Available : A → ℕ → Type 0}
    (allocates : Allocates f limit physical_base allocate Available)
    (reach : physical_base + limit ≤ 2 ^ 64) (top root : ℕ) (pages : Pages) where
  abbrev Rep : Tables A → Type 0
  Rep = Represents f limit physical_base top root Available pages

  abbrev CreatedBy : ℕ → ℕ → ℕ → Creation (Tables A) → Type 0
  CreatedBy = Created f limit physical_base top root Available allocate pages

  create_table_lem :
      (s : Tables A) (r : Rep s) (t i k left : ℕ)
      → r.level t ≡ suc k
      → 1 ≤ k
      → i < 512
      → HasFrames allocate (suc left) s.frames
      → s.memory t i ≡ 0
      → pages (suc k) (r.number t * 512 + i) ≡ none
      → CreatedBy k (r.number t * 512 + i) left (create_table f physical_base allocate t i s)
  unfolding create_table next_table
  create_table_lem s r t i k left lt pos small (a, frames', e, rest) empty none_here =
      let c = allocates.table_of s.frames in
      let holds = allocates.holds s.frames frames' a e in
      let points = allocates.points s.frames frames' a e in
      let fresh = r.fresh c (allocates.available s.frames frames' a e) in
      let grown =
        grow-IsTree format r.tree t i k a c lt pos small empty none_here holds points fresh in
      let written = write_self s.memory t i (f.table_entry a) in
      rw (e, written, format.address_table a holds, points)
        (made c _
          (record {
            level = put r.level c k;
            number = put r.number c (r.number t * 512 + i);
            tree = grown;
            fresh = λ d still.
                let (before, ne) = allocates.taken s.frames frames' a e d still in
                put_other r.level c k d ne ∙ r.fresh d before;
          })
          (put_same r.level c k) (put_same r.number c (r.number t * 512 + i)) none_here rest)

  by_entry :
      (s : Tables A) (r : Rep s) (t i k left : ℕ)
      → r.level t ≡ suc k
      → 1 ≤ k
      → i < 512
      → HasFrames allocate (suc left) s.frames
      → EntryIs f limit physical_base top root r.level r.number pages
          (suc k)
          (r.number t * 512 + i)
          (s.memory t i)
      → CreatedBy k (r.number t * 512 + i) left (next_table_create f physical_base allocate t i s)
  unfolding next_table_create existing_table
  by_entry s r t i k left lt pos small frames (vacant e none_here) =
      rw (next_table_vacant format r.tree t i e)
        (create_table_lem s r t i k left lt pos small frames e none_here)
  by_entry s r t i k left lt pos small frames (page size_4kib a flags ls le h e here) =
      absurd (omega (arith, ls))
  by_entry s r t i k left lt pos small frames (page size_2mib a flags ls le h e here) =
      rw (next_table_leaf format physical_base reach s.memory t i a size_2mib flags h e)
        (rw (e, format.leaf_leaf size_2mib a flags h (omega arith)) (blocked a s here le r))
  by_entry s r t i k left lt pos small frames (page size_1gib a flags ls le h e here) =
      absurd (omega (arith, ls, le))
  by_entry s r t i k left lt pos small frames (table a c h e p p1 lc nc none_here) =
      let next = next_table_table format r.tree t i a c h e p in
      rw next (
        rw (e, format.leaf_table a h)
          (rw next (
            made c s r (omega (arith, lc)) nc none_here
              (HasFrames-fewer allocate left s.frames frames))))

  pub next_table_create_lem :
      (s : Tables A) (r : Rep s) (t i k left : ℕ)
      → r.level t ≡ suc k
      → 1 ≤ k
      → i < 512
      → HasFrames allocate (suc left) s.frames
      → CreatedBy k (r.number t * 512 + i) left (next_table_create f physical_base allocate t i s)
  next_table_create_lem s r t i k left lt pos small frames =
      by_entry s r t i k left lt pos small frames
        (entry_at format r.tree t i (suc k) (r.number t) (omega arith) lt refl small)
