-- ===== src/PageWalk.antt =====
-- The page tables of lib/hal_x86_64/src/paging.rs, whose text lib/hal_riscv/src/paging.rs repeats for
-- Sv48 and, with one level less, for Sv39: a walk over tables in memory, for any format of their
-- entries. A table is known by the virtual address that a reference to it holds, and memory gives
-- the word of each of its 512 entries. Flushing the TLB is left out.
pub mod Indices
pub mod Tree
pub mod Translate
pub mod Write
pub mod Grow
pub mod Create
pub mod Map
pub mod Unmap
pub mod Impl
pub mod FourLevel
pub mod ThreeLevel
pub mod MapTranslate
pub mod Start
pub mod TestData
pub mod Flaws
use poplar.Prelude.{
  ℕ, ◌+◌, ◌%◌, ◌≤◌, ◌≡◌, Bool, Option, none, some, ◌==◌, if◌then◌else◌, Outcome, done, panic, ◌>>=◌,
  unwrap, put,
}
use poplar.BitField.{GetBits}
use poplar.Hal.Arch.{Arch}
use poplar.Hal.PAddr
use poplar.Hal.VAddr
use poplar.Hal.Frame
use poplar.Hal.Frame.{FrameSize, size, size_4kib, size_2mib, size_1gib}
use poplar.Hal.Flags.{Flags}
use poplar.Hal.PageTable.{Paging, ok, already_mapped, crash, after}

-- What the walk needs of `Entry` and `EntryFlags`: `address`, the test for a page above the last
-- level, the test of `map` for an entry that it may write, and the words that `set` stores for a
-- table and for a page of some size. `set(None)` stores 0.
pub record EntryFormat : Type 0 where
  pub arch : Arch
  pub address : ℕ → Outcome (Option ℕ)
  pub is_leaf : ℕ → Bool
  pub is_vacant : ℕ → Bool
  pub table_entry : ℕ → ℕ
  pub leaf_entry : FrameSize → ℕ → Flags → ℕ

-- Memory, and the state of the frame allocator, which is behind a shared reference.
pub record Tables (A : Type 0) : Type 0 where
  pub memory : ℕ → ℕ → ℕ
  pub frames : A

-- `?` on an `Option`, in code that may panic.
abbrev pub and_some :
    {A B : Type 0} → Outcome (Option A) → (A → Outcome (Option B)) → Outcome (Option B)
and_some panic f = panic
and_some (done none) f = done none
and_some (done (some a)) f = f a

-- `Result<&mut Table, PagingError>`, with the state.
pub data Creation (T : Type 0) : Type 0 where
  found : ℕ → T → Creation T
  occupied : T → Creation T
  failed : Creation T

abbrev pub and_in : {T : Type 0} → Creation T → (ℕ → T → Paging T) → Paging T
and_in (found t s) f = f t s
and_in (occupied s) f = already_mapped s
and_in failed f = crash

abbrev pub creating : {A T : Type 0} → Outcome A → (A → Creation T) → Creation T
creating (done a) f = f a
creating panic f = failed

-- The indices of `VAddrIndices`, by `get_bits`.
module _ (get_bits : GetBits) where
  abbrev pub p4_index : ℕ → ℕ
  p4_index address = get_bits address 39 48

  abbrev pub p3_index : ℕ → ℕ
  p3_index address = get_bits address 30 39

  abbrev pub p2_index : ℕ → ℕ
  p2_index address = get_bits address 21 30

  abbrev pub p1_index : ℕ → ℕ
  p1_index address = get_bits address 12 21

-- An assignment to one entry.
abbrev pub write : (ℕ → ℕ → ℕ) → ℕ → ℕ → ℕ → ℕ → ℕ → ℕ
write memory table index word = put memory table (put (memory table) index word)

-- `Table::zero`
abbrev pub zero_table : (ℕ → ℕ → ℕ) → ℕ → ℕ → ℕ → ℕ
zero_table memory table = put memory table (λ index. 0)

-- `next_table_mut(..)?` in `unmap`
abbrev pub descend :
    Outcome (Option ℕ)
    → (ℕ → ℕ → ℕ)
    → (ℕ → Outcome (Option ℕ × (ℕ → ℕ → ℕ)))
    → Outcome (Option ℕ × (ℕ → ℕ → ℕ))
descend panic memory k = panic
descend (done none) memory k = done (none, memory)
descend (done (some t)) memory k = k t

module _ (f : EntryFormat) (physical_base : ℕ) where
  -- `physical_base + usize::from(address)`
  unfoldable pub pointer : ℕ → Outcome ℕ
  pointer address = VAddr.add f.arch physical_base address

  -- `next_table` and `next_table_mut`
  unfoldable pub next_table : ℕ → ℕ → (ℕ → ℕ → ℕ) → Outcome (Option ℕ)
  next_table table index memory =
      and_some (f.address (memory table index)) (λ address. pointer address >>= λ t. done (some t))

  module _ {A : Type 0} (allocate : A → Outcome (ℕ × A)) where
    -- A new table for an empty entry.
    unfoldable pub create_table : ℕ → ℕ → Tables A → Creation (Tables A)
    create_table table index s = creating (allocate s.frames) (λ (frame, frames').
        let written = write s.memory table index (f.table_entry frame) in
        creating (next_table table index written >>= unwrap)
          (λ t. found t (record { memory = zero_table written t; frames = frames' })))

    unfoldable pub existing_table : ℕ → ℕ → Tables A → Creation (Tables A)
    existing_table table index s =
        if f.is_leaf (s.memory table index)
        then occupied s
        else creating (next_table table index s.memory >>= unwrap) (λ t. found t s)

    unfoldable pub next_table_create : ℕ → ℕ → Tables A → Creation (Tables A)
    next_table_create table index s = creating (next_table table index s.memory) (λ next.
        elim next [ none ↦ create_table table index s | some t ↦ existing_table table index s ])

  -- The last step of `map`.
  unfoldable pub fill : {A : Type 0} → ℕ → ℕ → ℕ → Tables A → Paging (Tables A)
  fill table index word s =
      if f.is_vacant (s.memory table index)
      then ok (record s { memory = write s.memory table index word })
      else already_mapped s

  -- `unmap` returns the frame, or `None` with nothing changed. Large pages are not implemented.
  unfoldable pub clear_entry : ℕ → (ℕ → ℕ → ℕ) → ℕ → Outcome (Option ℕ × (ℕ → ℕ → ℕ))
  clear_entry p1 memory index = f.address (memory p1 index) >>= λ o. elim o [
    | none ↦ done (none, memory)
    | some start ↦
        Frame.starts_with size_4kib start >>= λ frame. done (some frame, write memory p1 index 0)
  ]

  module _ (get_bits : GetBits) where
    -- The part of `translate` from the P2 on, and from the P3 on, which is the whole for Sv39.
    unfoldable pub translate_from_p2 : ℕ → (ℕ → ℕ → ℕ) → ℕ → Outcome (Option ℕ)
    translate_from_p2 p2 memory address =
        if f.is_leaf (memory p2 (p2_index get_bits address))
        then and_some (f.address (memory p2 (p2_index get_bits address)))
            (λ start. PAddr.add f.arch start (address % size size_2mib) >>= λ a. done (some a))
        else and_some (next_table p2 (p2_index get_bits address) memory) (λ p1.
          and_some (f.address (memory p1 (p1_index get_bits address)))
            (λ start. PAddr.add f.arch start (address % size size_4kib) >>= λ a. done (some a)))

    unfoldable pub translate_from_p3 : ℕ → (ℕ → ℕ → ℕ) → ℕ → Outcome (Option ℕ)
    translate_from_p3 p3 memory address =
        and_some (next_table p3 (p3_index get_bits address) memory)
          (λ p2. translate_from_p2 p2 memory address)

    unfoldable pub translate_from_p4 : ℕ → (ℕ → ℕ → ℕ) → ℕ → Outcome (Option ℕ)
    translate_from_p4 p4 memory address =
        and_some (next_table p4 (p4_index get_bits address) memory)
          (λ p3. translate_from_p3 p3 memory address)

    module _ {A : Type 0} (allocate : A → Outcome (ℕ × A)) where
      unfoldable pub map_from_p3 : ℕ → FrameSize → ℕ → ℕ → Flags → Tables A → Paging (Tables A)
      map_from_p3 p3 size_4kib page frame flags s =
          and_in (next_table_create allocate p3 (p3_index get_bits page) s) (λ p2 s2.
            and_in (next_table_create allocate p2 (p2_index get_bits page) s2)
              (λ p1 s1. fill p1 (p1_index get_bits page) (f.leaf_entry size_4kib frame flags) s1))
      map_from_p3 p3 size_2mib page frame flags s =
          and_in (next_table_create allocate p3 (p3_index get_bits page) s)
            (λ p2 s2. fill p2 (p2_index get_bits page) (f.leaf_entry size_2mib frame flags) s2)
      map_from_p3 p3 size_1gib page frame flags s =
          fill p3 (p3_index get_bits page) (f.leaf_entry size_1gib frame flags) s

      -- Each branch of `map` begins with the P3.
      unfoldable pub map_from_p4 : ℕ → FrameSize → ℕ → ℕ → Flags → Tables A → Paging (Tables A)
      map_from_p4 p4 s page frame flags t =
          and_in (next_table_create allocate p4 (p4_index get_bits page) t)
            (λ p3 t'. map_from_p3 p3 s page frame flags t')

    unfoldable pub unmap_from_p3 :
        ℕ → FrameSize → ℕ → (ℕ → ℕ → ℕ) → Outcome (Option ℕ × (ℕ → ℕ → ℕ))
    unmap_from_p3 p3 size_4kib page memory =
        descend (next_table p3 (p3_index get_bits page) memory) memory (λ p2.
          descend (next_table p2 (p2_index get_bits page) memory) memory
            (λ p1. clear_entry p1 memory (p1_index get_bits page)))
    unmap_from_p3 p3 size_2mib page memory = panic
    unmap_from_p3 p3 size_1gib page memory = panic

    unfoldable pub unmap_from_p4 :
        ℕ → FrameSize → ℕ → (ℕ → ℕ → ℕ) → Outcome (Option ℕ × (ℕ → ℕ → ℕ))
    unmap_from_p4 p4 size_4kib page memory =
        descend (next_table p4 (p4_index get_bits page) memory) memory
          (λ p3. unmap_from_p3 p3 size_4kib page memory)
    unmap_from_p4 p4 size_2mib page memory = panic
    unmap_from_p4 p4 size_1gib page memory = panic
