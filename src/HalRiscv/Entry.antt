-- ===== src/HalRiscv/Entry.antt =====
-- lib/hal_riscv/src/paging.rs: `EntryFlags` and `Entry`. A set of flags is the word of its bits.
pub mod Laws
use poplar.Prelude.{
  ℕ, ◌+◌, ◌*◌, ◌-◌, ◌/◌, ◌%◌, ◌^◌, Bool, true, false, not, ◌&&◌, Option, none, some, if◌then◌else◌,
  Outcome, done, ◌>>=◌, unwrap, bit_or,
}
use poplar.BitFlags.{BitFlags}
use poplar.BitField.{GetBits}
use poplar.Hal.Arch.{Arch}
use poplar.Hal.PAddr
use poplar.Hal.Frame.{FrameSize}
use poplar.Hal.Flags.{Flags}
use poplar.PageWalk.{EntryFormat}

-- `EntryFlags`
abbrev pub valid : ℕ
valid = 2 ^ 0

abbrev pub readable : ℕ
readable = 2 ^ 1

abbrev pub writable : ℕ
writable = 2 ^ 2

abbrev pub executable : ℕ
executable = 2 ^ 3

abbrev pub user_accessible : ℕ
user_accessible = 2 ^ 4

abbrev pub accessed : ℕ
accessed = 2 ^ 6

abbrev pub dirty : ℕ
dirty = 2 ^ 7

-- Bits 0 to 7.
abbrev pub all_flags : ℕ
all_flags = 2 ^ 8 - 1

module _ (b : BitFlags) where
  -- `impl From<Flags> for EntryFlags`
  unfoldable pub from_flags : Flags → ℕ
  from_flags flags =
      b.union
        (b.union (b.union valid (if flags.writable then b.union readable writable else readable))
          (if flags.executable then executable else 0))
        (if flags.user_accessible then user_accessible else 0)

  unfoldable pub flags : ℕ → ℕ
  flags entry = b.from_bits_truncate all_flags entry

  unfoldable pub is_valid : ℕ → Bool
  unfolding flags
  is_valid entry = b.contains (flags entry) valid

  unfoldable pub is_leaf : ℕ → Bool
  unfolding flags
  is_leaf entry =
      b.contains (flags entry) valid
      && b.intersects (flags entry) (b.union (b.union readable writable) executable)

  -- `set`, with the argument `is_leaf` first.
  unfoldable pub set : Bool → Option (ℕ × ℕ) → ℕ
  set leaf (some (a, f)) =
      bit_or (a / 2 ^ 2) (b.union (b.union f valid) (if leaf then b.union accessed dirty else 0))
  set leaf none = 0

  unfoldable pub leaf_entry : FrameSize → ℕ → Flags → ℕ
  unfolding from_flags set
  leaf_entry s frame f = set true (some (frame, from_flags f))

  unfoldable pub table_entry : ℕ → ℕ
  unfolding set
  table_entry frame = set false (some (frame, valid))

  module _ (arch : Arch) (get_bits : GetBits) where
    unfoldable pub address : ℕ → Outcome (Option ℕ)
    unfolding is_valid
    address entry =
        if is_valid entry
        then (unwrap (PAddr.new arch (get_bits entry 10 54 * 2 ^ 12 % 2 ^ 64)) >>= λ a.
            done (some a))
        else done none

    abbrev pub format : EntryFormat
    format = record {
      arch = arch;
      address = address;
      is_leaf = is_leaf;
      is_vacant = λ entry. not (is_valid entry);
      table_entry = table_entry;
      leaf_entry = leaf_entry;
    }
