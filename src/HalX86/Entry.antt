-- ===== src/HalX86/Entry.antt =====
-- lib/hal_x86_64/src/paging.rs: `EntryFlags` and `Entry`. A set of flags is the word of its bits.
pub mod Laws
use poplar.Prelude.{
  ℕ, ◌+◌, ◌*◌, ◌-◌, ◌^◌, Bool, Option, none, some, ◌==◌, if◌then◌else◌, Outcome, done, ◌>>=◌,
  unwrap, bit_and, bit_or,
}
use poplar.BitFlags.{BitFlags}
use poplar.Hal.Arch.{x86_64}
use poplar.Hal.PAddr
use poplar.Hal.Frame.{FrameSize, size_4kib, size_2mib, size_1gib}
use poplar.Hal.Flags.{Flags}
use poplar.PageWalk.{EntryFormat}

-- `EntryFlags`
abbrev pub present : ℕ
present = 2 ^ 0

abbrev pub writable : ℕ
writable = 2 ^ 1

abbrev pub user_accessible : ℕ
user_accessible = 2 ^ 2

abbrev pub no_cache : ℕ
no_cache = 2 ^ 4

abbrev pub huge_page : ℕ
huge_page = 2 ^ 7

abbrev pub no_execute : ℕ
no_execute = 2 ^ 63

-- `PRESENT`, `WRITABLE` and `USER_ACCESSIBLE`
abbrev pub non_terminal_flags : ℕ
non_terminal_flags = bit_or (bit_or present writable) user_accessible

-- Bits 0 to 8, and bit 63.
abbrev pub all_flags : ℕ
all_flags = 2 ^ 63 + (2 ^ 9 - 1)

abbrev pub address_mask : ℕ
address_mask = 0x000ffffffffff000

module _ (b : BitFlags) where
  -- `impl From<Flags> for EntryFlags`
  unfoldable pub from_flags : Flags → ℕ
  from_flags flags =
      b.union
        (b.union
          (b.union (b.union present (if flags.writable then writable else 0))
            (if flags.executable then 0 else no_execute))
          (if flags.user_accessible then user_accessible else 0))
        (if flags.cached then 0 else no_cache)

  unfoldable pub flags : ℕ → ℕ
  flags entry = b.from_bits_truncate all_flags entry

  unfoldable pub is_present : ℕ → Bool
  unfolding flags
  is_present entry = b.contains (flags entry) present

  unfoldable pub is_huge : ℕ → Bool
  unfolding flags
  is_huge entry = b.contains (flags entry) huge_page

  unfoldable pub address : ℕ → Outcome (Option ℕ)
  unfolding is_present
  address entry =
      if is_present entry
      then (unwrap (PAddr.new x86_64 (bit_and entry address_mask)) >>= λ a. done (some a))
      else done none

  unfoldable pub set : Option (ℕ × ℕ) → ℕ
  set (some (a, f)) = bit_or a (b.union f present)
  set none = 0

  unfoldable pub leaf_entry : FrameSize → ℕ → Flags → ℕ
  unfolding from_flags set
  leaf_entry size_4kib frame f = set (some (frame, from_flags f))
  leaf_entry size_2mib frame f = set (some (frame, b.union (from_flags f) huge_page))
  leaf_entry size_1gib frame f = set (some (frame, b.union (from_flags f) huge_page))

  unfoldable pub table_entry : ℕ → ℕ
  unfolding set
  table_entry frame = set (some (frame, non_terminal_flags))

  unfoldable pub is_unused : ℕ → Bool
  is_unused entry = entry == 0

  abbrev pub format : EntryFormat
  format = record {
    arch = x86_64;
    address = address;
    is_leaf = is_huge;
    is_vacant = is_unused;
    table_entry = table_entry;
    leaf_entry = leaf_entry;
  }
