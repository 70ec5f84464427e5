-- ===== src/HalX86/Entry/Laws.antt =====
-- An entry reads as it was set.
use poplar.Prelude.{
  ℕ, ◌+◌, ◌*◌, ◌-◌, ◌/◌, ◌%◌, ◌^◌, ◌<◌, ◌≤◌, ◌≡◌, ◌≢◌, sym, ap, subst, ◌∙◌, refl, Bool, true, false,
  none, some, ◌==◌, if◌then◌else◌, done, bit_and, bit_or, arith,
}
use poplar.Prelude.Fields.{entry_word, entry_word_or, entry_word_frame, entry_word_flag}
use poplar.BitFlags.{BitFlags, FollowsBits}
use poplar.Hal.Arch.{x86_64}
use poplar.Hal.PAddr.Laws.{new_in_range}
use poplar.Hal.Frame.{FrameSize, size, size_4kib, size_2mib, size_1gib}
use poplar.Hal.Flags.{Flags}
use poplar.PageWalk.Tree.{level_of, Holds, IsFormat}
use poplar.HalX86.Entry.{
  present, writable, user_accessible, no_cache, huge_page, no_execute, non_terminal_flags,
  all_flags, from_flags, flags, is_present, is_huge, address, set, leaf_entry, table_entry,
  is_unused, format,
}

-- A word of flags: bit 63, and bits 0 to 8 with bit 0 set.
pub record IsFlagWord (f : ℕ) (huge : Bool) : Type 0 where
  pub top : ℕ
  pub low : ℕ
  pub parts : f ≡ top * 2 ^ 63 + low
  pub small : low < 2 ^ 9
  pub with_present : bit_or f present ≡ f
  pub reads_present : (bit_and low present == present) ≡ true
  pub reads_huge : (bit_and low huge_page == huge_page) ≡ huge

flag_bits : (w x u c : Bool) → ℕ
flag_bits w x u c =
    bit_or
      (bit_or (bit_or (bit_or present (if w then writable else 0)) (if x then 0 else no_execute))
        (if u then user_accessible else 0))
      (if c then 0 else no_cache)

abbrev low_bits : (w u c : Bool) → ℕ
low_bits w u c = 1 + (if w then 2 else 0) + (if u then 4 else 0) + (if c then 0 else 16)

abbrev high_bit : (x : Bool) → ℕ
high_bit x = if x then 0 else 1

-- The flags of a small page, and of a large one.
small_facts :
    (w x u c : Bool)
    → (flag_bits w x u c ≡ high_bit x * 2 ^ 63 + low_bits w u c)
      × (low_bits w u c < 2 ^ 9)
      × (bit_or (flag_bits w x u c) present ≡ flag_bits w x u c)
      × ((bit_and (low_bits w u c) present == present) ≡ true)
      × ((bit_and (low_bits w u c) huge_page == huge_page) ≡ false)
unfolding flag_bits
small_facts w x u c = ground arith

large_facts :
    (w x u c : Bool)
    → (bit_or (flag_bits w x u c) huge_page ≡ high_bit x * 2 ^ 63 + (low_bits w u c + 2 ^ 7))
      × (low_bits w u c + 2 ^ 7 < 2 ^ 9)
      × (bit_or (bit_or (flag_bits w x u c) huge_page) present
          ≡ bit_or (flag_bits w x u c) huge_page)
      × ((bit_and (low_bits w u c + 2 ^ 7) present == present) ≡ true)
      × ((bit_and (low_bits w u c + 2 ^ 7) huge_page == huge_page) ≡ true)
unfolding flag_bits
large_facts w x u c = ground arith

small_word : (w x u c : Bool) → IsFlagWord (flag_bits w x u c) false
small_word w x u c =
    let (p, s, e, pr, hu) = small_facts w x u c in
    record {
      top = high_bit x;
      low = low_bits w u c;
      parts = p;
      small = s;
      with_present = e;
      reads_present = pr;
      reads_huge = hu;
    }

large_word : (w x u c : Bool) → IsFlagWord (bit_or (flag_bits w x u c) huge_page) true
large_word w x u c =
    let (p, s, e, pr, hu) = large_facts w x u c in
    record {
      top = high_bit x;
      low = low_bits w u c + 2 ^ 7;
      parts = p;
      small = s;
      with_present = e;
      reads_present = pr;
      reads_huge = hu;
    }

table_word : IsFlagWord non_terminal_flags false
table_word = record {
  top = 0;
  low = 7;
  parts = refl;
  small = omega arith;
  with_present = refl;
  reads_present = refl;
  reads_huge = refl;
}

nonzero : (low : ℕ) → (bit_and low present == present) ≡ true → low ≢ 0
nonzero low h e =
    let clash : (bit_and 0 present == present) ≡ true =
      ap (λ t. bit_and t present == present) (sym e) ∙ h in
    cc

module _ (b : BitFlags) (laws : FollowsBits b) where
  from_flags_bits :
      (f : Flags) → from_flags b f ≡ flag_bits f.writable f.executable f.user_accessible f.cached
  unfolding from_flags flag_bits
  from_flags_bits f = simp (laws.union_lem)

  -- What an entry that holds a frame reads as.
  record Reads (word a : ℕ) (huge : Bool) : Type 0 where
    huge_lem : is_huge b word ≡ huge
    address_lem : address b word ≡ done (some a)
    unused_lem : is_unused b word ≡ false

  set_word :
      (a f : ℕ) {huge : Bool} (v : IsFlagWord f huge)
      → a % 2 ^ 12 ≡ 0
      → a < 2 ^ 52
      → set b (some (a, f)) ≡ entry_word v.top (a / 2 ^ 12) v.low
  unfolding set
  set_word a f v on lt =
      let whole : a ≡ a / 2 ^ 12 * 2 ^ 12 = omega arith in
      let same : b.union f present ≡ f = laws.union_lem f present ∙ v.with_present in
      ap (bit_or a) same
      ∙ ap (bit_or a) v.parts
      ∙ ap (λ t. bit_or t (v.top * 2 ^ 63 + v.low)) whole
      ∙ entry_word_or v.top (a / 2 ^ 12) v.low (omega arith) (omega (arith, v.small))

  flag_lem :
      (top frame low flag : ℕ)
      → low < 2 ^ 9
      → flag < 2 ^ 12
      → b.contains (flags b (entry_word top frame low)) flag ≡ (bit_and low flag == flag)
  unfolding flags
  flag_lem top frame low flag small lt =
      let all : all_flags ≡ 2 ^ 51 * 2 ^ 12 + (2 ^ 9 - 1) = refl in
      let truncated = laws.from_bits_truncate_lem all_flags (entry_word top frame low) in
      ap (λ t. b.contains t flag) truncated
      ∙ laws.contains_lem (bit_and (entry_word top frame low) all_flags) flag
      ∙ ap (λ t. t == flag) (entry_word_flag top frame low (2 ^ 51) flag small lt)

  record ReadsEmpty : Type 0 where
    huge_lem : is_huge b 0 ≡ false
    address_lem : address b 0 ≡ done none
    unused_lem : is_unused b 0 ≡ true

  empty : ReadsEmpty
  unfolding is_huge is_present address is_unused
  empty = record {
    huge_lem = flag_lem 0 0 0 huge_page (omega arith) (omega arith);
    address_lem = rw (flag_lem 0 0 0 present (omega arith) (omega arith)) refl;
    unused_lem = refl;
  }

  word-Reads :
      (a f : ℕ) (huge : Bool)
      → IsFlagWord f huge
      → a % 2 ^ 12 ≡ 0
      → a < 2 ^ 52
      → Reads (set b (some (a, f))) a huge
  unfolding is_huge is_present address is_unused
  word-Reads a f huge v on lt =
      subst (λ w. Reads w a huge) (sym (set_word a f v on lt))
        (record {
          huge_lem =
              flag_lem v.top (a / 2 ^ 12) v.low huge_page v.small (omega arith) ∙ v.reads_huge;
          address_lem =
              let shown =
                flag_lem v.top (a / 2 ^ 12) v.low present v.small (omega arith) ∙ v.reads_present in
              let masked =
                entry_word_frame v.top (a / 2 ^ 12) v.low (omega arith) (omega (arith, v.small)) in
              let whole : a / 2 ^ 12 * 2 ^ 12 ≡ a = omega arith in
              rw shown (rw (masked ∙ whole) (rw (new_in_range x86_64 a lt) refl));
          unused_lem = ground (arith, nonzero v.low v.reads_present);
        })

  table_format : (a : ℕ) → Holds (2 ^ 52) size_4kib a → Reads (table_entry b a) a false
  unfolding table_entry size
  table_format a h = word-Reads a non_terminal_flags false table_word h.0 h.1

  small_format :
      (a : ℕ) (f : Flags) → Holds (2 ^ 52) size_4kib a → Reads (leaf_entry b size_4kib a f) a false
  unfolding leaf_entry size
  small_format a f h =
      rw (from_flags_bits f) (
        word-Reads a _ false (small_word f.writable f.executable f.user_accessible f.cached) h.0
          h.1)

  large_flags :
      (f : Flags)
      → b.union (from_flags b f) huge_page
        ≡ bit_or (flag_bits f.writable f.executable f.user_accessible f.cached) huge_page
  large_flags f =
      laws.union_lem (from_flags b f) huge_page ∙ ap (λ t. bit_or t huge_page) (from_flags_bits f)

  large_word-Reads :
      (a : ℕ) (f : Flags)
      → a % 2 ^ 12 ≡ 0
      → a < 2 ^ 52
      → Reads (set b (some (a, b.union (from_flags b f) huge_page))) a true
  large_word-Reads a f on lt =
      rw (large_flags f)
        (word-Reads a _ true (large_word f.writable f.executable f.user_accessible f.cached) on lt)

  leaf_format :
      (s : FrameSize) (a : ℕ) (f : Flags)
      → Holds (2 ^ 52) s a
      → (huge : Bool) × (2 ≤ level_of s → huge ≡ true) × Reads (leaf_entry b s a f) a huge
  unfolding leaf_entry size
  leaf_format size_4kib a f h = (false, λ le. absurd (omega (arith, le)), small_format a f h)
  leaf_format size_2mib a f h = (true, λ _. refl, large_word-Reads a f (omega (arith, h.0)) h.1)
  leaf_format size_1gib a f h = (true, λ _. refl, large_word-Reads a f (omega (arith, h.0)) h.1)

  -- On x86_64 an entry holds each aligned frame that a `PAddr` can name.
  pub format-IsFormat :
      (limit : ℕ) → limit % 2 ^ 30 ≡ 0 → limit ≤ 2 ^ 52 → IsFormat (format b) limit
  format-IsFormat limit aligned le = record {
    limit_aligned = aligned;
    in_range = le;
    address_zero = empty.address_lem;
    leaf_zero = empty.huge_lem;
    vacant_zero = empty.unused_lem;
    address_table = λ a h. (table_format a (h.0, omega (arith, h.1))).address_lem;
    leaf_table = λ a h. (table_format a (h.0, omega (arith, h.1))).huge_lem;
    vacant_table = λ a h. (table_format a (h.0, omega (arith, h.1))).unused_lem;
    address_leaf = λ s a f h. (leaf_format s a f (h.0, omega (arith, h.1))).2.address_lem;
    leaf_leaf = λ s a f h deep.
        let (huge, is, reads) = leaf_format s a f (h.0, omega (arith, h.1)) in
        reads.huge_lem ∙ is deep;
    vacant_leaf = λ s a f h. (leaf_format s a f (h.0, omega (arith, h.1))).2.unused_lem;
  }
