-- ===== src/HalRiscv/Entry/Laws.antt =====
-- An entry reads as it was set.
use poplar.Prelude.{
  ℕ, ◌+◌, ◌*◌, ◌/◌, ◌%◌, ◌^◌, ◌<◌, ◌≤◌, ◌≡◌, sym, ap, subst, ◌∙◌, refl, Bool, true, false, not,
  none, some, ◌==◌, if◌then◌else◌, done, bit_and, bit_or, arith,
}
use poplar.Prelude.Bits.{bit_and_mask, bit_or_field}
use poplar.BitFlags.{BitFlags, FollowsBits}
use poplar.BitField.{GetBits, ReadsBits}
use poplar.Hal.Arch.{Arch, physical_limit}
use poplar.Hal.PAddr.Laws.{new_in_range}
use poplar.Hal.Frame.{FrameSize, size, size_4kib, size_2mib, size_1gib}
use poplar.Hal.Flags.{Flags}
use poplar.PageWalk.Tree.{Holds, IsFormat}
use poplar.HalRiscv.Entry.{
  valid, readable, writable, executable, user_accessible, accessed, dirty, all_flags, from_flags,
  flags, is_valid, is_leaf, address, set, leaf_entry, table_entry, format,
}

-- The flags that `set` stores for a page.
flag_bits : (w x u : Bool) → ℕ
flag_bits w x u =
    bit_or
      (bit_or
        (bit_or
          (bit_or (bit_or valid (if w then bit_or readable writable else readable))
            (if x then executable else 0))
          (if u then user_accessible else 0))
        valid)
      (bit_or accessed dirty)

leaf_facts :
    (w x u : Bool)
    → (flag_bits w x u < 2 ^ 8)
      × ((bit_and (flag_bits w x u) valid == valid) ≡ true)
      × ((bit_and (flag_bits w x u) (bit_or (bit_or readable writable) executable) == 0) ≡ false)
unfolding flag_bits
leaf_facts w x u = ground arith

aligned : (s : FrameSize) (a : ℕ) → a % size s ≡ 0 → a % 2 ^ 12 ≡ 0
unfolding size
aligned size_4kib a h = h
aligned size_2mib a h = omega (arith, h)
aligned size_1gib a h = omega (arith, h)

module _ (b : BitFlags) (laws : FollowsBits b) where
  leaf_bits :
      (frame : ℕ) (s : FrameSize) (f : Flags)
      → leaf_entry b s frame f
        ≡ bit_or (frame / 2 ^ 2) (flag_bits f.writable f.executable f.user_accessible)
  unfolding leaf_entry from_flags flag_bits set
  leaf_bits frame s f = simp (laws.union_lem)

  table_bits : (frame : ℕ) → table_entry b frame ≡ bit_or (frame / 2 ^ 2) valid
  unfolding table_entry set
  table_bits frame = simp (laws.union_lem)

  flags_lem : (q low : ℕ) → low < 2 ^ 8 → flags b (q * 2 ^ 10 + low) ≡ low
  unfolding flags
  flags_lem q low small =
      let m : (q * 2 ^ 10 + low) % 2 ^ 8 ≡ low = omega arith in
      laws.from_bits_truncate_lem all_flags (q * 2 ^ 10 + low)
      ∙ bit_and_mask 8 (q * 2 ^ 10 + low)
      ∙ m

  module _ (arch : Arch) (wide : 2 ^ 56 ≤ physical_limit arch) (get_bits : GetBits)
      (reads : ReadsBits get_bits) where
    record Reads (word a : ℕ) (leaf : Bool) : Type 0 where
      leaf_lem : is_leaf b word ≡ leaf
      address_lem : address b arch get_bits word ≡ done (some a)
      valid_lem : is_valid b word ≡ true

    word_parts :
        (a q low : ℕ) (leaf : Bool)
        → low < 2 ^ 8
        → (bit_and low valid == valid) ≡ true
        → (not (bit_and low (bit_or (bit_or readable writable) executable) == 0)) ≡ leaf
        → a ≡ q * 2 ^ 12
        → a < 2 ^ 56
        → Reads (q * 2 ^ 10 + low) a leaf
    unfolding is_leaf is_valid address
    word_parts a q low leaf small v l e lt =
        let shown : b.contains (flags b (q * 2 ^ 10 + low)) valid ≡ true =
          ap (λ t. b.contains t valid) (flags_lem q low small) ∙ laws.contains_lem low valid ∙ v in
        let rwx : b.union (b.union readable writable) executable
            ≡ bit_or (bit_or readable writable) executable =
          simp (laws.union_lem) in
        let meets : b.intersects (flags b (q * 2 ^ 10 + low))
              (b.union (b.union readable writable) executable)
            ≡ leaf =
          ap (λ t. b.intersects t (b.union (b.union readable writable) executable))
            (flags_lem q low small)
          ∙ ap (b.intersects low) rwx
          ∙ laws.intersects_lem low (bit_or (bit_or readable writable) executable)
          ∙ l in
        let read : get_bits (q * 2 ^ 10 + low) 10 54 * 2 ^ 12 % 2 ^ 64 ≡ a =
          omega (arith, reads (q * 2 ^ 10 + low) 10 54 (omega arith), e, lt, small) in
        record {
          leaf_lem = rw shown meets;
          address_lem =
              rw shown (rw read (rw (new_in_range arch a (omega (arith, lt, wide))) refl));
          valid_lem = shown;
        }

    word-Reads :
        (a low : ℕ) (leaf : Bool)
        → low < 2 ^ 8
        → (bit_and low valid == valid) ≡ true
        → (not (bit_and low (bit_or (bit_or readable writable) executable) == 0)) ≡ leaf
        → a % 2 ^ 12 ≡ 0
        → a < 2 ^ 56
        → Reads (bit_or (a / 2 ^ 2) low) a leaf
    unfolding is_leaf is_valid address
    word-Reads a low leaf small v l on lt =
        let q = a / 2 ^ 12 in
        let shift : a / 2 ^ 2 ≡ q * 2 ^ 10 = omega arith in
        let whole = ap (λ t. bit_or t low) shift ∙ bit_or_field 10 q low (omega arith) in
        subst (λ w. Reads w a leaf) (sym whole) (word_parts a q low leaf small v l (omega arith) lt)

    empty-Reads :
        (is_leaf b 0 ≡ false) × (address b arch get_bits 0 ≡ done none) × (is_valid b 0 ≡ false)
    unfolding is_leaf is_valid address
    empty-Reads =
        let off : b.contains (flags b 0) valid ≡ false =
          ap (λ t. b.contains t valid) (flags_lem 0 0 (omega arith)) ∙ laws.contains_lem 0 valid in
        (rw off refl, rw off refl, off)

    leaf-Reads :
        (s : FrameSize) (a : ℕ) (f : Flags) → Holds (2 ^ 56) s a → Reads (leaf_entry b s a f) a true
    leaf-Reads s a f h =
        let (small, v, l) = leaf_facts f.writable f.executable f.user_accessible in
        rw (leaf_bits a s f) (
          word-Reads a (flag_bits f.writable f.executable f.user_accessible) true small v (ap not l)
            (aligned s a h.0) h.1)

    table-Reads : (a : ℕ) → Holds (2 ^ 56) size_4kib a → Reads (table_entry b a) a false
    table-Reads a h =
        rw (table_bits a)
          (word-Reads a valid false (omega arith) refl refl (aligned size_4kib a h.0) h.1)

    -- On RISC-V an entry holds each aligned frame below 2^56.
    pub format-IsFormat :
        (limit : ℕ) → limit % 2 ^ 30 ≡ 0 → limit ≤ 2 ^ 56 → IsFormat (format b arch get_bits) limit
    format-IsFormat limit whole le = record {
      limit_aligned = whole;
      in_range = omega (arith, wide);
      address_zero = empty-Reads.1;
      leaf_zero = empty-Reads.0;
      vacant_zero = ap not empty-Reads.2;
      address_table = λ a h. (table-Reads a (h.0, omega (arith, h.1))).address_lem;
      leaf_table = λ a h. (table-Reads a (h.0, omega (arith, h.1))).leaf_lem;
      vacant_table = λ a h. ap not (table-Reads a (h.0, omega (arith, h.1))).valid_lem;
      address_leaf = λ s a f h. (leaf-Reads s a f (h.0, omega (arith, h.1))).address_lem;
      leaf_leaf = λ s a f h deep. (leaf-Reads s a f (h.0, omega (arith, h.1))).leaf_lem;
      vacant_leaf = λ s a f h. ap not (leaf-Reads s a f (h.0, omega (arith, h.1))).valid_lem;
    }
