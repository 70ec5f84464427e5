-- ===== src/Mulch/Bitmap/Laws.antt =====
-- What `alloc` and `free` of lib/mulch/src/bitmap.rs do to the bits.
pub mod Examples
use poplar.Prelude.{
  ℕ, zero, suc, ◌+◌, ◌-◌, ◌*◌, ◌/◌, ◌%◌, ◌^◌, ◌≤◌, ◌<◌, ◌≡◌, refl, sym, ap, ◌∙◌, subst, true, false,
  Option, none, some, ltb, ◌==◌, if◌then◌else◌, Outcome, done, panic, ◌>>=◌, bit_and, Bool-cases,
  inl, inr, arith,
}
use native.Mathlib.Nat.{add-mul-div_right, mod-add-mod, mod-mod, mod-eq_of_lt}
use native.Mathlib.Decide.{ℕ_discrete}
use poplar.Prelude.Bits.{bit_and_mask, two_pow_pos}
use poplar.BitField.{GetBits, SetBits, ReadsBits}
use poplar.Mulch.Bitmap.{ones, alloc_loop, alloc, free}

-- The bits from `low` up to `high`.
abbrev pub field : ℕ → ℕ → ℕ → ℕ
field value low high = value / 2 ^ low % 2 ^ (high - low)

-- What the crate bit_field documents of `set_bits`: the bits of the range are replaced, the others
-- stay.
abbrev pub ReplacesBits : SetBits → Type 0
ReplacesBits set_bits =
    (value low high bits : ℕ)
    → low ≤ high
    → bits < 2 ^ (high - low)
    → set_bits value low high bits ≡ done (value - field value low high * 2 ^ low + bits * 2 ^ low)

set_field :
    (value i n : ℕ)
    → field value i (i + n) ≡ 0
    → field (value + (2 ^ n - 1) * 2 ^ i) i (i + n) ≡ 2 ^ n - 1
set_field value i n clear =
    let high : i + n - i ≡ n = omega arith in
    let clear' : value / 2 ^ i % 2 ^ n ≡ 0 = ap (λ k. value / 2 ^ i % 2 ^ k) (sym high) ∙ clear in
    let pos = two_pow_pos n in
    ap (λ k. (value + (2 ^ n - 1) * 2 ^ i) / 2 ^ i % 2 ^ k) high
    ∙ ap (λ q. q % 2 ^ n) (add-mul-div_right value (2 ^ n - 1) (two_pow_pos i))
    ∙ sym (mod-add-mod (value / 2 ^ i) (2 ^ n) (2 ^ n - 1))
    ∙ ap (λ q. (q + (2 ^ n - 1)) % 2 ^ n) clear'
    ∙ ap (λ x. x % 2 ^ n) (omega arith)
    ∙ mod-eq_of_lt (omega (arith, pos))

module _ (get_bits : GetBits) (set_bits : SetBits) (reads : ReadsBits get_bits)
    (writes : ReplacesBits set_bits) where
  masked :
      (value index n : ℕ)
      → bit_and (get_bits value index (index + n)) (2 ^ n - 1) ≡ field value index (index + n)
  masked value index n =
      let high : index + n - index ≡ n = omega arith in
      bit_and_mask n (get_bits value index (index + n))
      ∙ ap (λ b. b % 2 ^ n) (reads value index (index + n) (omega arith))
      ∙ ap (λ k. value / 2 ^ index % 2 ^ k % 2 ^ n) high
      ∙ mod-mod (value / 2 ^ index) (2 ^ n)
      ∙ ap (λ k. value / 2 ^ index % 2 ^ k) (sym high)

  -- Setting the bits of a clear field.
  fill_lem :
      (value i n : ℕ)
      → field value i (i + n) ≡ 0
      → set_bits value i (i + n) (2 ^ n - 1) ≡ done (value + (2 ^ n - 1) * 2 ^ i)
  fill_lem value i n clear =
      let high : i + n - i ≡ n = omega arith in
      let pos = two_pow_pos n in
      let fits : 2 ^ n - 1 < 2 ^ (i + n - i) =
        subst (λ k. 2 ^ n - 1 < 2 ^ k) (sym high) (omega (arith, pos)) in
      writes value i (i + n) (2 ^ n - 1) (omega arith) fits
      ∙ ap (λ f. done (value - f * 2 ^ i + (2 ^ n - 1) * 2 ^ i)) clear
      ∙ ap done (omega arith)

  loop_lem :
      (n left index value j : ℕ)
      → index ≤ j
      → j < index + left
      → field value j (j + n) ≡ 0
      → (i : ℕ) × (i ≤ j)
        × (field value i (i + n) ≡ 0)
        × (alloc_loop get_bits set_bits n (2 ^ n - 1) left index value
            ≡ done (some i, value + (2 ^ n - 1) * 2 ^ i))
  loop_lem n zero index value j low high clear = absurd (omega (arith, low, high))
  loop_lem n (suc left) index value j low high clear =
      elim (ℕ_discrete (field value index (index + n)) 0) [
        | yes here ↦
            let test : (bit_and (get_bits value index (index + n)) (2 ^ n - 1) == 0) ≡ true =
              ground (arith, masked value index n, here) in
            (index, low, here, rw (test, fill_lem value index n here) refl)
        | no taken ↦
            let test : (bit_and (get_bits value index (index + n)) (2 ^ n - 1) == 0) ≡ false =
              ground (arith, masked value index n, taken) in
            elim (ℕ_discrete index j) [
              | yes same ↦ absurd (taken (ap (λ k. field value k (k + n)) same ∙ clear))
              | no differ ↦
                  let (i, below, free_field, e) =
                    loop_lem n left (index + 1) value j (omega (arith, low, differ))
                      (omega (arith, high)) clear in
                  (i, below, free_field, rw (test) e)
            ]
      ]

  -- If some field of `n` bits is clear that begins at `j` and ends before the last bit, then `alloc`
  -- of `n` bits, fewer than the width, sets the bits of a clear field that begins at `j` or before
  -- it, and gives its index; and `free` of that field restores the value that there was.
  pub free-alloc_bits :
      (width n value j : ℕ)
      → n < width
      → j + n < width
      → field value j (j + n) ≡ 0
      → (i : ℕ) × (i ≤ j)
        × (field value i (i + n) ≡ 0)
        × (alloc get_bits set_bits width n value ≡ done (some i, value + (2 ^ n - 1) * 2 ^ i))
        × (free get_bits set_bits width i n (value + (2 ^ n - 1) * 2 ^ i) ≡ done value)
  unfolding alloc free ones
  free-alloc_bits width n value j small inside clear =
      let (i, below, free_field, e) =
        loop_lem n (width - n) 0 value j (omega arith) (omega (arith, inside)) clear in
      let shift : ltb n width ≡ true = ground (arith, small) in
      let full = set_field value i n free_field in
      let read : (get_bits (value + (2 ^ n - 1) * 2 ^ i) i (i + n) == 2 ^ n - 1) ≡ true =
        ground (arith, reads (value + (2 ^ n - 1) * 2 ^ i) i (i + n) (omega arith), full) in
      let clear_again =
        writes (value + (2 ^ n - 1) * 2 ^ i) i (i + n) 0 (omega arith) (two_pow_pos (i + n - i)) in
      (
        i,
        below,
        free_field,
        rw (shift) e,
        rw (shift, read)
            (clear_again
              ∙ ap (λ f. done (value + (2 ^ n - 1) * 2 ^ i - f * 2 ^ i + 0 * 2 ^ i)) full
              ∙ ap done (omega arith)),
      )
