-- ===== src/Kernel/Buddy/Address.antt =====
-- Blocks as ranges of addresses: the buddy of a block is the other half of the block above.
use native.Mathlib.Decide.{dec_le}
use native.Mathlib.Nat.{pow-suc, mul-le-mul_right}
use poplar.Prelude.{
  ℕ, suc, ◌+◌, ◌-◌, ◌*◌, ◌/◌, ◌^◌, ◌≤◌, ◌<◌, ◌≡◌, ◌≢◌, ◌∙◌, refl, sym, ap, ◌⊎◌, inl, inr, arith,
  ltb, leb, if◌then◌else◌, done, bit_xor, min, ◌&&◌,
}
use poplar.Prelude.Bits.{two_pow_pos, pow_add, bit_xor_even, bit_xor_odd}
use poplar.Hal.Arch.{Arch, x86_64, riscv64_sv48, riscv64_sv39, physical_limit}
use poplar.Hal.PAddr.Laws.{new_in_range}
use poplar.Kernel.Buddy.{max_order, base_size, block_size, buddy_of}

-- 1 if address `x` lies in the range of `size` bytes from `start`, else 0.
abbrev pub inside : ℕ → ℕ → ℕ → ℕ
inside start size x = if leb start x && ltb x (start + size) then 1 else 0

-- `k` counts the blocks of the order below the block.
pub IsBlock : Arch → ℕ → ℕ → Type 0
IsBlock arch order start = (k : ℕ) × (start ≡ k * block_size order) × (start < physical_limit arch)

block_size-eq-pow : (order : ℕ) → block_size order ≡ 2 ^ (order + 12)
unfolding block_size
block_size-eq-pow order = sym (pow_add order 12)

pub block_size_pos : (order : ℕ) → 1 ≤ block_size order
unfolding block_size
block_size_pos order = omega (arith, two_pow_pos order)

pub block_size-suc : (order : ℕ) → block_size (order + 1) ≡ 2 * block_size order
unfolding block_size
block_size-suc order =
    let e : order + 1 ≡ suc order = omega arith in rw e (omega (arith, pow-suc 2 order))

pub frame-IsBlock :
    (arch : Arch) (k start : ℕ)
    → start ≡ k * base_size
    → start < physical_limit arch
    → IsBlock arch 0 start
unfolding IsBlock block_size
frame-IsBlock arch k start e p = (k, e, p)

pub block_at :
    (arch : Arch) (order start : ℕ)
    → (k : ℕ) × (start ≡ k * block_size order)
    → start < physical_limit arch
    → IsBlock arch order start
unfolding IsBlock
block_at arch order start e p = (e.0, e.1, p)

pub block_size-zero : block_size 0 ≡ base_size
unfolding block_size
block_size-zero = refl

-- The physical addresses are made up of blocks of each order below the largest.
pow_split : (w order : ℕ) → order + 13 ≤ w → 2 ^ w ≡ 2 ^ (w - (order + 13)) * (2 * block_size order)
unfolding block_size
pow_split w order h =
    let e : w ≡ w - (order + 13) + (order + 13) = omega arith in
    let f : 2 * (2 ^ order * 4096) ≡ 2 ^ (order + 13) = omega (arith, pow_add order 13) in
    rw f (ap (λ t. 2 ^ t) e ∙ pow_add (w - (order + 13)) (order + 13))

limit_split :
    (arch : Arch) (order : ℕ)
    → order < max_order
    → (m : ℕ) × (physical_limit arch ≡ m * (2 * block_size order))
limit_split x86_64 order h = (2 ^ (52 - (order + 13)), pow_split 52 order (omega arith))
limit_split riscv64_sv48 order h = (2 ^ (64 - (order + 13)), pow_split 64 order (omega arith))
limit_split riscv64_sv39 order h = (2 ^ (64 - (order + 13)), pow_split 64 order (omega arith))

-- A block and its buddy are the two halves of a block of the order above, which starts at `low`.
pub record IsSplit (arch : Arch) (order low : ℕ) : Type 0 where
  pub parent : IsBlock arch (order + 1) low
  pub first : IsBlock arch order low
  pub second : IsBlock arch order (low + block_size order)
  pub buddy_first : buddy_of arch low order ≡ done (low + block_size order)
  pub buddy_second : buddy_of arch (low + block_size order) order ≡ done low

times_mono : (a b k : ℕ) → a ≤ b → a * k ≤ b * k
times_mono a b k h = mul-le-mul_right k h

odd_times : (q size : ℕ) → (2 * q + 1) * size ≡ 2 * q * size + size
odd_times q size = omega arith

even_below :
    (q m size : ℕ) → 1 ≤ size → 2 * q * size < m * (2 * size) → 2 * q * size + size < m * (2 * size)
even_below q m size one h = elim (dec_le m q) [
  | yes le ↦ absurd (omega (arith, times_mono m q (2 * size) le))
  | no lt ↦ omega (arith, times_mono (q + 1) m (2 * size) (omega arith))
]

buddy_of_lem :
    (arch : Arch) (order block buddy : ℕ)
    → bit_xor block (block_size order) ≡ buddy
    → buddy < physical_limit arch
    → buddy_of arch block order ≡ done buddy
unfolding buddy_of
buddy_of_lem arch order block buddy e p = rw e (rw (new_in_range arch buddy p))

IsSplit-at :
    (arch : Arch) (order q : ℕ)
    → order < max_order
    → 2 * q * block_size order < physical_limit arch
    → IsSplit arch order (2 * q * block_size order)
unfolding IsBlock
IsSplit-at arch order q h p =
    let (m, limit) = limit_split arch order h in
    let above : 2 * q * block_size order + block_size order < physical_limit arch =
      rw limit (even_below q m (block_size order) (block_size_pos order) (rw limit at p)) in
    let odd : (2 * q + 1) * block_size order ≡ 2 * q * block_size order + block_size order =
      odd_times q (block_size order) in
    record {
      parent = (q, omega (arith, ap (λ (t : ℕ). q * t) (block_size-suc order)), p);
      first = (2 * q, refl, p);
      second = (2 * q + 1, sym odd, above);
      buddy_first =
          buddy_of_lem arch order _ _
            (rw (block_size-eq-pow order) (bit_xor_even (order + 12) q) ∙ odd) above;
      buddy_second =
          buddy_of_lem arch order _ _
            (rw (← odd) (rw (block_size-eq-pow order) (bit_xor_odd (order + 12) q))) p;
    }

pub IsBlock-IsSplit :
    (arch : Arch) (order low : ℕ)
    → order < max_order
    → IsBlock arch (order + 1) low
    → IsSplit arch order low
unfolding IsBlock
IsBlock-IsSplit arch order low h (k, e, p) =
    let e' : low ≡ 2 * k * block_size order =
      omega (arith, e, ap (λ (t : ℕ). k * t) (block_size-suc order)) in
    rw e' (IsSplit-at arch order k h (rw e' at p))

-- Every block below the largest order is the first or the second half of a split.
pub data Half (arch : Arch) (order : ℕ) : ℕ → Type 0 where
  first : (low : ℕ) → IsSplit arch order low → Half arch order low
  second :
      (low high : ℕ) → high ≡ low + block_size order → IsSplit arch order low → Half arch order high

parity : (k : ℕ) → (q : ℕ) × ((k ≡ 2 * q) ⊎ (k ≡ 2 * q + 1))
parity k = (k / 2, ground arith)

pub IsBlock-Half :
    (arch : Arch) (order start : ℕ)
    → order < max_order
    → IsBlock arch order start
    → Half arch order start
unfolding IsBlock
IsBlock-Half arch order start h (k, e, p) = go (parity k)
  where
    go : (q : ℕ) × ((k ≡ 2 * q) ⊎ (k ≡ 2 * q + 1)) → Half arch order start
    go (q, inl even) =
        let e' : start ≡ 2 * q * block_size order = e ∙ ap (λ t. t * block_size order) even in
        rw e' (first _ (IsSplit-at arch order q h (rw e' at p)))
    go (q, inr odd) =
        let e' : start ≡ 2 * q * block_size order + block_size order =
          e ∙ ap (λ t. t * block_size order) odd ∙ odd_times q (block_size order) in
        second _ start e' (IsSplit-at arch order q h (omega (arith, e')))

pub done-injective : (b c : ℕ) → done b ≡ done c → b ≡ c
done-injective b c e = cc

-- Being buddies is symmetric, and no block is its own buddy.
pub buddy_of_sym :
    (arch : Arch) (order b c : ℕ)
    → order < max_order
    → IsBlock arch order b
    → buddy_of arch b order ≡ done c
    → (buddy_of arch c order ≡ done b) × (c ≢ b)
buddy_of_sym arch order b c h block e = go b (IsBlock-Half arch order b h block) e
  where
    go :
        (b : ℕ)
        → Half arch order b
        → buddy_of arch b order ≡ done c
        → (buddy_of arch c order ≡ done b) × (c ≢ b)
    go b (first low s) e =
        let e' : c ≡ b + block_size order = done-injective _ _ (sym e ∙ s.buddy_first) in
        (rw e' s.buddy_second, λ same. omega (arith, block_size_pos order))
    go b (second low high t s) e =
        let e' : c ≡ low =
          done-injective _ _ (sym e ∙ ap (λ x. buddy_of arch x order) t ∙ s.buddy_second) in
        (rw (e', t) s.buddy_first, λ same. omega (arith, block_size_pos order))

-- A weight of blocks that is shared out between the two halves when a block is split.
abbrev pub IsAdditive : (ℕ → ℕ → ℕ) → Type 0
IsAdditive w = (order low : ℕ) → w (order + 1) low ≡ w order low + w order (low + block_size order)

-- The buddy of a block, and the block that the two make up.
pub record IsMate (arch : Arch) (order start buddy : ℕ) : Type 0 where
  pub paired : buddy_of arch start order ≡ done buddy
  pub parent : IsBlock arch (order + 1) (min start buddy)
  pub halves :
      (w : ℕ → ℕ → ℕ)
      → IsAdditive w
      → w (order + 1) (min start buddy) ≡ w order start + w order buddy

pub IsBlock-IsMate :
    (arch : Arch) (order start : ℕ)
    → order < max_order
    → IsBlock arch order start
    → (buddy : ℕ) × IsMate arch order start buddy
IsBlock-IsMate arch order start h block = go start (IsBlock-Half arch order start h block)
  where
    go : (start : ℕ) → Half arch order start → (buddy : ℕ) × IsMate arch order start buddy
    go low (first low' s) =
        let e : min low (low + block_size order) ≡ low = omega arith in
        (
          low + block_size order,
          record {
            paired = s.buddy_first;
            parent = rw e s.parent;
            halves = λ w add. rw e (add order low);
          },
        )
    go high (second low high' t s) =
        let e : min high low ≡ low = omega arith in
        (
          low,
          record {
            paired = rw t s.buddy_second;
            parent = rw e s.parent;
            halves = λ w add. rw (e, t) (omega (arith, add order low));
          },
        )
