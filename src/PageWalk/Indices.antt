-- ===== src/PageWalk/Indices.antt =====
-- The indices of an address and the numbers of its pages.
use poplar.Prelude.{ℕ, ◌+◌, ◌*◌, ◌/◌, ◌%◌, ◌^◌, ◌≡◌, arith}
use poplar.BitField.{GetBits, ReadsBits}
use poplar.PageWalk.{p1_index, p2_index, p3_index, p4_index}

module _ (get_bits : GetBits) (reads : ReadsBits get_bits) (address : ℕ) where
  pub p1_index_lem : p1_index get_bits address ≡ address / 2 ^ 12 % 512
  p1_index_lem = reads address 12 21 (omega arith)

  pub p2_index_lem : p2_index get_bits address ≡ address / 2 ^ 21 % 512
  p2_index_lem = reads address 21 30 (omega arith)

  pub p3_index_lem : p3_index get_bits address ≡ address / 2 ^ 30 % 512
  p3_index_lem = reads address 30 39 (omega arith)

  pub p4_index_lem : p4_index get_bits address ≡ address / 2 ^ 39 % 512
  p4_index_lem = reads address 39 48 (omega arith)

-- The number of the large page and of the small page that an address is in, in four levels.
pub large_number_4 :
    (address : ℕ)
    → (address / 2 ^ 39 % 512 * 512 + address / 2 ^ 30 % 512) * 512 + address / 2 ^ 21 % 512
      ≡ address / 2 ^ 21 % 2 ^ 27
large_number_4 address = omega arith

pub large_number_3 :
    (address : ℕ)
    → address / 2 ^ 30 % 512 * 512 + address / 2 ^ 21 % 512 ≡ address / 2 ^ 21 % 2 ^ 18
large_number_3 address = omega arith

pub small_number :
    (address k : ℕ)
    → address / 2 ^ 21 % 2 ^ 27 * 512 + address / 2 ^ 12 % 512 ≡ address / 2 ^ 12 % 2 ^ 36
small_number address k = omega arith
