-- ===== src/Ginkgo/Integer.antt =====
-- The `i64` and `i16` of ginkgo/src/vm.rs: signed integers over the native numbers.
use poplar.Prelude.{
  ℕ, suc, ◌+◌, ◌-◌, ◌*◌, ◌/◌, ◌%◌, ◌^◌, ◌==◌, ltb, leb, if◌then◌else◌, Outcome, done, panic,
}
use Prim.Native.Nat.{compare, Ordering}

-- `negsuc n` is -(n + 1).
pub data ℤ : Type 0 where
  pos : ℕ → ℤ
  negsuc : ℕ → ℤ

-- The integer p - n.
abbrev pub difference : ℕ → ℕ → ℤ
difference p n = if ltb p n then negsuc (n - p - 1) else pos (p - n)

abbrev pub above : ℤ → ℕ
above (pos n) = n
above (negsuc n) = 0

abbrev pub below : ℤ → ℕ
below (pos n) = 0
below (negsuc n) = suc n

-- A result that leaves the range of `i64` is a panic.
abbrev pub checked : ℤ → Outcome ℤ
checked (pos n) = if ltb n (2 ^ 63) then done (pos n) else panic
checked (negsuc n) = if ltb n (2 ^ 63) then done (negsuc n) else panic

unfoldable pub add : ℤ → ℤ → Outcome ℤ
add a b = checked (difference (above a + above b) (below a + below b))

unfoldable pub subtract : ℤ → ℤ → Outcome ℤ
subtract a b = checked (difference (above a + below b) (below a + above b))

unfoldable pub multiply : ℤ → ℤ → Outcome ℤ
multiply a b =
    checked
      (difference (above a * above b + below a * below b) (above a * below b + below a * above b))

unfoldable pub negate : ℤ → Outcome ℤ
negate a = checked (difference (below a) (above a))

-- Division rounds towards zero, and a division by zero is a panic.
unfoldable pub divide : ℤ → ℤ → Outcome ℤ
divide (pos a) (pos b) = if b == 0 then panic else done (pos (a / b))
divide (pos a) (negsuc b) = checked (difference 0 (a / suc b))
divide (negsuc a) (pos b) = if b == 0 then panic else checked (difference 0 (suc a / b))
divide (negsuc a) (negsuc b) = checked (pos (suc a / suc b))

-- The word of 64 bits that an `i64` is.
abbrev pub to_word : ℤ → ℕ
to_word (pos n) = n
to_word (negsuc n) = 2 ^ 64 - 1 - n

abbrev pub of_word : ℕ → ℤ
of_word w = if ltb w (2 ^ 63) then pos w else negsuc (2 ^ 64 - 1 - w)

unfoldable pub bitwise : (ℕ → ℕ → ℕ) → ℤ → ℤ → ℤ
bitwise op a b = of_word (op (to_word a) (to_word b))

-- `Ord::cmp`
unfoldable pub cmp : ℤ → ℤ → Ordering
cmp a b = compare (above a + below b) (above b + below a)

-- `i16::from_le_bytes`
unfoldable pub from_le_bytes : ℕ → ℕ → ℤ
from_le_bytes b0 b1 =
    let w = b0 + 256 * b1 in if ltb w (2 ^ 15) then pos w else negsuc (2 ^ 16 - 1 - w)

-- `i16::try_from(a - b).unwrap().to_le_bytes()`
unfoldable pub difference_bytes : ℕ → ℕ → Outcome (ℕ × ℕ)
difference_bytes a b =
    if ltb a b
    then (if leb (b - a) (2 ^ 15)
        then done ((2 ^ 16 - (b - a)) % 256, (2 ^ 16 - (b - a)) / 256)
        else panic)
    else if ltb (a - b) (2 ^ 15)
    then done ((a - b) % 256, (a - b) / 256)
    else panic

-- `usize::checked_add_signed(..).unwrap()`
unfoldable pub add_signed : ℕ → ℤ → Outcome ℕ
add_signed ip (pos n) = if ltb (ip + n) (2 ^ 64) then done (ip + n) else panic
add_signed ip (negsuc n) = if ltb n ip then done (ip - suc n) else panic
