-- ===== src/Mulch/Ranges/Laws.antt =====
-- Splitting a range by one that it meets partitions it.
use poplar.Prelude.{
  ℕ, ◌+◌, ◌*◌, ◌≤◌, ◌<◌, ◌≡◌, true, ◌&&◌, Option, none, some, ltb, leb, if◌then◌else◌, arith,
}
use poplar.Mulch.Ranges.{Range, intersects, intersection, split}

-- 1 for the values of a range, and 0 for the others.
abbrev pub holds : Range → ℕ → ℕ
holds r x = if leb r.start x && ltb x r.end then 1 else 0

abbrev pub holds_part : Option Range → ℕ → ℕ
holds_part none x = 0
holds_part (some r) x = holds r x

-- Where the ranges intersect, each value of `self` is in exactly one of the three parts that `split`
-- returns, and the parts hold nothing else; the middle part is the one with the values of `other`.
pub split_partition :
    (self other : Range) (x : ℕ)
    → other.start ≤ other.end
    → intersects self other ≡ true
    → (let (before, middle, after) = split self other in
        (holds_part before x + holds_part middle x + holds_part after x ≡ holds self x)
        × (holds_part middle x ≡ holds self x * holds other x))
unfolding split intersection intersects
split_partition self other x k h = (ground arith, ground arith)

-- Where `other` starts after the end of `self`, the part before it also holds the values between
-- the two, which are not in `self`.
pub split_too_much :
    (self other : Range) (x : ℕ)
    → self.start ≤ self.end
    → self.end ≤ x
    → x < other.start
    → (holds_part ((split self other).0) x ≡ 1) × (holds self x ≡ 0)
unfolding split
split_too_much self other x h p q = (ground arith, ground arith)
