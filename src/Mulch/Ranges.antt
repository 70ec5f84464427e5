-- ===== src/Mulch/Ranges.antt =====
-- lib/mulch/src/ranges.rs, at the type `usize`: intersecting and splitting half-open ranges.
pub mod Laws
mod Examples
use poplar.Prelude.{ℕ, min, max, Bool, ◌&&◌, Option, none, some, ltb, leb, if◌then◌else◌}

pub record Range : Type 0 where
  pub start : ℕ
  pub end : ℕ

unfoldable pub encompasses : Range → Range → Bool
encompasses self other = leb self.start other.start && leb other.end self.end

unfoldable pub intersects : Range → Range → Bool
intersects self other = ltb self.start other.end && ltb other.start self.end

unfoldable pub intersection : Range → Range → Option Range
unfolding intersects
intersection self other =
    if intersects self other
    then some (record { start = max self.start other.start; end = min self.end other.end })
    else none

unfoldable pub split : Range → Range → Option Range × Option Range × Option Range
unfolding intersection
split self other = (
  if leb other.start self.start
      then none
      else some (record { start = self.start; end = other.start }),
  intersection self other,
  if leb self.end other.end then none else some (record { start = other.end; end = self.end }),
)
