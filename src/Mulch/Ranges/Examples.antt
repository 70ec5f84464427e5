-- ===== src/Mulch/Ranges/Examples.antt =====
-- Ranges of the source's own tests, and two that do not meet.
use poplar.Prelude.{◌+◌, ◌*◌, ◌≡◌, refl, arith}
use poplar.Mulch.Ranges.{Range, split, intersects}
use poplar.Mulch.Ranges.Laws.{holds, holds_part, split_partition, split_too_much}

abbrev thousand : Range
thousand = record { start = 0; end = 1000 }

abbrev fifty : Range
fifty = record { start = 50; end = 100 }

abbrev far : Range
far = record { start = 1500; end = 2000 }

split_partition_example :
    (let (before, middle, after) = split thousand fifty in
      (holds_part before 70 + holds_part middle 70 + holds_part after 70 ≡ holds thousand 70)
      × (holds_part middle 70 ≡ holds thousand 70 * holds fifty 70))
unfolding intersects
split_partition_example = split_partition thousand fifty 70 (omega arith) refl

split_too_much_example : (holds_part ((split thousand far).0) 1200 ≡ 1) × (holds thousand 1200 ≡ 0)
split_too_much_example = split_too_much thousand far 1200 (omega arith) (omega arith) (omega arith)
