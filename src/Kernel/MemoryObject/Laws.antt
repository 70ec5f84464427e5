-- ===== src/Kernel/MemoryObject/Laws.antt =====
-- The memory behind a memory object of kernel/src/object/memory_object.rs.
pub mod Examples
use poplar.Prelude.{
  ℕ, zero, suc, ◌+◌, ◌-◌, ◌^◌, ◌≤◌, ◌<◌, ◌≡◌, refl, sym, ap, ◌∙◌, Bool, true, false, Option, none,
  some, List, [], ◌∷◌, ◌++◌, ltb, ◌==◌, if◌then◌else◌, Outcome, done, Bool-cases, inl, inr, arith,
}
use native.Mathlib.Decide.{dec_lt}
use poplar.Hal.Usize
use poplar.Kernel.MemoryObject.{Inner, MemoryObject, new, extend, size}

abbrev pub total : List (ℕ × ℕ) → ℕ
total [] = 0
total ((start, bytes) ∷ rest) = bytes + total rest

-- The physical address of a byte of the object: its parts stand one behind the other.
abbrev pub locate : List (ℕ × ℕ) → ℕ → Option ℕ
locate [] offset = none
locate ((start, bytes) ∷ rest) offset =
    let behind = locate rest (offset - bytes) in
    if ltb offset bytes then some (start + offset) else behind

-- The parts make up the size of the object.
pub IsBacked : MemoryObject → Type 0
IsBacked object = total object.inner.backing ≡ size object

total-append : (xs ys : List (ℕ × ℕ)) → total (xs ++ ys) ≡ total xs + total ys
total-append [] ys = omega arith
total-append ((start, bytes) ∷ xs) ys = let ih = total-append xs ys in omega (arith, ih)

locate_before :
    (xs ys : List (ℕ × ℕ)) (offset : ℕ)
    → offset < total xs
    → locate (xs ++ ys) offset ≡ locate xs offset
locate_before [] ys offset h = elim h [ ]
locate_before ((start, bytes) ∷ xs) ys offset h = elim (dec_lt offset bytes) [
  | yes low ↦ let test : ltb offset bytes ≡ true = ground (arith, low) in rw (test) refl
  | no high ↦
      let test : ltb offset bytes ≡ false = ground (arith, high) in
      rw (test) (locate_before xs ys (offset - bytes) (omega (arith, h, high)))
]

locate_behind :
    (xs : List (ℕ × ℕ)) (start bytes i : ℕ)
    → i < bytes
    → locate (xs ++ ((start, bytes) ∷ [])) (total xs + i) ≡ some (start + i)
locate_behind [] start bytes i h =
    let none_before : 0 + i ≡ i = omega arith in
    let test : ltb i bytes ≡ true = ground (arith, h) in rw (none_before, test) refl
locate_behind ((first, size) ∷ xs) start bytes i h =
    let test : ltb (size + total xs + i) size ≡ false = ground arith in
    let rest : size + total xs + i - size ≡ total xs + i = omega arith in
    rw (test, rest) (locate_behind xs start bytes i h)

-- `extend` of an object whose parts make up its size, by some bytes that do not take the size out
-- of `usize`: the parts still make up the size, which has grown by these bytes; a byte of the old
-- size stays at its physical address; and the new bytes follow each other from the new backing.
pub extend-IsBacked :
    (object : MemoryObject) (extend_by new_backing offset i : ℕ)
    → IsBacked object
    → 0 < extend_by
    → size object + extend_by < 2 ^ 64
    → offset < size object
    → i < extend_by
    → (object' : MemoryObject) × (extend extend_by new_backing object ≡ done object')
      × IsBacked object'
      × (size object' ≡ size object + extend_by)
      × (locate object'.inner.backing offset ≡ locate object.inner.backing offset)
      × (locate object'.inner.backing (size object + i) ≡ some (new_backing + i))
unfolding extend size Usize.checked_add IsBacked
extend-IsBacked object extend_by new_backing offset i backed some_bytes fits low inside =
    let parts = object.inner.backing in
    let part : List (ℕ × ℕ) = (new_backing, extend_by) ∷ [] in
    let all = total-append parts part in
    let bytes : ltb 0 extend_by ≡ true = ground (arith, some_bytes) in
    let room : ltb (object.inner.size + extend_by) (2 ^ 64) ≡ true = ground (arith, fits) in
    (
      record object {
        inner = record object.inner {
          size = object.inner.size + extend_by;
          backing = parts ++ part;
        };
      },
      rw (bytes, room) refl,
      omega (arith, all, backed),
      refl,
      locate_before parts part offset (omega (arith, low, backed)),
      ap (λ n. locate (parts ++ part) (n + i)) (sym backed)
          ∙ locate_behind parts new_backing extend_by i inside,
    )
