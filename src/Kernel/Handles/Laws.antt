-- ===== src/Kernel/Handles/Laws.antt =====
-- A handle stays with its object, and a new handle is one that no object has.
use poplar.Prelude.{ℕ, ◌-◌, ◌^◌, ◌≤◌, ◌<◌, ◌≡◌, none, some, ◌==◌, if◌then◌else◌, arith}
use poplar.Kernel.Handles.{KernelObject, Handles, add, get}

-- The handles in use are those that the counter has passed; 0 is none of them.
pub record IsValid (h : Handles) : Type 0 where
  pub positive : 1 ≤ h.next
  pub in_range : h.next < 2 ^ 32
  pub unused : (handle : ℕ) → h.next ≤ handle → get handle h ≡ none
  pub no_zero : get 0 h ≡ none

-- As long as the counter has not reached the last `u32`, a handle from `add` is not 0 and was not in
-- use; it finds the object that was added, every other handle finds what it found, and the table
-- stays valid.
pub add-IsValid :
    (object : KernelObject) (h : Handles)
    → IsValid h
    → h.next < 2 ^ 32 - 1
    → IsValid ((add object h).1)
      × (1 ≤ (add object h).0)
      × (get (add object h).0 h ≡ none)
      × ((handle : ℕ)
          → get handle (add object h).1
            ≡ (if handle == (add object h).0 then some object else get handle h))
unfolding add get
add-IsValid object h v room = (
  record {
    positive = omega (arith, v.positive);
    in_range = omega arith;
    unused = λ handle le. let free = v.unused handle (omega arith) in ground arith;
    no_zero = let free = v.no_zero in let pos = v.positive in ground arith;
  },
  v.positive,
  v.unused h.next (omega arith),
  λ handle. ground arith,
)
