-- ===== src/Hal/Flags/Laws.antt =====
-- Coalescing flags: neither the order nor the number of the regions matters.
use poplar.Prelude.{Bool, true, false, ◌&&◌, ◌||◌, ◌≡◌, refl}
use poplar.Hal.Flags.{Flags, default, add}

or_comm : (a b : Bool) → (a || b) ≡ (b || a)
or_comm false false = refl
or_comm false true = refl
or_comm true false = refl
or_comm true true = refl

and_comm : (a b : Bool) → (a && b) ≡ (b && a)
and_comm false false = refl
and_comm false true = refl
and_comm true false = refl
and_comm true true = refl

or_assoc : (a b c : Bool) → ((a || b) || c) ≡ (a || (b || c))
or_assoc false b c = refl
or_assoc true b c = refl

and_assoc : (a b c : Bool) → ((a && b) && c) ≡ (a && (b && c))
and_assoc false b c = refl
and_assoc true b c = refl

or_self : (a : Bool) → (a || a) ≡ a
or_self false = refl
or_self true = refl

and_self : (a : Bool) → (a && a) ≡ a
and_self false = refl
and_self true = refl

-- Coalescing flags is commutative, associative and idempotent, and the default flags change
-- nothing: neither the order nor the number of the regions matters.
pub add_semilattice :
    (a b c : Flags)
    → (add a b ≡ add b a)
      × (add (add a b) c ≡ add a (add b c))
      × (add a a ≡ a)
      × (add default a ≡ a)
add_semilattice a b c = (
  λ i. record {
    writable = or_comm a.writable b.writable i;
    executable = or_comm a.executable b.executable i;
    user_accessible = or_comm a.user_accessible b.user_accessible i;
    cached = and_comm a.cached b.cached i;
  },
  λ i. record {
    writable = or_assoc a.writable b.writable c.writable i;
    executable = or_assoc a.executable b.executable c.executable i;
    user_accessible = or_assoc a.user_accessible b.user_accessible c.user_accessible i;
    cached = and_assoc a.cached b.cached c.cached i;
  },
  λ i. record {
    writable = or_self a.writable i;
    executable = or_self a.executable i;
    user_accessible = or_self a.user_accessible i;
    cached = and_self a.cached i;
  },
  refl,
)
