-- ===== src/Ginkgo/Value.antt =====
-- ginkgo/src/vm.rs and ginkgo/src/object.rs: values, objects and chunks of bytecode. An object is
-- never changed and never freed, so a reference to it is a number, and the objects are a function.
use poplar.Prelude.{
  ℕ, Bool, true, false, ◌&&◌, Option, none, some, List, [], ◌∷◌, ◌==◌, Outcome, done, panic,
}
use Prim.Native.Nat.{Ordering}
use poplar.Ginkgo.Integer.{ℤ, cmp}

pub data Value : Type 0 where
  unit : Value
  integer : ℤ → Value
  bool : Bool → Value
  obj : ℕ → Value

pub record Chunk : Type 0 where
  pub code : List ℕ
  pub constants : List Value

-- A string is its bytes.
abbrev pub Name : Type 0
Name = List ℕ

pub data Object : Type 0 where
  ginkgo_string : Name → Object
  ginkgo_function : Name → ℕ → Chunk → Object
  ginkgo_native_function : Name → (List Value → Value) → Object

pub data ObjType : Type 0 where
  string_type function_type native_function_type : ObjType

pub data ValueType : Type 0 where
  unit_type integer_type bool_type : ValueType
  obj_type : ObjType → ValueType

abbrev pub Heap : Type 0
Heap = ℕ → Object

abbrev pub typ_of : Object → ObjType
typ_of (ginkgo_string s) = string_type
typ_of (ginkgo_function name arity chunk) = function_type
typ_of (ginkgo_native_function name func) = native_function_type

abbrev pub name_eq : Name → Name → Bool
name_eq [] [] = true
name_eq [] (b ∷ bs) = false
name_eq (a ∷ as') [] = false
name_eq (a ∷ as') (b ∷ bs) = a == b && name_eq as' bs

-- `object_eq`: functions are `todo!()`.
unfoldable pub object_eq : Object → Object → Outcome Bool
object_eq (ginkgo_string l) (ginkgo_string r) = done (name_eq l r)
object_eq (ginkgo_string l) (ginkgo_function name arity chunk) = done false
object_eq (ginkgo_string l) (ginkgo_native_function name func) = done false
object_eq (ginkgo_function name arity chunk) r = panic
object_eq (ginkgo_native_function name func) r = panic

abbrev pub bool_cmp : Bool → Bool → Ordering
bool_cmp false false = Ordering.eq
bool_cmp false true = Ordering.lt
bool_cmp true false = Ordering.gt
bool_cmp true true = Ordering.eq

module _ (heap : Heap) where
  -- `Value::typ`
  unfoldable pub typ : Value → ValueType
  typ unit = unit_type
  typ (integer i) = integer_type
  typ (bool b) = bool_type
  typ (obj o) = obj_type (typ_of (heap o))

  -- `PartialEq`
  unfoldable pub value_eq : Value → Value → Outcome Bool
  unfolding cmp object_eq
  value_eq (integer l) (integer r) = done (elim (cmp l r) [ Ordering.eq ↦ true | _ ↦ false ])
  value_eq (bool l) (bool r) = done (elim (bool_cmp l r) [ Ordering.eq ↦ true | _ ↦ false ])
  value_eq (obj l) (obj r) = object_eq (heap l) (heap r)
  value_eq l r = done false

  -- `PartialOrd`
  unfoldable pub partial_cmp : Value → Value → Outcome (Option Ordering)
  partial_cmp (integer l) (integer r) = done (some (cmp l r))
  partial_cmp (bool l) (bool r) = done (some (bool_cmp l r))
  partial_cmp (obj l) (obj r) = panic
  partial_cmp l r = done none

  -- `as_obj::<GinkgoString>`, and its text.
  unfoldable pub as_string : Value → Option Name
  as_string (obj o) = elim (heap o) [
    | ginkgo_string s ↦ some s
    | ginkgo_function name arity chunk ↦ none
    | ginkgo_native_function name func ↦ none
  ]
  as_string v = none

-- `Value::as_integer`
unfoldable pub as_integer : Value → Option ℤ
as_integer (integer i) = some i
as_integer v = none
