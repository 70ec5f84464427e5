-- ===== src/Ginkgo/Vm.antt =====
-- ginkgo/src/vm.rs: the machine that runs bytecode. The stack is listed from its top; the machine
-- that `interpret` runs has a chunk.
pub mod Stack
pub mod Laws
pub mod Jumps
pub mod Reaches
use poplar.Prelude.{
  ℕ, zero, suc, ◌+◌, ◌-◌, Bool, true, false, not, Option, none, some, List, [], ◌∷◌, ◌++◌, length,
  replicate, get_elem?, ltb, leb, ◌==◌, if◌then◌else◌, Outcome, done, panic, ◌>>=◌, unwrap, bit_and,
  bit_or, bit_xor,
}
use mathlib.Core.List.{reverse}
use Prim.Native.Nat.{Ordering}
use poplar.Ginkgo.Integer.{
  ℤ, add, subtract, multiply, divide, negate, bitwise, from_le_bytes, add_signed,
}
use poplar.Ginkgo.Value.{
  Value, unit, integer, bool, obj, Chunk, Name, Object, ginkgo_string, ginkgo_function,
  ginkgo_native_function, ValueType, bool_type, obj_type, string_type, Heap, name_eq, typ, value_eq,
  partial_cmp, as_string, as_integer,
}
use poplar.Ginkgo.Opcode.{Opcode, try_from}

pub record CallFrame : Type 0 where
  pub chunk : Chunk
  pub ip : ℕ
  pub slot_offset : ℕ

abbrev pub Globals : Type 0
Globals = Name → Option Value

pub record Vm : Type 0 where
  pub stack : List Value
  pub chunk : Chunk
  pub ip : ℕ
  pub slot_offset : ℕ
  pub call_stack : List CallFrame
  pub globals : Globals

pub data Error : Type 0 where
  cannot_negate_value : ValueType → Error
  no_such_global assign_to_undefined : Name → Error
  wrong_type_for_operation : ValueType → ValueType → Error
  value_not_callable : ValueType → Error
  invalid_opcode_in_stream : ℕ → Error

-- One run of the loop: it goes on, breaks, returns an error or panics.
pub data Step : Type 0 where
  running finished : Vm → Step
  failed : Error → Vm → Step
  crash : Step

abbrev pub after {ℓ} : {A : Type ℓ} → Outcome A → (A → Step) → Step
after (done a) f = f a
after panic f = crash

-- `next`
abbrev pub next : Vm → (ℕ → Vm → Step) → Step
next vm f =
    after (unwrap (get_elem? vm.chunk.code vm.ip)) (λ byte. f byte (record vm { ip = vm.ip + 1 }))

-- `stack.pop().unwrap()` and `stack.push(..)`
abbrev pub pop_from : List Value → Vm → (Value → Vm → Step) → Step
pop_from [] vm f = crash
pop_from (v ∷ rest) vm f = f v (record vm { stack = rest })

abbrev pub pop : Vm → (Value → Vm → Step) → Step
pop vm f = pop_from vm.stack vm f

abbrev pub push : Value → Vm → Vm
push v vm = record vm { stack = v ∷ vm.stack }

-- `stack.get(index)`, counted from the bottom.
abbrev pub from_bottom : List Value → ℕ → Option Value
from_bottom stack index =
    if ltb index (length stack) then get_elem? stack (length stack - 1 - index) else none

abbrev pub drop : ℕ → List Value → List Value
drop zero stack = stack
drop (suc n) [] = []
drop (suc n) (v ∷ stack) = drop n stack

abbrev pub take : ℕ → List Value → List Value
take zero stack = []
take (suc n) [] = []
take (suc n) (v ∷ stack) = v ∷ take n stack

-- `stack.resize(size, Value::Unit)`
unfoldable pub resize : ℕ → List Value → List Value
resize size stack =
    if leb size (length stack)
    then drop (length stack - size) stack
    else replicate (size - length stack) unit ++ stack

-- `stack.insert(index, v)`, counted from the bottom; it panics if the index is above the length.
unfoldable pub insert : ℕ → Value → List Value → Outcome (List Value)
insert index v stack =
    if leb index (length stack)
    then done (take (length stack - index) stack ++ (v ∷ drop (length stack - index) stack))
    else panic

-- `globals.insert(name, value)`
abbrev pub set_global : Name → Option Value → Globals → Globals
set_global name value globals = λ n. if name_eq n name then value else globals n

-- The two bytes after a jump.
abbrev pub jump_operand : Vm → (ℤ → Vm → Step) → Step
jump_operand vm f = next vm (λ b0 vm1. next vm1 (λ b1 vm2. f (from_le_bytes b0 b1) vm2))

abbrev pub jump_by : ℤ → Vm → Step
jump_by offset vm = after (add_signed vm.ip offset) (λ ip. running (record vm { ip = ip }))

-- The conditional jumps, which leave the condition on the stack.
abbrev pub jump_when : Bool → Value → ValueType → ℤ → Vm → Step
jump_when true (bool true) t offset vm = jump_by offset vm
jump_when true (bool false) t offset vm = running vm
jump_when false (bool true) t offset vm = running vm
jump_when false (bool false) t offset vm = jump_by offset vm
jump_when b v t offset vm = failed (wrong_type_for_operation bool_type t) vm

abbrev pub is_lt : Option Ordering → Bool
is_lt (some Ordering.lt) = true
is_lt o = false

abbrev pub is_gt : Option Ordering → Bool
is_gt (some Ordering.gt) = true
is_gt o = false

abbrev pub is_le : Option Ordering → Bool
is_le (some Ordering.lt) = true
is_le (some Ordering.eq) = true
is_le o = false

abbrev pub is_ge : Option Ordering → Bool
is_ge (some Ordering.gt) = true
is_ge (some Ordering.eq) = true
is_ge o = false

abbrev pub integers : (ℤ → ℤ → Outcome ℤ) → Value → Value → Outcome Value
integers op left right = do
  l ← unwrap (as_integer left)
  r ← unwrap (as_integer right)
  result ← op l r
  done (integer result)

module _ (heap : Heap) where
  abbrev pub compared : (Option Ordering → Bool) → Value → Value → Outcome Value
  compared test left right = partial_cmp heap left right >>= λ o. done (bool (test o))

  -- `do_binary_op`, of the opcodes that `interpret` gives it.
  unfoldable pub binary_op : Opcode → Value → Value → Outcome Value
  binary_op Opcode.add l r = integers add l r
  binary_op Opcode.subtract l r = integers subtract l r
  binary_op Opcode.multiply l r = integers multiply l r
  binary_op Opcode.divide l r = integers divide l r
  binary_op Opcode.bitwise_and l r = integers (λ a b. done (bitwise bit_and a b)) l r
  binary_op Opcode.bitwise_or l r = integers (λ a b. done (bitwise bit_or a b)) l r
  binary_op Opcode.bitwise_xor l r = integers (λ a b. done (bitwise bit_xor a b)) l r
  binary_op Opcode.equal l r = value_eq heap l r >>= λ b. done (bool b)
  binary_op Opcode.not_equal l r = value_eq heap l r >>= λ b. done (bool (not b))
  binary_op Opcode.less_than l r = compared is_lt l r
  binary_op Opcode.less_equal l r = compared is_le l r
  binary_op Opcode.greater_than l r = compared is_gt l r
  binary_op Opcode.greater_equal l r = compared is_ge l r
  binary_op op l r = panic

  unfoldable pub do_binary_op : Opcode → Vm → Step
  do_binary_op op vm = pop vm (λ right vm1.
      pop vm1 (λ left vm2. after (binary_op op left right) (λ v. running (push v vm2))))

  -- A constant that names a global.
  abbrev pub name_constant : Vm → (Name → Vm → Step) → Step
  name_constant vm f = next vm (λ index vm1.
      after (unwrap (get_elem? vm1.chunk.constants index))
        (λ v. after (unwrap (as_string heap v)) (λ name. f name vm1)))

  unfoldable pub do_return : List CallFrame → Vm → Step
  do_return [] vm = finished vm
  do_return (frame ∷ frames) vm = pop vm (λ v vm1. running (record {
    stack = v ∷ resize vm1.slot_offset vm1.stack;
    chunk = frame.chunk;
    ip = frame.ip;
    slot_offset = frame.slot_offset;
    call_stack = frames;
    globals = vm1.globals;
  }))

  -- `self.slot_offset += ..`
  unfoldable pub call_object : Object → ℕ → Vm → Step
  call_object (ginkgo_function name arity chunk) arg_count vm = running (record {
    stack = vm.stack;
    chunk = chunk;
    ip = 0;
    slot_offset = vm.slot_offset + (length vm.stack - arg_count - 1);
    call_stack =
        record { chunk = vm.chunk; ip = vm.ip; slot_offset = vm.slot_offset } ∷ vm.call_stack;
    globals = vm.globals;
  })
  call_object (ginkgo_native_function name func) arg_count vm = running (record vm {
    stack = func (reverse (take arg_count vm.stack)) ∷ drop (arg_count + 1) vm.stack;
  })
  call_object (ginkgo_string s) arg_count vm = failed (value_not_callable (obj_type string_type)) vm

  abbrev pub call_value : Value → ℕ → Vm → Step
  call_value (obj o) arg_count vm = call_object (heap o) arg_count vm
  call_value v arg_count vm = failed (value_not_callable (typ heap v)) vm

  unfoldable pub do_call : ℕ → Vm → Step
  unfolding call_object
  do_call arg_count vm =
      if ltb (length vm.stack) (arg_count + 1)
      then crash
      else after (unwrap (get_elem? vm.stack arg_count)) (λ v. call_value v arg_count vm)

  unfoldable pub do_set_global : Name → Vm → Step
  do_set_global name vm = pop vm (λ value vm1. elim (vm1.globals name) [
    | none ↦
        failed (assign_to_undefined name)
          (record vm { globals = set_global name none (set_global name (some value) vm1.globals) })
    | some old ↦ running (record vm { globals = set_global name (some value) vm1.globals })
  ])

  unfoldable pub do_negate : Value → Vm → Step
  do_negate (integer i) vm = after (negate i) (λ n. running (push (integer n) vm))
  do_negate v vm = failed (cannot_negate_value (typ heap v)) vm

  abbrev pub read_global : Option Value → Name → Vm → Step
  read_global none name vm = failed (no_such_global name) vm
  read_global (some v) name vm = running (push v vm)

  unfoldable pub execute : Opcode → Vm → Step
  unfolding do_return do_negate do_set_global do_call
  execute Opcode.return vm = do_return vm.call_stack vm
  execute Opcode.constant vm = next vm (λ index vm1.
      after (unwrap (get_elem? vm1.chunk.constants index)) (λ v. running (push v vm1)))
  execute Opcode.push_true vm = running (push (bool true) vm)
  execute Opcode.push_false vm = running (push (bool false) vm)
  execute Opcode.negate vm = pop vm do_negate
  execute Opcode.pop vm = pop vm (λ v vm1. running vm1)
  execute Opcode.define_global vm = pop vm (λ v vm1. after (unwrap (as_string heap v)) (λ name.
      pop vm1
        (λ value vm2. running (record vm2 { globals = set_global name (some value) vm2.globals }))))
  execute Opcode.get_global vm =
      name_constant vm (λ name vm1. read_global (vm1.globals name) name vm1)
  execute Opcode.set_global vm = name_constant vm do_set_global
  execute Opcode.get_local vm = next vm (λ slot vm1.
      after (unwrap (from_bottom vm1.stack (vm1.slot_offset + slot))) (λ v. running (push v vm1)))
  execute Opcode.set_local vm = next vm (λ slot vm1.
      pop vm1 (λ v vm2.
        after (insert slot v vm1.stack) (λ stack. running (record vm1 { stack = stack }))))
  execute Opcode.jump vm = jump_operand vm jump_by
  execute Opcode.jump_if_true vm =
      jump_operand vm (λ offset vm1. pop vm1 (λ v vm2. jump_when true v (typ heap v) offset vm1))
  execute Opcode.jump_if_false vm =
      jump_operand vm (λ offset vm1. pop vm1 (λ v vm2. jump_when false v (typ heap v) offset vm1))
  execute Opcode.call vm = next vm do_call
  execute Opcode.push_unit vm = running (push unit vm)
  execute op vm = do_binary_op op vm

  unfoldable pub step : Vm → Step
  step vm = next vm (λ opcode vm1. elim (try_from opcode) [
    | none ↦ failed (invalid_opcode_in_stream opcode) vm1
    | some op ↦ execute op vm1
  ])

  -- The loop of `interpret`, for at most `fuel` runs; `none` means that more are needed.
  unfoldable pub run : ℕ → Vm → Option Step
  run zero vm = none
  run (suc fuel) vm = elim (step vm) [
    | running vm' ↦ run fuel vm'
    | finished vm' ↦ some (finished vm')
    | failed e vm' ↦ some (failed e vm')
    | crash ↦ some crash
  ]

-- `interpret` starts a chunk at its first byte, on the stack and the globals that there are.
unfoldable pub start : Chunk → Vm → Vm
start chunk vm = record vm { chunk = chunk; ip = 0 }

-- `Vm::new`. No chunk stands there as the empty one: the machine is started on one before it runs.
abbrev pub new : Vm
new = record {
  stack = [];
  chunk = record { code = []; constants = [] };
  ip = 0;
  slot_offset = 0;
  call_stack = [];
  globals = λ name. none;
}

unfoldable pub define_global : Name → Value → Vm → Vm
define_global name value vm = record vm { globals = set_global name (some value) vm.globals }

-- The new object has the number that is given.
unfoldable pub define_native_fn : Name → ℕ → Vm → Vm
unfolding define_global
define_native_fn name object vm = define_global name (obj object) vm
