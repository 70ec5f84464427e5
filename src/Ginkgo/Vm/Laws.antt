-- ===== src/Ginkgo/Vm/Laws.antt =====
-- Calls, locals and globals of the machine of ginkgo/src/vm.rs.
pub mod Examples
use poplar.Prelude.{
  ℕ, zero, suc, ◌+◌, ◌-◌, ◌≤◌, ◌<◌, ◌≡◌, sym, ◌∙◌, ap, refl, subst, ◌&&◌, true, false, Bool, Option,
  none, some, List, [], ◌∷◌, ◌++◌, length, length-append, replicate, get_elem?, ltb, leb, ◌==◌,
  Bool-cases, ◌⊎◌, inl, inr, if◌then◌else◌, Outcome, done, panic, unwrap, arith,
}
use native.Mathlib.Decide.{dec_le, ℕ_discrete}
use poplar.Ginkgo.Value.{
  Value, unit, obj, Chunk, Name, ginkgo_function, ginkgo_string, as_string, Heap, name_eq,
}
use poplar.Ginkgo.Opcode.{Opcode, as_u8, try_from}
use poplar.Ginkgo.Vm.{
  Vm, CallFrame, Globals, Step, running, failed, assign_to_undefined, step, execute, do_call,
  call_object, do_return, drop, take, resize, insert, from_bottom, do_set_global, read_global,
  set_global,
}
use poplar.Ginkgo.Vm.Jumps.{get_elem?-append_left, get_elem?-append_at, at}
use poplar.Ginkgo.Names.{name_eq_refl, name_eq_sound}
use poplar.Ginkgo.Vm.Stack.{length-resize, resize-append, insert_lem, append_object}

set_global_remove :
    (globals : Globals) (name : Name) (v : Value)
    → globals name ≡ none
    → (other : Name) → set_global name none (set_global name (some v) globals) other ≡ globals other
set_global_remove globals name v e other = elim (Bool-cases (name_eq other name)) [
  | inl same ↦ rw (same) (sym e ∙ ap globals (sym (name_eq_sound other name same)))
  | inr differ ↦ rw (differ) refl
]

-- The machine that has entered a function from `vm`, its stack being `stack`.
abbrev pub entered : Chunk → List Value → ℕ → Vm → Vm
entered chunk stack slot_offset vm = record {
  stack = stack;
  chunk = chunk;
  ip = 0;
  slot_offset = slot_offset;
  call_stack =
      record { chunk = vm.chunk; ip = vm.ip + 2; slot_offset = vm.slot_offset } ∷ vm.call_stack;
  globals = vm.globals;
}

-- The machine that has come back to `vm`, with a stack and globals of its own.
abbrev pub returned : List Value → Globals → Vm → Vm
returned stack globals vm = record vm { stack = stack; ip = vm.ip + 2; globals = globals }

module _ (heap : Heap) where
  call_lem :
      (vm : Vm) (args rest : List Value) (o : ℕ) (name : Name) (arity : ℕ) (chunk : Chunk)
      → heap o ≡ ginkgo_function name arity chunk
      → get_elem? vm.chunk.code vm.ip ≡ some (as_u8 Opcode.call)
      → get_elem? vm.chunk.code (vm.ip + 1) ≡ some (length args)
      → step heap (record vm { stack = args ++ (obj o ∷ rest) })
        ≡ running (entered chunk (args ++ (obj o ∷ rest)) (vm.slot_offset + length rest) vm)
  unfolding step execute do_call call_object
  call_lem vm args rest o name arity chunk e e0 e1 =
      let size = length-append args (obj o ∷ rest) in
      let enough : ltb (length (args ++ (obj o ∷ rest))) (length args + 1) ≡ false =
        ground (arith, size) in
      let below_args : length (args ++ (obj o ∷ rest)) - length args - 1 ≡ length rest =
        omega (arith, size) in
      let second : vm.ip + 1 + 1 ≡ vm.ip + 2 = omega arith in
      rw (e0, e1, enough, get_elem?-append_at args rest (obj o), e, below_args, second) refl

  return_lem :
      (vm : Vm) (v : Value) (s : List Value) (chunk : Chunk) (ip slot : ℕ) (globals : Globals)
      → get_elem? chunk.code ip ≡ some (as_u8 Opcode.return)
      → step heap (record (entered chunk (v ∷ s) slot vm) { ip = ip; globals = globals })
        ≡ running (returned (v ∷ resize slot s) globals vm)
  unfolding step execute do_return
  return_lem vm v s chunk ip slot globals e = rw (e) refl

  -- From the frame at the bottom of the stack, whose slot offset is 0: a call of a function object,
  -- with its arguments above it on the stack, enters the function's code at its first byte, with
  -- the object at the slot offset. A return from there, with a value on top of the stack and any
  -- temporaries between it and the arguments, goes on after the call: the temporaries, the arguments
  -- and the object are gone, and the value stands on the caller's stack, which is as it was.
  pub call_then_return :
      (vm : Vm) (args rest temps : List Value) (o : ℕ) (name : Name) (arity : ℕ) (chunk : Chunk)
      (v : Value) (ip : ℕ) (globals : Globals)
      → vm.slot_offset ≡ 0
      → heap o ≡ ginkgo_function name arity chunk
      → get_elem? vm.chunk.code vm.ip ≡ some (as_u8 Opcode.call)
      → get_elem? vm.chunk.code (vm.ip + 1) ≡ some (length args)
      → get_elem? chunk.code ip ≡ some (as_u8 Opcode.return)
      → (step heap (record vm { stack = args ++ (obj o ∷ rest) })
          ≡ running (entered chunk (args ++ (obj o ∷ rest)) (length rest) vm))
        × (step heap
              (record (entered chunk (v ∷ temps ++ (args ++ (obj o ∷ rest))) (length rest) vm) {
                ip = ip;
                globals = globals;
              })
            ≡ running (returned (v ∷ rest) globals vm))
  call_then_return vm args rest temps o name arity chunk v ip globals bottom e e0 e1 e2 =
      let whole = temps ++ (args ++ (obj o ∷ rest)) in
      let split : whole ≡ (temps ++ (args ++ (obj o ∷ []))) ++ rest =
        append_object o temps args rest in
      (
        call_lem vm args rest o name arity chunk e e0 e1
            ∙ ap (λ k. running (entered chunk (args ++ (obj o ∷ rest)) (k + length rest) vm)) bottom
            ∙ ap (λ k. running (entered chunk (args ++ (obj o ∷ rest)) k vm)) (omega arith),
        return_lem vm v whole chunk ip (length rest) globals e2
            ∙ ap (λ s. running (returned (v ∷ s) globals vm))
                (ap (resize (length rest)) split
                  ∙ resize-append (temps ++ (args ++ (obj o ∷ []))) rest),
      )

  -- From a frame with any slot offset: a call adds the place of the object to the offset of the
  -- caller, so the return leaves a stack that is higher than the caller's was by that offset.
  pub nested_call_leaves :
      (vm : Vm) (args rest s : List Value) (o : ℕ) (name : Name) (arity : ℕ) (chunk : Chunk)
      (v : Value) (ip : ℕ) (globals : Globals)
      → heap o ≡ ginkgo_function name arity chunk
      → get_elem? vm.chunk.code vm.ip ≡ some (as_u8 Opcode.call)
      → get_elem? vm.chunk.code (vm.ip + 1) ≡ some (length args)
      → get_elem? chunk.code ip ≡ some (as_u8 Opcode.return)
      → (slot : ℕ) × (left : List Value) × (step heap (record vm { stack = args ++ (obj o ∷ rest) })
          ≡ running (entered chunk (args ++ (obj o ∷ rest)) slot vm))
        × (step heap (record (entered chunk (v ∷ s) slot vm) { ip = ip; globals = globals })
            ≡ running (returned (v ∷ left) globals vm))
        × (length left ≡ length rest + vm.slot_offset)
  nested_call_leaves vm args rest s o name arity chunk v ip globals e e0 e1 e2 =
      let slot = vm.slot_offset + length rest in
      (
        slot,
        resize slot s,
        call_lem vm args rest o name arity chunk e e0 e1,
        return_lem vm v s chunk ip slot globals e2,
        length-resize slot s ∙ omega arith,
      )

  -- `SetLocal` keeps the value on top of the stack and puts it in its slot, counted from the bottom
  -- of the whole stack, but by insertion: the stack has one value more, and a value of the stack
  -- that stood in that slot or above it is found one slot higher.
  pub set_local_inserts :
      (vm : Vm) (v : Value) (rest : List Value) (slot above : ℕ)
      → get_elem? vm.chunk.code vm.ip ≡ some slot
      → slot ≤ above
      → above < length (v ∷ rest)
      → (s : List Value) × (execute heap Opcode.set_local (record vm { stack = v ∷ rest })
          ≡ running (record vm { stack = s; ip = vm.ip + 1 }))
        × (length s ≡ length (v ∷ rest) + 1)
        × (from_bottom s slot ≡ some v)
        × (from_bottom s (above + 1) ≡ from_bottom (v ∷ rest) above)
  unfolding execute
  set_local_inserts vm v rest slot above e low high =
      let (s, into, size, found, moved) = insert_lem slot above v (v ∷ rest) low high in
      (s, rw (e, into) refl, size, found, moved)

  string_lem :
      (o : ℕ) (name : Name) → heap o ≡ ginkgo_string name → as_string heap (obj o) ≡ some name
  unfolding as_string
  string_lem o name e = rw (e, as_string) refl

  -- A `SetGlobal` whose operand is a constant that names a global with a value goes on, with the
  -- value still on the stack; a `GetGlobal` with that operand then pushes the value, and another
  -- name keeps its own.
  pub get_global-set_global :
      (vm : Vm) (index o : ℕ) (name : Name) (old v : Value) (rest : List Value) (other : Name)
      → get_elem? vm.chunk.code vm.ip ≡ some index
      → get_elem? vm.chunk.constants index ≡ some (obj o)
      → heap o ≡ ginkgo_string name
      → vm.globals name ≡ some old
      → name_eq other name ≡ false
      → (globals : Globals) × (execute heap Opcode.set_global (record vm { stack = v ∷ rest })
          ≡ running (record vm { stack = v ∷ rest; ip = vm.ip + 1; globals = globals }))
        × (execute heap Opcode.get_global (record vm { stack = v ∷ rest; globals = globals })
            ≡ running (record vm { stack = v ∷ (v ∷ rest); ip = vm.ip + 1; globals = globals }))
        × (globals other ≡ vm.globals other)
  unfolding execute do_set_global
  get_global-set_global vm index o name old v rest other e0 e1 e2 e ne = (
    set_global name (some v) vm.globals,
    rw (e0, e1, string_lem o name e2, e) refl,
    rw (e0, e1, string_lem o name e2, name_eq_refl name) refl,
    rw (ne) refl,
  )

  -- A `SetGlobal` whose operand is a constant that names no global returns `AssignToUndefined` with
  -- the name; the stack and every name's value are as before.
  pub set_global_undefined :
      (vm : Vm) (index o : ℕ) (name : Name) (v : Value) (rest : List Value)
      → get_elem? vm.chunk.code vm.ip ≡ some index
      → get_elem? vm.chunk.constants index ≡ some (obj o)
      → heap o ≡ ginkgo_string name
      → vm.globals name ≡ none
      → (globals : Globals) × (execute heap Opcode.set_global (record vm { stack = v ∷ rest })
          ≡ failed
              (assign_to_undefined name)
              (record vm { stack = v ∷ rest; ip = vm.ip + 1; globals = globals }))
        × ((other : Name) → globals other ≡ vm.globals other)
  unfolding execute do_set_global
  set_global_undefined vm index o name v rest e0 e1 e2 e = (
    set_global name none (set_global name (some v) vm.globals),
    rw (e0, e1, string_lem o name e2, e) refl,
    set_global_remove vm.globals name v e,
  )
