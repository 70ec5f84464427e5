-- ===== src/Ginkgo/Vm/Laws/Examples.antt =====
-- The machine of ginkgo/src/vm.rs and the emitters of ginkgo/src/parse.rs at concrete inputs.
use poplar.Prelude.{
  ℕ, ◌≡◌, refl, true, false, none, some, List, [], ◌∷◌, length, if◌then◌else◌, ◌==◌, done, arith,
}
use poplar.Ginkgo.Integer.{pos, add}
use poplar.Ginkgo.Value.{
  Value, as_integer, unit, integer, bool, obj, Chunk, Name, ginkgo_string, ginkgo_function, Heap,
  name_eq,
}
use poplar.Ginkgo.Opcode.{Opcode}
use poplar.Ginkgo.Chunk.{emit_jump, emit_jump_to, patch_jump}
use poplar.Ginkgo.Vm.{
  Vm, resize, Globals, running, finished, failed, do_binary_op, assign_to_undefined, step, execute,
  from_bottom, run, binary_op,
}
use poplar.Ginkgo.Vm.Jumps.{when_true, when_false, at, followed, forward_jump, backward_jump}
use poplar.Ginkgo.Vm.Laws.{
  entered, returned, call_then_return, nested_call_leaves, set_local_inserts, get_global-set_global,
  set_global_undefined,
}

-- A function that returns its argument plus one.
abbrev body : Chunk
body = record { code = 22 ∷ 1 ∷ 1 ∷ 0 ∷ 3 ∷ 0 ∷ []; constants = integer (pos 1) ∷ [] }

abbrev heap : Heap
heap o = if o == 0 then ginkgo_function [] 1 body else ginkgo_string (120 ∷ [])

-- A call with one argument.
abbrev caller : Chunk
caller = record { code = 27 ∷ 1 ∷ 0 ∷ []; constants = integer (pos 41) ∷ obj 1 ∷ [] }

abbrev vm : Vm
vm = record {
  stack = bool true ∷ [];
  chunk = caller;
  ip = 0;
  slot_offset = 0;
  call_stack = [];
  globals = λ name. if name_eq name (120 ∷ []) then some unit else none;
}

abbrev inner : Vm
inner = record vm { slot_offset = 2 }

-- The whole run of a call, from the object and the argument on the stack.
call_run :
    run heap 6 (record vm { stack = integer (pos 41) ∷ (obj 0 ∷ []) })
    ≡ some (finished (record vm { stack = integer (pos 42) ∷ []; ip = 3 }))
unfolding run step execute do_binary_op binary_op as_integer add resize
call_run = refl

call_then_return_example :
    (step heap (record vm { stack = integer (pos 41) ∷ (obj 0 ∷ (unit ∷ [])) })
      ≡ running (entered body (integer (pos 41) ∷ (obj 0 ∷ (unit ∷ []))) 1 vm))
    × (step heap
          (record (entered body
            (integer (pos 42) ∷ (bool true ∷ (integer (pos 41) ∷ (obj 0 ∷ (unit ∷ [])))))
            1
            vm) { ip = 5; globals = vm.globals })
        ≡ running (returned (integer (pos 42) ∷ (unit ∷ [])) vm.globals vm))
call_then_return_example =
    call_then_return heap vm (integer (pos 41) ∷ []) (unit ∷ []) (bool true ∷ []) 0 [] 1 body
      (integer (pos 42)) 5 vm.globals refl refl refl refl refl

nested_call_leaves_example :
    (slot : ℕ) × (left : List Value) × (step heap
        (record inner { stack = integer (pos 41) ∷ (obj 0 ∷ (unit ∷ [])) })
      ≡ running (entered body (integer (pos 41) ∷ (obj 0 ∷ (unit ∷ []))) slot inner))
    × (step heap
          (record (entered body
            (integer (pos 42) ∷ (integer (pos 41) ∷ (obj 0 ∷ (unit ∷ []))))
            slot
            inner) { ip = 5; globals = vm.globals })
        ≡ running (returned (integer (pos 42) ∷ left) vm.globals inner))
    × (length left ≡ 3)
nested_call_leaves_example =
    nested_call_leaves heap inner (integer (pos 41) ∷ []) (unit ∷ [])
      (integer (pos 41) ∷ (obj 0 ∷ (unit ∷ []))) 0 [] 1 body (integer (pos 42)) 5 vm.globals refl
      refl refl refl

set_local_inserts_example :
    (s : List Value) × (execute heap Opcode.set_local
        (record (at caller 1 vm) { stack = bool false ∷ (unit ∷ (obj 0 ∷ [])) })
      ≡ running (record (at caller 1 vm) { stack = s; ip = 2 }))
    × (length s ≡ 4)
    × (from_bottom s 1 ≡ some (bool false))
    × (from_bottom s 2 ≡ some unit)
set_local_inserts_example =
    set_local_inserts heap (at caller 1 vm) (bool false) (unit ∷ (obj 0 ∷ [])) 1 1 refl
      (omega arith) (omega arith)

get_global-set_global_example :
    (globals : Globals) × (execute heap Opcode.set_global
        (record (at caller 1 vm) { stack = bool true ∷ [] })
      ≡ running (record (at caller 1 vm) { stack = bool true ∷ []; ip = 2; globals = globals }))
    × (execute heap Opcode.get_global
          (record (at caller 1 vm) { stack = bool true ∷ []; globals = globals })
        ≡ running (record (at caller 1 vm) {
          stack = bool true ∷ (bool true ∷ []);
          ip = 2;
          globals = globals;
        }))
    × (globals (121 ∷ []) ≡ none)
get_global-set_global_example =
    get_global-set_global heap (at caller 1 vm) 1 1 (120 ∷ []) unit (bool true) [] (121 ∷ []) refl
      refl refl refl refl

abbrev bare : Vm
bare = record (at caller 1 vm) { globals = λ name. none }

set_global_undefined_example :
    (globals : Globals) × (execute heap Opcode.set_global (record bare { stack = bool true ∷ [] })
      ≡ failed
          (assign_to_undefined (120 ∷ []))
          (record bare { stack = bool true ∷ []; ip = 2; globals = globals }))
    × ((other : Name) → globals other ≡ none)
set_global_undefined_example =
    set_global_undefined heap bare 1 1 (120 ∷ []) (bool true) [] refl refl refl refl

forward_jump_example :
    (patched : Chunk) × (patch_jump
        (emit_jump Opcode.jump_if_false caller).0
        (followed (emit_jump Opcode.jump_if_false caller).1 (28 ∷ (18 ∷ [])))
      ≡ done patched)
    × (length patched.code ≡ 8)
    × (step heap (at (followed patched (0 ∷ [])) 3 vm)
        ≡ running (at (followed patched (0 ∷ [])) 6 vm))
forward_jump_example =
    forward_jump heap when_false caller (28 ∷ (18 ∷ [])) (0 ∷ []) vm true [] (omega arith)
      (omega arith) refl

backward_jump_example :
    (written : Chunk) × (emit_jump_to Opcode.jump_if_true 1 caller ≡ done written)
    × (length written.code ≡ 6)
    × (step heap (at (followed written (0 ∷ [])) 3 vm)
        ≡ running (at (followed written (0 ∷ [])) 1 vm))
backward_jump_example =
    backward_jump heap when_true caller 1 (0 ∷ []) vm true [] (omega arith) (omega arith) refl
