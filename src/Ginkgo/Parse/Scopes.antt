-- ===== src/Ginkgo/Parse/Scopes.antt =====
-- The scopes of ginkgo/src/parse.rs: what `end_scope` takes back.
use poplar.Prelude.{
  ℕ, zero, suc, ◌+◌, ◌-◌, ◌≤◌, ◌≡◌, refl, ap, ◌∙◌, true, false, List, [], ◌∷◌, ◌++◌, length,
  replicate, ltb, ◌==◌, arith,
}
use poplar.Ginkgo.Value.{Name}
use poplar.Ginkgo.Opcode.{Opcode, as_u8}
use poplar.Ginkgo.Chunk
use poplar.Ginkgo.Parse.{
  Local, Parser, Parse, parsed, pure, ◌>>◌, emit, begin_scope, end_scope, push_local, deeper,
  drop_locals, emit_pops,
}
use poplar.Ginkgo.Parse.Emitted.{append_assoc, append-nil}

-- No local is deeper than the scope.
abbrev pub IsScoped : ℕ → List Local → Type 0
IsScoped depth [] = Unit {0}
IsScoped depth (local ∷ locals) = (local.depth ≤ depth) × IsScoped depth locals

-- The locals that are pushed at a depth, one after the other.
abbrev pub push_locals : List Name → Parse (Unit {0})
push_locals [] = pure tt
push_locals (name ∷ names) = push_local name >> push_locals names

abbrev pushed : ℕ → List Name → List Local → List Local
pushed depth [] locals = locals
pushed depth (name ∷ names) locals =
    pushed depth names (record { name = name; depth = depth } ∷ locals)

scoped_lem : (depth : ℕ) (locals : List Local) → IsScoped depth locals → deeper depth locals ≡ 0
scoped_lem depth [] h = refl
scoped_lem depth (local ∷ locals) (low, h) =
    let ih = scoped_lem depth locals h in
    let shallow : ltb depth local.depth ≡ false = ground (arith, low) in rw (shallow, ih) refl

deeper_lem :
    (depth : ℕ) (names : List Name) (locals : List Local)
    → deeper depth (pushed (depth + 1) names locals) ≡ length names + deeper depth locals
deeper_lem depth [] locals = omega arith
deeper_lem depth (name ∷ names) locals =
    let deep : ltb depth (depth + 1) ≡ true = ground arith in
    deeper_lem depth names (record { name = name; depth = depth + 1 } ∷ locals)
    ∙ rw (deep) (omega arith)

drop_lem :
    (depth n : ℕ) (names : List Name) (locals : List Local)
    → drop_locals (length names + n) (pushed depth names locals) ≡ drop_locals n locals
drop_lem depth n [] locals = ap (λ i. drop_locals i locals) (omega arith)
drop_lem depth n (name ∷ names) locals =
    let more = record { name = name; depth = depth } ∷ locals in
    ap (λ i. drop_locals i (pushed depth names more)) (omega arith)
    ∙ drop_lem depth (suc n) names more

pops_lem :
    (n : ℕ) (s : Parser)
    → emit_pops n s
      ≡ parsed tt (record s {
        current_function = record s.current_function {
          chunk = record s.current_function.chunk {
            code = s.current_function.chunk.code ++ replicate n (as_u8 Opcode.pop);
          };
        };
      })
unfolding emit Chunk.emit Chunk.push
pops_lem zero s = rw (append-nil s.current_function.chunk.code) refl
pops_lem (suc n) s =
    let code = s.current_function.chunk.code in
    let s' = record s {
      current_function = record s.current_function {
        chunk = record s.current_function.chunk { code = code ++ (as_u8 Opcode.pop ∷ []) };
      };
    } in
    pops_lem n s'
    ∙ rw (append_assoc code (as_u8 Opcode.pop ∷ []) (replicate n (as_u8 Opcode.pop))) refl

pushes_lem :
    (names : List Name) (s : Parser)
    → push_locals names s
      ≡ parsed tt (record s {
        current_function = record s.current_function {
          locals = pushed s.current_function.scope_depth names s.current_function.locals;
        };
      })
unfolding push_local
pushes_lem [] s = refl
pushes_lem (name ∷ names) s = pushes_lem names (record s {
  current_function = record s.current_function {
    locals =
        record { name = name; depth = s.current_function.scope_depth } ∷ s.current_function.locals;
  };
})

-- A scope that is begun, in which locals are declared, and that is ended, in a function of which no
-- local is deeper than its scope: one `Pop` is emitted for each local of the scope, and the function
-- has its locals and its depth again.
pub end_scope-push_locals :
    (names : List Name) (s : Parser)
    → IsScoped s.current_function.scope_depth s.current_function.locals
    → (begin_scope >> push_locals names >> end_scope) s
      ≡ parsed tt (record s {
        current_function = record s.current_function {
          chunk = record s.current_function.chunk {
            code = s.current_function.chunk.code ++ replicate (length names) (as_u8 Opcode.pop);
          };
        };
      })
unfolding begin_scope end_scope
end_scope-push_locals names s h =
    let f = s.current_function in
    let depth = f.scope_depth in
    let begun = record s { current_function = record f { scope_depth = depth + 1 } } in
    let pushes = pushes_lem names begun in
    let above : (depth + 1 == 0) ≡ false = ground arith in
    let back : depth + 1 - 1 ≡ depth = omega arith in
    let count : deeper depth (pushed (depth + 1) names f.locals) ≡ length names =
      deeper_lem depth names f.locals
      ∙ ap (λ n. length names + n) (scoped_lem depth f.locals h)
      ∙ omega arith in
    let left : drop_locals (length names) (pushed (depth + 1) names f.locals) ≡ f.locals =
      ap (λ n. drop_locals n (pushed (depth + 1) names f.locals)) (omega arith)
      ∙ drop_lem (depth + 1) 0 names f.locals in
    rw (pushes, above, back, count, left) (pops_lem (length names) s)
