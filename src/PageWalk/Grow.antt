-- ===== src/PageWalk/Grow.antt =====
-- A new table is put under an empty entry of a tree of page tables: the pages stay as they are.
use poplar.Prelude.{
  ℕ, suc, ◌+◌, ◌*◌, ◌/◌, ◌%◌, ◌≤◌, ◌<◌, ◌≡◌, ◌≢◌, sym, ◌∙◌, ap, subst, none, some, done, arith, put,
  put_same,
}
use native.Mathlib.Decide.{ℕ_discrete}
use poplar.Hal.Frame.{size_4kib}
use poplar.PageWalk.{EntryFormat, pointer, write, zero_table}
use poplar.PageWalk.Tree.{
  Holds, IsFormat, Pages, EntryIs, vacant, page, table, Parent, HasTable, IsTree, table-ne-zero,
}
use poplar.PageWalk.Translate.{vacant_below, no_page}
use poplar.PageWalk.Write.{write_self, write_other}

pub put_other : (store : ℕ → ℕ) (key value x : ℕ) → x ≢ key → put store key value x ≡ store x
put_other store key value x ne = ground arith

module _ {f : EntryFormat} {limit physical_base top root : ℕ} (format : IsFormat f limit)
    {level number : ℕ → ℕ} {pages : Pages} {memory : ℕ → ℕ → ℕ}
    (tree : IsTree f limit physical_base top root level number pages memory) (t i k a c : ℕ)
    (lt : level t ≡ suc k) (pos : 1 ≤ k) (small : i < 512) (empty : memory t i ≡ 0)
    (none_here : pages (suc k) (number t * 512 + i) ≡ none) (holds : Holds limit size_4kib a)
    (points : pointer f physical_base a ≡ done c) (fresh : level c ≡ 0) where
  abbrev level' : ℕ → ℕ
  level' = put level c k

  abbrev number' : ℕ → ℕ
  number' = put number c (number t * 512 + i)

  abbrev memory' : ℕ → ℕ → ℕ
  memory' = zero_table (write memory t i (f.table_entry a)) c

  abbrev IsEntry : (ℕ → ℕ) → (ℕ → ℕ) → ℕ → ℕ → ℕ → Type 0
  IsEntry l n k' n' w = EntryIs f limit physical_base top root l n pages k' n' w

  old_ne : (x : ℕ) → 1 ≤ level x → x ≢ c
  old_ne x p e = absurd (omega (arith, ap level e, fresh))

  t_ne : t ≢ c
  t_ne = old_ne t (omega (arith, lt))

  level_old : (x : ℕ) → x ≢ c → level' x ≡ level x
  level_old x ne = put_other level c k x ne

  number_old : (x : ℕ) → x ≢ c → number' x ≡ number x
  number_old x ne = put_other number c (number t * 512 + i) x ne

  -- The table under the entry has no number or level of before.
  absent : HasTable level number k (number t * 512 + i) → ⊥
  absent h = vacant_below format tree t i k small pos lt empty h

  memory_old : (x j : ℕ) → x ≢ c → (x ≡ t → j ≡ i → ⊥) → memory' x j ≡ memory x j
  memory_old x j ne apart = ground (arith, write_other memory t i (f.table_entry a) x j apart)

  memory_entry : memory' t i ≡ f.table_entry a
  memory_entry = ground (arith, t_ne, write_self memory t i (f.table_entry a))

  memory_new : (j : ℕ) → memory' c j ≡ 0
  memory_new j = ground arith

  keep : (k' n' w : ℕ) → IsEntry level number k' n' w → IsEntry level' number' k' n' w
  keep k' n' w (vacant e none_at) = vacant e none_at
  keep k' n' w (page s b flags ls le h e here) = page s b flags ls le h e here
  keep k' n' w (table b d h e p p1 lc nc none_at) =
      let ne = old_ne d p1 in
      table b d h e p (omega (arith, level_old d ne, p1)) (ap suc (level_old d ne) ∙ lc)
        (number_old d ne ∙ nc) none_at

  new_cell :
      (j : ℕ) → j < 512 → IsEntry level' number' k ((number t * 512 + i) * 512 + j) (memory' c j)
  new_cell j h =
      vacant (memory_new j)
        (no_page format tree k _ (λ (u, lu, nu). absent (u, lu, omega (arith, nu))))

  changed_cell : IsEntry level' number' (suc k) (number t * 512 + i) (memory' t i)
  changed_cell =
      table a c holds memory_entry points (omega (arith, put_same level c k))
        (ap suc (put_same level c k)) (put_same number c (number t * 512 + i)) none_here

  kept_cell :
      (x j : ℕ)
      → x ≢ c
      → 1 ≤ level x
      → j < 512
      → IsEntry level' number' (level x) (number x * 512 + j) (memory' x j)
  kept_cell x j ne p h = elim (ℕ_discrete x t) [
    | yes e ↦ elim (ℕ_discrete j i) [
      | yes e' ↦
          subst (λ y. IsEntry level' number' (level y) (number y * 512 + j) (memory' y j)) (sym e)
            (subst (λ m. IsEntry level' number' (level t) (number t * 512 + m) (memory' t m))
              (sym e')
              (subst (λ l. IsEntry level' number' l (number t * 512 + i) (memory' t i)) (sym lt)
                changed_cell))
      | no m ↦ old (λ _ e'. m e')
    ]
    | no m ↦ old (λ e _. m e)
  ]
    where
      old :
          (x ≡ t → j ≡ i → ⊥) → IsEntry level' number' (level x) (number x * 512 + j) (memory' x j)
      old apart =
          subst (IsEntry level' number' (level x) (number x * 512 + j))
            (sym (memory_old x j ne apart))
            (keep (level x) (number x * 512 + j) (memory x j) (tree.entries x j p h))

  entries' :
      (x j : ℕ)
      → 1 ≤ level' x
      → j < 512
      → IsEntry level' number' (level' x) (number' x * 512 + j) (memory' x j)
  entries' x j p h = elim (ℕ_discrete x c) [
    | yes e ↦
        subst (λ y. IsEntry level' number' (level' y) (number' y * 512 + j) (memory' y j)) (sym e)
          (subst (λ l. IsEntry level' number' l (number' c * 512 + j) (memory' c j))
            (sym (put_same level c k))
            (subst (λ n. IsEntry level' number' k (n * 512 + j) (memory' c j))
              (sym (put_same number c (number t * 512 + i))) (new_cell j h)))
    | no m ↦
        subst (λ l. IsEntry level' number' l (number' x * 512 + j) (memory' x j))
          (sym (level_old x m))
          (subst (λ n. IsEntry level' number' (level x) (n * 512 + j) (memory' x j))
            (sym (number_old x m)) (kept_cell x j m (omega (arith, level_old x m, p)) h))
  ]

  parented' :
      (d : ℕ)
      → 1 ≤ level' d
      → level' d < top
      → Parent f limit physical_base top root level' number' memory' d
  parented' d p lt' = elim (ℕ_discrete d c) [
    | yes e ↦
        let ld : level' d ≡ k = ap level' e ∙ put_same level c k in
        let nd : number' d ≡ number t * 512 + i =
          ap number' e ∙ put_same number c (number t * 512 + i) in
        let at : number' d % 512 ≡ i = omega (arith, nd) in
        record {
          parent = t;
          level_parent = level_old t t_ne ∙ lt ∙ ap suc (sym ld);
          number_parent = number_old t t_ne ∙ omega (arith, nd);
          frame = a;
          holds = holds;
          entry = ap (memory' t) at ∙ memory_entry;
        }
    | no m ↦
        let ld = level_old d m in
        let nd = number_old d m in
        let q = tree.parented d (omega (arith, ld)) (omega (arith, ld)) in
        let ne = old_ne q.parent (omega (arith, q.level_parent)) in
        record {
          parent = q.parent;
          level_parent = level_old q.parent ne ∙ q.level_parent ∙ ap suc (sym ld);
          number_parent = number_old q.parent ne ∙ q.number_parent ∙ ap (λ n. n / 512) (sym nd);
          frame = q.frame;
          holds = q.holds;
          entry =
              ap (λ n. memory' q.parent (n % 512)) nd
              ∙ memory_old q.parent (number d % 512) ne (λ e e'.
                table-ne-zero format tree q.frame q.holds
                  (sym q.entry ∙ ap (λ x. memory x (number d % 512)) e ∙ ap (memory t) e' ∙ empty))
              ∙ q.entry;
        }
  ]

  unique' : (x y : ℕ) → 1 ≤ level' x → level' x ≡ level' y → number' x ≡ number' y → x ≡ y
  unique' x y p el en = elim (ℕ_discrete x c) [
    | yes ex ↦ elim (ℕ_discrete y c) [
      | yes ey ↦ ex ∙ sym ey
      | no my ↦ absurd (
          absent (
            y,
            sym (level_old y my) ∙ sym el ∙ ap level' ex ∙ put_same level c k,
            sym (number_old y my) ∙ sym en ∙ ap number' ex ∙ put_same number c (number t * 512 + i),
          ))
    ]
    | no mx ↦ elim (ℕ_discrete y c) [
      | yes ey ↦ absurd (
          absent (
            x,
            sym (level_old x mx) ∙ el ∙ ap level' ey ∙ put_same level c k,
            sym (number_old x mx) ∙ en ∙ ap number' ey ∙ put_same number c (number t * 512 + i),
          ))
      | no my ↦
          tree.unique x y (omega (arith, level_old x mx, p))
            (sym (level_old x mx) ∙ el ∙ level_old y my)
            (sym (number_old x mx) ∙ en ∙ number_old y my)
    ]
  ]

  bounded' : (x : ℕ) → level' x ≤ top
  bounded' x = elim (ℕ_discrete x c) [
    | yes e ↦ omega (arith, ap level' e, put_same level c k, tree.bounded t, lt)
    | no m ↦ omega (arith, level_old x m, tree.bounded x)
  ]

  closed' :
      (k' n' b : ℕ)
      → pages k' n' ≡ some b
      → (1 ≤ k') × (k' ≤ 2) × HasTable level' number' k' (n' / 512)
  closed' k' n' b h =
      let (p, le, (x, lx, nx)) = tree.closed k' n' b h in
      let ne = old_ne x (omega (arith, lx, p)) in
      (p, le, (x, level_old x ne ∙ lx, number_old x ne ∙ nx))

  pub grow-IsTree : IsTree f limit physical_base top root level' number' pages memory'
  grow-IsTree =
      let ne = old_ne root (omega (arith, tree.level_root, tree.bounded t, lt)) in
      record {
        level_root = level_old root ne ∙ tree.level_root;
        number_root = number_old root ne ∙ tree.number_root;
        bounded = bounded';
        entries = entries';
        parented = parented';
        unique = unique';
        closed = closed';
      }
