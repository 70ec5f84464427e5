-- ===== src/PageWalk/Write.antt =====
-- One entry of a tree of page tables is set to a page or to nothing.
use poplar.Prelude.{
  ℕ, ◌+◌, ◌*◌, ◌/◌, ◌%◌, ◌≤◌, ◌<◌, ◌≡◌, ◌≢◌, sym, ◌∙◌, ap, subst, ◌&&◌, Option, some, arith, ◌==◌,
  if◌then◌else◌,
}
use native.Mathlib.Decide.{ℕ_discrete}
use poplar.Hal.Frame.{size_4kib}
use poplar.PageWalk.{EntryFormat, write}
use poplar.PageWalk.Tree.{
  Holds, IsFormat, Pages, EntryIs, vacant, page, table, Parent, HasTable, IsTree,
}

-- The pages with one of them set.
abbrev pub set_page : Pages → ℕ → ℕ → Option ℕ → Pages
set_page pages k n o = λ k' n'. if k' == k && n' == n then o else pages k' n'

pub set_page_self : (pages : Pages) (k n : ℕ) (o : Option ℕ) → set_page pages k n o k n ≡ o
set_page_self pages k n o = ground arith

pub set_page_other :
    (pages : Pages) (k n : ℕ) (o : Option ℕ) (k' n' : ℕ)
    → (k' ≡ k → n' ≡ n → ⊥)
    → set_page pages k n o k' n' ≡ pages k' n'
set_page_other pages k n o k' n' ne = elim (ℕ_discrete k' k) [
  | yes e ↦ elim (ℕ_discrete n' n) [ yes e' ↦ absurd (ne e e') | no m ↦ ground arith ]
  | no m ↦ ground arith
]

pub write_self : (memory : ℕ → ℕ → ℕ) (t i word : ℕ) → write memory t i word t i ≡ word
write_self memory t i word = ground arith

pub write_other :
    (memory : ℕ → ℕ → ℕ) (t i word t' i' : ℕ)
    → (t' ≡ t → i' ≡ i → ⊥)
    → write memory t i word t' i' ≡ memory t' i'
write_other memory t i word t' i' ne = elim (ℕ_discrete t' t) [
  | yes e ↦ elim (ℕ_discrete i' i) [ yes e' ↦ absurd (ne e e') | no m ↦ ground arith ]
  | no m ↦ ground arith
]

module _ {f : EntryFormat} {limit physical_base top root : ℕ} (format : IsFormat f limit)
    {level number : ℕ → ℕ} {pages : Pages} {memory : ℕ → ℕ → ℕ}
    (tree : IsTree f limit physical_base top root level number pages memory) (t i k : ℕ)
    (lt : level t ≡ k) (pos : 1 ≤ k) (low : k ≤ 2) (small : i < 512)
    (free : 2 ≤ k → (a : ℕ) → Holds limit size_4kib a → memory t i ≢ f.table_entry a) (word : ℕ)
    (o : Option ℕ) where
  abbrev pages' : Pages
  pages' = set_page pages k (number t * 512 + i) o

  abbrev memory' : ℕ → ℕ → ℕ
  memory' = write memory t i word

  abbrev IsEntry : Pages → ℕ → ℕ → ℕ → Type 0
  IsEntry p k' n' w = EntryIs f limit physical_base top root level number p k' n' w

  keep :
      (k' n' w : ℕ)
      → (k' ≡ k → n' ≡ number t * 512 + i → ⊥)
      → IsEntry pages k' n' w
      → IsEntry pages' k' n' w
  keep k' n' w ne (vacant e none_here) = vacant e (set_page_other pages k _ o k' n' ne ∙ none_here)
  keep k' n' w ne (page s a flags ls le h e here) =
      page s a flags ls le h e (set_page_other pages k _ o k' n' ne ∙ here)
  keep k' n' w ne (table a c h e p p1 lc nc none_here) =
      table a c h e p p1 lc nc (set_page_other pages k _ o k' n' ne ∙ none_here)

  module _ (new : IsEntry pages' k (number t * 512 + i) word) where
    other_cell :
        (t' i' : ℕ)
        → 1 ≤ level t'
        → i' < 512
        → (t' ≡ t → i' ≡ i → ⊥)
        → IsEntry pages' (level t') (number t' * 512 + i') (memory' t' i')
    other_cell t' i' p h ne =
        let apart : level t' ≡ k → number t' * 512 + i' ≡ number t * 512 + i → ⊥ =
          λ e e'. ne (tree.unique t' t p (e ∙ sym lt) (omega (arith, e'))) (omega (arith, e')) in
        subst (IsEntry pages' (level t') (number t' * 512 + i'))
          (sym (write_other memory t i word t' i' ne))
          (keep (level t') (number t' * 512 + i') (memory t' i') apart (tree.entries t' i' p h))

    entries' :
        (t' i' : ℕ)
        → 1 ≤ level t'
        → i' < 512
        → IsEntry pages' (level t') (number t' * 512 + i') (memory' t' i')
    entries' t' i' p h = elim (ℕ_discrete t' t) [
      | yes e ↦ elim (ℕ_discrete i' i) [
        | yes e' ↦
            subst (λ x. IsEntry pages' (level x) (number x * 512 + i') (memory' x i')) (sym e)
              (subst (λ y. IsEntry pages' (level t) (number t * 512 + y) (memory' t y)) (sym e')
                (subst (IsEntry pages' (level t) (number t * 512 + i))
                  (sym (write_self memory t i word))
                  (subst (λ k'. IsEntry pages' k' (number t * 512 + i) word) (sym lt) new)))
        | no m ↦ other_cell t' i' p h (λ _ e'. m e')
      ]
      | no m ↦ other_cell t' i' p h (λ e _. m e)
    ]

    parented' :
        (c : ℕ)
        → 1 ≤ level c
        → level c < top
        → Parent f limit physical_base top root level number memory' c
    parented' c p lt' =
        let old = tree.parented c p lt' in
        record {
          parent = old.parent;
          level_parent = old.level_parent;
          number_parent = old.number_parent;
          frame = old.frame;
          holds = old.holds;
          entry =
              write_other memory t i word old.parent (number c % 512) (λ e e'.
                free (omega (arith, p, lt, old.level_parent, ap level e)) old.frame old.holds
                  (ap (λ x. memory x i) (sym e) ∙ ap (memory old.parent) (sym e') ∙ old.entry))
              ∙ old.entry;
        }

    closed' :
        (k' n' a : ℕ)
        → pages' k' n' ≡ some a
        → (1 ≤ k') × (k' ≤ 2) × HasTable level number k' (n' / 512)
    closed' k' n' a h = elim (ℕ_discrete k' k) [
      | yes e ↦ elim (ℕ_discrete n' (number t * 512 + i)) [
        | yes e' ↦ (omega (arith, e), omega (arith, e), (t, lt ∙ sym e, omega (arith, e')))
        | no m ↦ tree.closed k' n' a (sym (set_page_other pages k _ o k' n' (λ _ e'. m e')) ∙ h)
      ]
      | no m ↦ tree.closed k' n' a (sym (set_page_other pages k _ o k' n' (λ e _. m e)) ∙ h)
    ]

    pub write-IsTree : IsTree f limit physical_base top root level number pages' memory'
    write-IsTree = record {
      level_root = tree.level_root;
      number_root = tree.number_root;
      bounded = tree.bounded;
      entries = entries';
      parented = parented';
      unique = tree.unique;
      closed = closed';
    }
