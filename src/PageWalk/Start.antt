-- ===== src/PageWalk/Start.antt =====
-- A new page table maps nothing.
use poplar.Prelude.{ℕ, ◌≤◌, ◌≡◌, ◌≢◌, sym, ◌∙◌, ap, refl, none, done, arith, put, put_same}
use native.Mathlib.Decide.{ℕ_discrete}
use poplar.PageWalk.{EntryFormat, Tables, zero_table}
use poplar.PageWalk.Impl.{PageTableImpl, top_table, new_tables}
use poplar.PageWalk.Tree.{Pages, vacant, IsTree}
use poplar.PageWalk.Create.{Represents}

abbrev pub no_pages : Pages
no_pages = λ k n. none

module _ (f : EntryFormat) (limit : ℕ) (p : PageTableImpl) {A : Type 0} (Available : A → ℕ → Type 0)
    (top t : ℕ) (pos : 1 ≤ top) (at : top_table f p ≡ done t) (s : Tables A)
    (taken : (c : ℕ) → Available s.frames c → c ≢ t) where
  abbrev level : ℕ → ℕ
  level = put (λ c. 0) t top

  abbrev zeroed : ℕ → ℕ → ℕ
  zeroed = zero_table s.memory t

  only_top : (c : ℕ) → 1 ≤ level c → c ≡ t
  only_top c h = elim (ℕ_discrete c t) [ yes e ↦ e | no m ↦ absurd (ground (arith, m)) ]

  empty-IsTree : IsTree f limit p.physical_base top t level (λ c. 0) no_pages zeroed
  empty-IsTree = record {
    level_root = put_same (λ c. 0) t top;
    number_root = refl;
    bounded = λ c. ground arith;
    entries = λ c i h small. vacant (let e = only_top c h in ground (arith, e)) refl;
    parented = λ c h lt. absurd (
        let e = only_top c h in
        let l : level c ≡ top = ap level e ∙ put_same (λ c. 0) t top in omega (arith, l, lt));
    unique = λ c d h e e'. only_top c h ∙ sym (only_top d (omega (arith, e)));
    closed = λ k n a h. absurd (cc);
  }

  -- With a top table that no available frame is in, `new` leaves memory that holds the tables of no
  -- page.
  pub new_tables-Represents :
      (new_tables f p s.memory ≡ done (zero_table s.memory t))
      × Represents f limit p.physical_base top t Available no_pages
          (record s { memory = zero_table s.memory t })
  unfolding new_tables
  new_tables-Represents = (
    rw at refl,
    record {
      level = level;
      number = λ c. 0;
      tree = empty-IsTree;
      fresh = λ c h. (let ne = taken c h in ground (arith, ne));
    },
  )
