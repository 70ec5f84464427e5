-- ===== src/Ginkgo/Lex/PeekingIter.antt =====
-- ginkgo/src/lex.rs, `PeekingIter`: an iterator with two items of lookahead. The iterator that it
-- wraps is the list of the items it has left.
use poplar.Prelude.{◌≡◌, refl, Option, none, some, List, [], ◌∷◌, Outcome, done, panic}

pub record PeekingIter (A : Type 0) : Type 0 where
  pub inner : List A
  pub peek : Option A
  pub peek_next : Option A

module _ {A : Type 0} where
  unfoldable pub new : List A → PeekingIter A
  new inner = record { inner = inner; peek = none; peek_next = none }

  abbrev pub inner_next : List A → Option A × List A
  inner_next [] = (none, [])
  inner_next (a ∷ rest) = (some a, rest)

  -- `Iterator::next`
  unfoldable pub next : PeekingIter A → Option A × PeekingIter A
  next iter = elim iter.peek [
    | some a ↦ (some a, record iter { peek = iter.peek_next; peek_next = none })
    | none ↦ ((inner_next iter.inner).0, record iter { inner = (inner_next iter.inner).1 })
  ]

  unfoldable pub peek : PeekingIter A → Option A × PeekingIter A
  peek iter = elim iter.peek [
    | some a ↦ (some a, iter)
    | none ↦ (
      (inner_next iter.inner).0,
      record iter { peek = (inner_next iter.inner).0; inner = (inner_next iter.inner).1 },
    )
  ]

  abbrev peek_second : PeekingIter A → Option A → Option A × PeekingIter A
  peek_second iter (some b) = (some b, iter)
  peek_second iter none = (
    (inner_next iter.inner).0,
    record iter { peek_next = (inner_next iter.inner).0; inner = (inner_next iter.inner).1 },
  )

  -- It asserts that `peek` has shown an item.
  unfoldable pub peek_next : PeekingIter A → Outcome (Option A × PeekingIter A)
  peek_next iter = elim iter.peek [ none ↦ panic | some a ↦ done (peek_second iter iter.peek_next) ]

  abbrev pub before : Option A → List A → List A
  before none items = items
  before (some a) items = a ∷ items

  -- The items that it has left.
  unfoldable pub items : PeekingIter A → List A
  items iter = before iter.peek (before iter.peek_next iter.inner)

  abbrev pub Behind : Option A → Option A → Type 0
  Behind none none = Unit {0}
  Behind none (some b) = ⊥
  Behind (some a) second = Unit {0}

  -- The second item is held only behind a first.
  unfoldable pub IsValid : PeekingIter A → Type 0
  IsValid iter = Behind iter.peek iter.peek_next

  pub new-IsValid : (inner : List A) → IsValid (new inner) × (items (new inner) ≡ inner)
  unfolding new items IsValid
  new-IsValid inner = (tt, refl)

  -- The result of `peek_next`, and the items that are left after it.
  abbrev pub seen : Outcome (Option A × PeekingIter A) → Outcome (Option A × List A)
  seen panic = panic
  seen (done (item, iter)) = done (item, items iter)

  abbrev pub second_item : List A → Outcome (Option A × List A)
  second_item [] = panic
  second_item (a ∷ rest) = done ((inner_next rest).0, a ∷ rest)

  -- Of a valid iterator:
  abbrev pub Peeks : PeekingIter A → Type 0
  Peeks iter =
      (IsValid (next iter).1
        × ((next iter).0 ≡ (inner_next (items iter)).0)
        × (items (next iter).1 ≡ (inner_next (items iter)).1))
      × (IsValid (peek iter).1
          × ((peek iter).0 ≡ (inner_next (items iter)).0)
          × (items (peek iter).1 ≡ items iter))
      × (seen (peek_next (peek iter).1) ≡ second_item (items iter))

  held_lem :
      (inner : List A) (p q : Option A)
      → Behind p q
      → Peeks (record { inner = inner; peek = p; peek_next = q })
  unfolding next peek peek_next items IsValid
  held_lem inner (some a) (some b) h = ((tt, refl, refl), (tt, refl, refl), refl)
  held_lem [] (some a) none h = ((tt, refl, refl), (tt, refl, refl), refl)
  held_lem (x ∷ xs) (some a) none h = ((tt, refl, refl), (tt, refl, refl), refl)
  held_lem [] none none h = ((tt, refl, refl), (tt, refl, refl), refl)
  held_lem (x ∷ []) none none h = ((tt, refl, refl), (tt, refl, refl), refl)
  held_lem (x ∷ y ∷ xs) none none h = ((tt, refl, refl), (tt, refl, refl), refl)
  held_lem inner none (some b) h = elim h [ ]

  -- An iterator that holds a second item only behind a first stays so. `next` gives the first of
  -- the items that are left, or none, and leaves the others. `peek` gives the same and leaves all
  -- items. `peek_next` after `peek` gives the second of the items, or none, and leaves all items; it
  -- panics if there is no first item.
  pub peeking_lem : (iter : PeekingIter A) → IsValid iter → Peeks iter
  unfolding IsValid
  peeking_lem iter valid = held_lem iter.inner iter.peek iter.peek_next valid
