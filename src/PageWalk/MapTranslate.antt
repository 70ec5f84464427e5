-- ===== src/PageWalk/MapTranslate.antt =====
-- `translate` after `map`, and `unmap` after `map`, of any page table that keeps a map of pages.
use poplar.Prelude.{
  ℕ, ◌+◌, ◌/◌, ◌%◌, ◌^◌, ◌≡◌, sym, ◌∙◌, ap, subst, refl, Bool, true, false, Option, none, some,
  Outcome, done, arith, ◌==◌, if◌then◌else◌, inl, inr, Bool-cases, ==_iff,
}
use native.Mathlib.Decide.{ℕ_discrete}
use poplar.Hal.Frame.{size_4kib}
use poplar.Hal.PageTable.{Paging, ok}
use poplar.PageWalk.{EntryFormat, Tables}
use poplar.PageWalk.Tree.{Holds, Pages}
use poplar.PageWalk.Translate.{lookup, page_or}
use poplar.PageWalk.Write.{set_page, set_page_self}
use poplar.PageWalk.Create.{HasFrames, Represents}
use poplar.PageWalk.Map.{MapsSmall, mapped, refused}
use poplar.PageWalk.Unmap.{Unmaps, removed, unmapped}

module _ (f : EntryFormat) (limit physical_base top root : ℕ) {A : Type 0}
    (Available : A → ℕ → Type 0) (pages : Pages) where
  -- What a `map` of a small page that succeeds has shown.
  pub record HasMapped (n a : ℕ) (s : Tables A) : Type 0 where
    pub not_small : pages 1 n ≡ none
    pub not_large : pages 2 (n / 512) ≡ none
    pub represents :
        Represents f limit physical_base top root Available (set_page pages 1 n (some a)) s

  pub MapsSmall-ok :
      (n a : ℕ) (s : Tables A) (m : Paging (Tables A))
      → MapsSmall f limit physical_base top root Available pages n a m
      → m ≡ ok s
      → HasMapped n a s
  MapsSmall-ok n a s m (mapped s' e e' r) h =
      let same : s' ≡ s = cc in
      subst (HasMapped n a) same (record { not_small = e; not_large = e'; represents = r })
  MapsSmall-ok n a s m (refused s' why r) h = absurd (cc)

  -- What an `unmap` of a mapped page has shown.
  pub Unmaps-mapped :
      (n a : ℕ) (s : Tables A) (o : Outcome (Option ℕ × (ℕ → ℕ → ℕ)))
      → Unmaps f limit physical_base top root Available pages n s o
      → pages 1 n ≡ some a
      → (memory : ℕ → ℕ → ℕ) × (o ≡ done (some a, memory))
        × Represents f limit physical_base top root Available
            (set_page pages 1 n none)
            (record s { memory = memory })
  Unmaps-mapped n a s o (removed b memory e r) h = (memory, cc, r)
  Unmaps-mapped n a s o (unmapped e) h = absurd (cc)

done_if :
    {A : Type 0} (b : Bool) (x y : A) (z : Outcome A)
    → done y ≡ z
    → done (if b then x else y) ≡ (if b then done x else z)
done_if true x y z e = refl
done_if false x y z e = e

-- A page that is mapped and taken away again.
set_page_back :
    (pages : Pages) (n a m : ℕ)
    → pages 1 n ≡ none
    → set_page (set_page pages 1 n (some a)) 1 n none 1 m ≡ pages 1 m
set_page_back pages n a m e = ground (arith, e)

-- A lookup reads the large page and the small one.
lookup_congruent :
    (pages pages' : Pages) (large small address : ℕ)
    → pages 2 large ≡ pages' 2 large
    → pages 1 small ≡ pages' 1 small
    → lookup pages large small address ≡ lookup pages' large small address
lookup_congruent pages pages' large small address e e' =
    ap (λ o. page_or o (pages 1 small) address) e ∙ ap (λ o. page_or (pages' 2 large) o address) e'

lookup_set :
    (pages : Pages) (n a large small address : ℕ)
    → small / 512 ≡ large
    → pages 2 (n / 512) ≡ none
    → lookup (set_page pages 1 n (some a)) large small address
      ≡ (if small == n then some (a + address % 2 ^ 12) else lookup pages large small address)
lookup_set pages n a large small address agree no_large = elim (ℕ_discrete small n) [
  | yes e ↦
      let at : large ≡ n / 512 = omega (arith, e, agree) in
      rw ((==_iff small n).1 e) (ap (λ o. page_or o (some a) address) (ap (pages 2) at ∙ no_large))
  | no m ↦ elim (Bool-cases (small == n)) [
    | inl same ↦ absurd (m ((==_iff small n).0 same))
    | inr other ↦ rw other refl
  ]
]

module _ (f : EntryFormat) (limit physical_base top root : ℕ) {A : Type 0}
    (Available : A → ℕ → Type 0) (allocate : A → Outcome (ℕ × A)) where
  -- That a page table keeps a map of pages: with the numbers of an address's large page and small
  -- page, and how many tables a `map` may make.
  pub record KeepsPages (large small : ℕ → ℕ) (tables : ℕ)
      (translate : (ℕ → ℕ → ℕ) → ℕ → Outcome (Option ℕ))
      (map : ℕ → ℕ → Tables A → Paging (Tables A))
      (unmap : ℕ → (ℕ → ℕ → ℕ) → Outcome (Option ℕ × (ℕ → ℕ → ℕ))) : Type 0 where
    pub agree : (address : ℕ) → small address / 512 ≡ large address
    pub looks_up :
        (pages : Pages) (s : Tables A)
        → Represents f limit physical_base top root Available pages s
        → (address : ℕ)
        → translate s.memory address ≡ done (lookup pages (large address) (small address) address)
    pub maps :
        (pages : Pages) (s : Tables A)
        → Represents f limit physical_base top root Available pages s
        → (page frame : ℕ) → Holds limit size_4kib frame
        → HasFrames allocate tables s.frames
        → MapsSmall f limit physical_base top root Available pages
            (small page)
            frame
            (map page frame s)
    pub unmaps :
        (pages : Pages) (s : Tables A)
        → Represents f limit physical_base top root Available pages s
        → (page : ℕ) → pages 2 (large page) ≡ none
        → Unmaps f limit physical_base top root Available pages (small page) s (unmap page s.memory)

  module _ {large small : ℕ → ℕ} {tables : ℕ} {translate : (ℕ → ℕ → ℕ) → ℕ → Outcome (Option ℕ)}
      {map : ℕ → ℕ → Tables A → Paging (Tables A)}
      {unmap : ℕ → (ℕ → ℕ → ℕ) → Outcome (Option ℕ × (ℕ → ℕ → ℕ))}
      (keeps : KeepsPages large small tables translate map unmap) (pages : Pages) (s s' : Tables A)
      (r : Represents f limit physical_base top root Available pages s) (page frame : ℕ)
      (holds : Holds limit size_4kib frame) (frames : HasFrames allocate tables s.frames)
      (succeeds : map page frame s ≡ ok s') where
    mapped_page : HasMapped f limit physical_base top root Available pages (small page) frame s'
    mapped_page =
        MapsSmall-ok f limit physical_base top root Available pages (small page) frame s'
          (map page frame s) (keeps.maps pages s r page frame holds frames) succeeds

    pub translate-map_lem :
        (address : ℕ)
        → translate s'.memory address ≡ (
            if small address == small page
            then done (some (frame + address % 2 ^ 12))
            else translate s.memory address)
    translate-map_lem address =
        let m = mapped_page in
        let n = small page in
        keeps.looks_up (set_page pages 1 n (some frame)) s' m.represents address
        ∙ ap done (
            lookup_set pages n frame (large address) (small address) address (keeps.agree address)
              m.not_large)
        ∙ done_if (small address == n) _ _ _ (sym (keeps.looks_up pages s r address))

    pub unmap-map_lem :
        (memory : ℕ → ℕ → ℕ) × (unmap page s'.memory ≡ done (some frame, memory))
        × ((address : ℕ) → translate memory address ≡ translate s.memory address)
    unmap-map_lem =
        let m = mapped_page in
        let n = small page in
        let on : Pages = set_page pages 1 n (some frame) in
        let off : Pages = set_page on 1 n none in
        let (memory, e, r') =
          Unmaps-mapped f limit physical_base top root Available on n frame s'
            (unmap page s'.memory)
            (keeps.unmaps on s' m.represents page
              (ap (pages 2) (sym (keeps.agree page)) ∙ m.not_large))
            (set_page_self pages 1 n (some frame)) in
        (
          memory,
          e,
          λ address.
              keeps.looks_up off (record s' { memory = memory }) r' address
              ∙ ap done (
                  lookup_congruent off pages (large address) (small address) address refl
                    (set_page_back pages n frame (small address) m.not_small))
              ∙ sym (keeps.looks_up pages s r address),
        )
