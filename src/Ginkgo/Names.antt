-- ===== src/Ginkgo/Names.antt =====
-- The comparison of strings in ginkgo.
use poplar.Prelude.{◌≡◌, refl, ap, ◌∙◌, subst, ◌&&◌, ◌==◌, true, false, [], ◌∷◌, arith}
use native.Mathlib.Decide.{ℕ_discrete}
use poplar.Ginkgo.Value.{Name, name_eq}

pub name_eq_refl : (name : Name) → name_eq name name ≡ true
name_eq_refl [] = refl
name_eq_refl (b ∷ bs) = let same : (b == b) ≡ true = ground arith in rw (same) (name_eq_refl bs)

pub name_eq_sound : (a b : Name) → name_eq a b ≡ true → a ≡ b
name_eq_sound [] [] e = refl
name_eq_sound [] (y ∷ b) e = ground (arith, e)
name_eq_sound (x ∷ a) [] e = ground (arith, e)
name_eq_sound (x ∷ a) (y ∷ b) e = elim (ℕ_discrete x y) [
  | yes same ↦
      let head : (x == y) ≡ true = ground (arith, same) in
      let tail : name_eq a b ≡ true = subst (λ t. (t && name_eq a b) ≡ true) head e in
      ap (λ z. z ∷ a) same ∙ ap (λ s. y ∷ s) (name_eq_sound a b tail)
  | no differ ↦
      let head : (x == y) ≡ false = ground (arith, differ) in
      let tail : false ≡ true = subst (λ t. (t && name_eq a b) ≡ true) head e in
      ground (arith, tail)
]
