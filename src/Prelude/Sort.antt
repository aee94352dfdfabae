-- ===== src/Prelude/Sort.antt =====
-- Python's `sorted`: stable, by a total order given as a Boolean test.

use mathlib.Core.Path.{◌≡◌, refl}
use mathlib.Core.Logic.{inl, inr}
use mathlib.Core.List.{List, [], ◌∷◌}
use mathlib.Core.Bool.{Bool, true, false}
use native.Mathlib.Omega.{arith}
use studiohub_mac.Prelude.Tests.{if◌then◌else◌, Bool-cases}
use studiohub_mac.Prelude.Lists.{All, count_if}

module _ {ℓ} {A : Type ℓ} (le : A → A → Bool) where
  -- An element goes before the first that it is not behind.
  unfoldable pub place : A → List A → List A
  place x [] = x ∷ []
  place x (y ∷ ys) = if le x y then x ∷ y ∷ ys else y ∷ place x ys

  unfoldable pub sort : List A → List A
  unfolding place
  sort [] = []
  sort (x ∷ xs) = place x (sort xs)

  -- Each element is in order with all that follow.
  abbrev pub IsSorted : List A → Type ℓ
  IsSorted [] = Unit
  IsSorted (x ∷ xs) = All (λ y. le x y ≡ true) xs × IsSorted xs

  pub count_if-sort : (p : A → Bool) (xs : List A) → count_if p (sort xs) ≡ count_if p xs
  unfolding sort
  count_if-sort p [] = refl
  count_if-sort p (x ∷ xs) = omega (arith, placed x (sort xs), count_if-sort p xs)
    where
      placed : (x : A) (ys : List A) → count_if p (place x ys) ≡ count_if p (x ∷ ys)
      placed x [] = refl
      placed x (y ∷ ys) = ground (arith, placed x ys)

  pub All-sort {κ} : (P : A → Type κ) (xs : List A) → All P xs → All P (sort xs)
  unfolding sort
  All-sort P [] h = h
  All-sort P (x ∷ xs) h = placed x (sort xs) h.0 (All-sort P xs h.1)
    where
      placed : (x : A) (ys : List A) → P x → All P ys → All P (place x ys)
      placed x [] p q = (p, tt)
      placed x (y ∷ ys) p q = elim (Bool-cases (le x y)) [
        | inl e ↦ rw e (p, q)
        | inr e ↦ rw e (q.0, placed x ys p q.1)
      ]

  module _ (total : (x y : A) → le x y ≡ false → le y x ≡ true)
      (trans : (x y z : A) → le x y ≡ true → le y z ≡ true → le x z ≡ true) where
    All-trans :
        (x y : A) (ys : List A)
        → le x y ≡ true
        → All (λ z. le y z ≡ true) ys
        → All (λ z. le x z ≡ true) ys
    All-trans x y [] e h = tt
    All-trans x y (z ∷ zs) e h = (trans x y z e h.0, All-trans x y zs e h.1)

    All-place :
        (w x : A) (ys : List A)
        → le w x ≡ true
        → All (λ z. le w z ≡ true) ys
        → All (λ z. le w z ≡ true) (place x ys)
    unfolding place
    All-place w x [] e h = (e, tt)
    All-place w x (y ∷ ys) e h = elim (Bool-cases (le x y)) [
      | inl q ↦ rw q (e, h)
      | inr q ↦ rw q (h.0, All-place w x ys e h.1)
    ]

    place-IsSorted : (x : A) (ys : List A) → IsSorted ys → IsSorted (place x ys)
    unfolding place
    place-IsSorted x [] s = (tt, tt)
    place-IsSorted x (y ∷ ys) s = elim (Bool-cases (le x y)) [
      | inl e ↦ rw e ((e, All-trans x y ys e s.0), s)
      | inr e ↦ rw e (All-place y x ys (total x y e) s.0, place-IsSorted x ys s.1)
    ]

    pub sort-IsSorted : (xs : List A) → IsSorted (sort xs)
    unfolding sort
    sort-IsSorted [] = tt
    sort-IsSorted (x ∷ xs) = place-IsSorted x (sort xs) (sort-IsSorted xs)
