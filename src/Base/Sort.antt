-- ===== src/Base/Sort.antt =====
-- `std::sort` with a comparison, as a stable insertion sort. (`std::sort` leaves the order of
-- elements that compare equal open; the code relies on the order of the others only.)
use encos_cli.Base.Tests.{if◌then◌else◌, Bool-cases}
use mathlib.Core.Bool.{Bool, true, false}
use mathlib.Core.List.{List, [], ◌∷◌, Perm}
use mathlib.Core.List.Perm
use mathlib.Core.Logic.{inl, inr}
use mathlib.Core.Path.{◌≡◌}

module _ {ℓ} {A : Type ℓ} (less : A → A → Bool) where
  unfoldable pub insert_sorted : A → List A → List A
  insert_sorted x [] = x ∷ []
  insert_sorted x (y ∷ ys) =
      let after = y ∷ insert_sorted x ys in if less y x then after else x ∷ y ∷ ys

  unfoldable pub sort_by : List A → List A
  unfolding insert_sorted
  sort_by [] = []
  sort_by (x ∷ xs) = insert_sorted x (sort_by xs)

  -- No element is less than the one before it.
  abbrev pub IsSorted : List A → Type 0
  IsSorted [] = Unit
  IsSorted (x ∷ []) = Unit
  IsSorted (x ∷ y ∷ l) = (less y x ≡ false) × IsSorted (y ∷ l)

  pub insert_sorted-perm : (x : A) (l : List A) → Perm (insert_sorted x l) (x ∷ l)
  unfolding insert_sorted
  insert_sorted-perm x [] = Perm.refl (x ∷ [])
  insert_sorted-perm x (y ∷ ys) = elim (Bool-cases (less y x)) [
    | inl e ↦ rw e (Perm.trans (Perm.cons y (insert_sorted-perm x ys)) (Perm.swap x y ys))
    | inr e ↦ rw e (Perm.refl (x ∷ y ∷ ys))
  ]

  pub sort_by-perm : (l : List A) → Perm (sort_by l) l
  unfolding sort_by
  sort_by-perm [] = Perm.refl []
  sort_by-perm (x ∷ l) =
      Perm.trans (insert_sorted-perm x (sort_by l)) (Perm.cons x (sort_by-perm l))

module _ {ℓ} {A : Type ℓ} (less : A → A → Bool)
    (asym : (a b : A) → less a b ≡ true → less b a ≡ false) where
  insert_sorted-IsSorted :
      (x : A) (l : List A) → IsSorted less l → IsSorted less (insert_sorted less x l)
  unfolding insert_sorted
  insert_sorted-IsSorted x [] h = tt
  insert_sorted-IsSorted x (y ∷ []) h = elim (Bool-cases (less y x)) [
    | inl e ↦ rw e (asym y x e, tt)
    | inr e ↦ rw e (e, tt)
  ]
  insert_sorted-IsSorted x (y ∷ z ∷ l) (yz, h) = step (insert_sorted-IsSorted x (z ∷ l) h)
    where
      step :
          IsSorted less (insert_sorted less x (z ∷ l))
          → IsSorted less (insert_sorted less x (y ∷ z ∷ l))
      step ih = elim (Bool-cases (less y x)) [
        | inr e ↦ rw e (e, (yz, h))
        | inl e ↦ elim (Bool-cases (less z x)) [
          | inl f ↦ rw (e, f) (yz, rw f at ih)
          | inr f ↦ rw (e, f) (asym y x e, (f, h))
        ]
      ]

  pub sort_by-IsSorted : (l : List A) → IsSorted less (sort_by less l)
  unfolding sort_by
  sort_by-IsSorted [] = tt
  sort_by-IsSorted (x ∷ l) = insert_sorted-IsSorted x (sort_by less l) (sort_by-IsSorted l)
