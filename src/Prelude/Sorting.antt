-- ===== src/Prelude/Sorting.antt =====
-- Sorting by a comparison, which stands for `sort.Slice`: insertion sort.
use mathlib.Core.Path.{◌≡◌, refl}
use mathlib.Core.Logic.{inl, inr}
use mathlib.Core.Bool.{Bool, true, false}
use mathlib.Core.List.{List, [], ◌∷◌}
use weightkeep.Prelude.Tests.{if◌then◌else◌, if_cases}
use weightkeep.Prelude.Lists.{All, Any}

module _ {ℓ} {A : Type ℓ} (less : A → A → Bool) where
  unfoldable pub insert_by : A → List A → List A
  insert_by x [] = x ∷ []
  insert_by x (y ∷ ys) = let rest = insert_by x ys in if less y x then y ∷ rest else x ∷ y ∷ ys

  unfoldable pub sort_by : List A → List A
  unfolding insert_by
  sort_by [] = []
  sort_by (x ∷ xs) = insert_by x (sort_by xs)

module _ {ℓ κ} {A : Type ℓ} (P : A → Type κ) (less : A → A → Bool) where
  insert_by-All : (x : A) (xs : List A) → P x → All P xs → All P (insert_by less x xs)
  unfolding insert_by
  insert_by-All x [] px all = (px, tt)
  insert_by-All x (y ∷ ys) px (py, all) =
      if_cases (All P) (less y x) (y ∷ insert_by less x ys) (x ∷ y ∷ ys)
        (λ _. (py, insert_by-All x ys px all)) (λ _. (px, (py, all)))

  pub sort_by-All : (xs : List A) → All P xs → All P (sort_by less xs)
  unfolding sort_by
  sort_by-All [] all = tt
  sort_by-All (x ∷ xs) (px, all) = insert_by-All x (sort_by less xs) px (sort_by-All xs all)

module _ {ℓ} {A : Type ℓ} (P : A → Type 0) (less : A → A → Bool) where
  insert_by-Any : (x : A) (xs : List A) → Any P (x ∷ xs) → Any P (insert_by less x xs)
  unfolding insert_by
  insert_by-Any x [] h = h
  insert_by-Any x (y ∷ ys) h =
      if_cases (Any P) (less y x) (y ∷ insert_by less x ys) (x ∷ y ∷ ys)
        (λ _. elim h [
          | inl here ↦ inr (insert_by-Any x ys (inl here))
          | inr (inl next) ↦ inl next
          | inr (inr there) ↦ inr (insert_by-Any x ys (inr there))
        ])
        (λ _. h)

  pub sort_by-Any : (xs : List A) → Any P xs → Any P (sort_by less xs)
  unfolding sort_by
  sort_by-Any [] h = h
  sort_by-Any (x ∷ xs) (inl here) = insert_by-Any x (sort_by less xs) (inl here)
  sort_by-Any (x ∷ xs) (inr there) = insert_by-Any x (sort_by less xs) (inr (sort_by-Any xs there))

-- Each element is followed by none that is less.
module _ {ℓ} {A : Type ℓ} (less : A → A → Bool) where
  abbrev pub IsSorted : List A → Type 0
  IsSorted [] = Unit
  IsSorted (x ∷ []) = Unit
  IsSorted (x ∷ y ∷ ys) = (less y x ≡ false) × IsSorted (y ∷ ys)

  insert_by-IsSorted :
      ((x y : A) → less x y ≡ true → less y x ≡ false)
      → (x : A) (ys : List A) → IsSorted ys
      → IsSorted (insert_by less x ys)
  unfolding insert_by
  insert_by-IsSorted asym x [] sorted = tt
  insert_by-IsSorted asym x (y ∷ []) sorted =
      if_cases IsSorted (less y x) (y ∷ x ∷ []) (x ∷ y ∷ []) (λ h. (asym y x h, tt)) (λ h. (h, tt))
  insert_by-IsSorted asym x (y ∷ z ∷ zs) (first, sorted) =
      if_cases IsSorted (less y x) (y ∷ insert_by less x (z ∷ zs)) (x ∷ y ∷ z ∷ zs)
        (λ h.
          if_cases (λ l. IsSorted l → IsSorted (y ∷ l)) (less z x) (z ∷ insert_by less x zs)
            (x ∷ z ∷ zs) (λ _ rest. (first, rest)) (λ _ rest. (asym y x h, rest))
            (insert_by-IsSorted asym x (z ∷ zs) sorted))
        (λ h. (h, (first, sorted)))

  sort_by-IsSorted :
      ((x y : A) → less x y ≡ true → less y x ≡ false) → (xs : List A) → IsSorted (sort_by less xs)
  unfolding sort_by
  sort_by-IsSorted asym [] = tt
  sort_by-IsSorted asym (x ∷ xs) =
      insert_by-IsSorted asym x (sort_by less xs) (sort_by-IsSorted asym xs)

  sort_by-fixed : (xs : List A) → IsSorted xs → sort_by less xs ≡ xs
  unfolding sort_by insert_by
  sort_by-fixed [] sorted = refl
  sort_by-fixed (x ∷ []) sorted = refl
  sort_by-fixed (x ∷ y ∷ ys) (first, sorted) = rw (sort_by-fixed (y ∷ ys) sorted, first) refl

  -- To sort twice is to sort once.
  pub sort_by-sort_by :
      ((x y : A) → less x y ≡ true → less y x ≡ false)
      → (xs : List A) → sort_by less (sort_by less xs) ≡ sort_by less xs
  sort_by-sort_by asym xs = sort_by-fixed (sort_by less xs) (sort_by-IsSorted asym xs)
