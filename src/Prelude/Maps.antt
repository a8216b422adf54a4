-- ===== src/Prelude/Maps.antt =====
-- Maps with text keys as association lists: directories, and the tables of the database.
use mathlib.Core.Path.{◌≡◌, subst₂}
use mathlib.Core.Logic.{inl, inr}
use mathlib.Core.Bool.{Bool, true, false}
use mathlib.Core.Option.{Option, none, some}
use mathlib.Core.List.{List, [], ◌∷◌}
use native.Mathlib.Omega.{arith}
use weightkeep.Prelude.Tests.{if◌then◌else◌, Bool-cases}
use weightkeep.Prelude.Strings.{Text, ◌≟◌, ≟_iff, ≟_refl}

abbrev pub Assoc {ℓ} : Type ℓ → Type ℓ
Assoc V = List (Text × V)

module _ {ℓ} {V : Type ℓ} where
  unfoldable pub get : Text → Assoc V → Option V
  get k [] = none
  get k ((j, v) ∷ m) = if j ≟ k then some v else get k m

  unfoldable pub remove : Text → Assoc V → Assoc V
  remove k [] = []
  remove k ((j, v) ∷ m) = let rest = remove k m in if j ≟ k then rest else (j, v) ∷ rest

  unfoldable pub put : Text → V → Assoc V → Assoc V
  unfolding remove
  put k v m = (k, v) ∷ remove k m

  unfoldable pub has_key : Text → Assoc V → Bool
  unfolding get
  has_key k m = elim (get k m) [ none ↦ false | some _ ↦ true ]

  pub get-remove :
      (k j : Text) (m : Assoc V) → get j (remove k m) ≡ (if k ≟ j then none else get j m)
  unfolding get remove
  get-remove k j [] = ground arith
  get-remove k j ((i, v) ∷ m) = ground (arith, get-remove k j m, ≟_iff i k, ≟_iff i j, ≟_iff k j)

  pub get-put :
      (k j : Text) (v : V) (m : Assoc V) → get j (put k v m) ≡ (if k ≟ j then some v else get j m)
  unfolding get put
  get-put k j v m = ground (arith, get-remove k j m)

-- What holds of the new value and of what stands under the other keys holds after a write.
pub get-put_cases {ℓ κ} :
    {V : Type ℓ} (P : Text → V → Type κ) (k j : Text) (v x : V) (m : Assoc V)
    → P k v
    → (get j m ≡ some x → P j x)
    → get j (put k v m) ≡ some x
    → P j x
get-put_cases P k j v x m new old q = elim (Bool-cases (k ≟ j)) [
  | inl same ↦
      let at_key : v ≡ x = ground (arith, get-put k j v m) in
      subst₂ P ((≟_iff k j).0 same) at_key new
  | inr other ↦ old (ground (arith, get-put k j v m))
]

-- No key stands twice, as in a directory or under a primary key.
abbrev pub IsTable {ℓ} : {V : Type ℓ} → Assoc V → Type 0
IsTable [] = Unit
IsTable ((k, v) ∷ m) = (has_key k m ≡ false) × IsTable m

module _ {ℓ} {V : Type ℓ} where
  has_key-remove : (k j : Text) (m : Assoc V) → has_key j m ≡ false → has_key j (remove k m) ≡ false
  unfolding has_key
  has_key-remove k j m h = ground (arith, get-remove k j m)

  pub remove-IsTable : (k : Text) (m : Assoc V) → IsTable m → IsTable (remove k m)
  unfolding remove
  remove-IsTable k [] t = tt
  remove-IsTable k ((j, v) ∷ m) (new, t) =
      ground (arith, remove-IsTable k m t, has_key-remove k j m new)

  pub put-IsTable : (k : Text) (v : V) (m : Assoc V) → IsTable m → IsTable (put k v m)
  unfolding put
  put-IsTable k v m t =
      (unfold has_key in ground (arith, get-remove k k m, ≟_refl k), remove-IsTable k m t)
