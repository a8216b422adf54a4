-- ===== src/Oms/Signed.antt =====
-- oms.go: what `FromManifest` puts into a statement, and what it signs.
use weightkeep.Prelude.{
  Text, ◌≟◌, ≟_iff, ≟_refl, List, [], ◌∷◌, true, false, if_cases, any, Assoc, get, put, get-put,
  All, All-map, Any, Any-map, some, Bool-cases, Result, ok, err, ◌>>=◌, ◌≡◌, ◌⊎◌, inl, inr, refl,
  sym, ap, ◌∙◌, arith,
}
use weightkeep.Manifest.Record.{ManifestFile}
use weightkeep.Manifest.Validity.{AllNew}
use weightkeep.Oms.{Resource, OmsError, ignored, resources_of, signed_from}

-- A file with this path and digest.
abbrev pub Lists : Text → Text → List ManifestFile → Type 0
Lists k d fs = Any (λ f. (f.path ≡ k) × (f.sha256 ≡ d)) fs

-- No path stands twice.
abbrev pub IsDistinct : List ManifestFile → Type 0
IsDistinct [] = Unit
IsDistinct (f ∷ fs) = (¬ Any (λ g. g.path ≡ f.path) fs) × IsDistinct fs

seen_not :
    (seen : List Text) (fs : List ManifestFile) (p : Text)
    → AllNew seen fs
    → any (λ q. q ≟ p) seen ≡ true
    → ¬ Any (λ g. g.path ≡ p) fs
seen_not seen [] p new seen_p h = h
seen_not seen (f ∷ fs) p (fresh, new) seen_p (inl same) =
    absurd (let e = ap (λ t. any (λ q. q ≟ t) seen) same in ground arith)
seen_not seen (f ∷ fs) p (fresh, new) seen_p (inr there) =
    seen_not (f.path ∷ seen) fs p new (ground arith) there

pub new-IsDistinct : (seen : List Text) (fs : List ManifestFile) → AllNew seen fs → IsDistinct fs
new-IsDistinct seen [] new = tt
new-IsDistinct seen (f ∷ fs) (fresh, new) = (
  seen_not (f.path ∷ seen) fs f.path new (ground (arith, ≟_refl f.path)),
  new-IsDistinct (f.path ∷ seen) fs new,
)

pub one_digest :
    (fs : List ManifestFile) (k d e : Text) → IsDistinct fs → Lists k d fs → Lists k e fs → d ≡ e
one_digest [] k d e distinct one two = absurd one
one_digest (f ∷ fs) k d e (fresh, distinct) (inl (_, at_d)) (inl (_, at_e)) = sym at_d ∙ at_e
one_digest (f ∷ fs) k d e (fresh, distinct) (inl (here, _)) (inr two) =
    absurd (fresh (Any-map (λ g (at, _). at ∙ sym here) fs two))
one_digest (f ∷ fs) k d e (fresh, distinct) (inr one) (inl (here, _)) =
    absurd (fresh (Any-map (λ g (at, _). at ∙ sym here) fs one))
one_digest (f ∷ fs) k d e (fresh, distinct) (inr one) (inr two) =
    one_digest fs k d e distinct one two

-- The resources are those of the files that are not excluded.
abbrev pub Made : List ManifestFile → Result OmsError (List Resource) → Type 0
Made fs (err e) = Unit
Made fs (ok rs) =
    All (λ f. ignored f.path ≡ false → Any (λ r. (r.name ≡ f.path) × (r.digest ≡ f.sha256)) rs) fs
    × All (λ r. Lists r.name r.digest fs) rs

pub resources_of-Made : (fs : List ManifestFile) → Made fs (resources_of fs)
unfolding resources_of
resources_of-Made [] = (tt, tt)
resources_of-Made (f ∷ fs) =
    if_cases (Made (f ∷ fs)) (ignored f.path) (resources_of fs) _
      (λ excluded. left_out f fs (resources_of fs) excluded (resources_of-Made fs))
      (λ included.
        if_cases (Made (f ∷ fs)) (f.sha256 ≟ []) _ _ (λ _. tt)
          (λ _. put_in f fs (resources_of fs) (resources_of-Made fs)))
  where
    left_out :
        (f : ManifestFile) (fs : List ManifestFile) (r : Result OmsError (List Resource))
        → ignored f.path ≡ true
        → Made fs r
        → Made (f ∷ fs) r
    left_out f fs (err e) excluded made = tt
    left_out f fs (ok rs) excluded (each, back) =
        ((λ included. absurd (ground arith), each), All-map (λ r there. inr there) rs back)

    put_in :
        (f : ManifestFile) (fs : List ManifestFile) (r : Result OmsError (List Resource))
        → Made fs r
        → Made (f ∷ fs) (r >>= λ rs. ok (record { name = f.path; digest = f.sha256 } ∷ rs))
    put_in f fs (err e) made = tt
    put_in f fs (ok rs) (each, back) = (
      (λ included. inl (refl, refl), All-map (λ g found included. inr (found included)) fs each),
      (inl (refl, refl), All-map (λ r there. inr there) rs back),
    )

pub signed_from-get :
    (rs : List Resource) (signed : Assoc Text) (k d : Text)
    → All (λ r. r.name ≡ k → r.digest ≡ d) rs
    → Any (λ r. r.name ≡ k) rs ⊎ (get k signed ≡ some d)
    → get k (signed_from signed rs) ≡ some d
unfolding signed_from
signed_from-get [] signed k d same (inl there) = absurd there
signed_from-get [] signed k d same (inr at) = at
signed_from-get (r ∷ rs) signed k d (first, same) h = elim (Bool-cases (r.name ≟ k)) [
  | inl is_k ↦
      let e = first ((≟_iff r.name k).0 is_k) in
      signed_from-get rs (put r.name r.digest signed) k d same
        (inr (ground (arith, get-put r.name k r.digest signed)))
  | inr other ↦ signed_from-get rs (put r.name r.digest signed) k d same (elim h [
    | inl (inl here) ↦ absurd (let e = (≟_iff r.name k).1 here in ground arith)
    | inl (inr there) ↦ inl there
    | inr at ↦ inr (ground (arith, get-put r.name k r.digest signed))
  ])
]

pub signed_from-names :
    (rs : List Resource) (signed : Assoc Text) (k d : Text)
    → get k (signed_from signed rs) ≡ some d
    → Any (λ r. r.name ≡ k) rs ⊎ (get k signed ≡ some d)
unfolding signed_from
signed_from-names [] signed k d h = inr h
signed_from-names (r ∷ rs) signed k d h =
    elim (signed_from-names rs (put r.name r.digest signed) k d h) [
      | inl there ↦ inl (inr there)
      | inr at ↦ elim (Bool-cases (r.name ≟ k)) [
        | inl is_k ↦ inl (inl ((≟_iff r.name k).0 is_k))
        | inr other ↦ inr (ground (arith, get-put r.name k r.digest signed))
      ]
    ]
