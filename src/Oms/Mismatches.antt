-- ===== src/Oms/Mismatches.antt =====
-- oms.go: what is known when `Compare` finds nothing.
use weightkeep.Prelude.{
  Text, ◌≟◌, ≟_iff, List, [], ◌∷◌, ◌++◌, Bool, true, not, if_cases, text_less, insert_by, sort_by,
  Assoc, get, remove, get-remove, All, All-map, Option, none, some, ◌≡◌, ◌⊎◌, inl, inr, refl, ap,
  arith,
}
use weightkeep.Manifest.Record.{Manifest, ManifestFile}
use weightkeep.Oms.{
  Statement, Mismatch, is_ignored, signed_from, judge_signed, judge, judge_files, left_over,
  compare_signed,
}

not_empty : {A : Type 0} (xs : List A) (x : A) → ¬ (xs ++ x ∷ [] ≡ [])
not_empty [] x h = absurd (cc)
not_empty (y ∷ xs) x h = absurd (cc)

-- Only the empty list sorts to the empty list.
insert_by-not_empty :
    {A : Type 0} (less : A → A → Bool) (x : A) (xs : List A) → ¬ (insert_by less x xs ≡ [])
unfolding insert_by
insert_by-not_empty less x [] h = absurd (cc)
insert_by-not_empty less x (y ∷ ys) h =
    if_cases (λ l. ¬ (l ≡ [])) (less y x) (y ∷ insert_by less x ys) (x ∷ y ∷ ys) (λ _ e. cc)
      (λ _ e. cc) h

sort_by-empty : {A : Type 0} (less : A → A → Bool) (xs : List A) → sort_by less xs ≡ [] → xs ≡ []
unfolding sort_by
sort_by-empty less [] h = refl
sort_by-empty less (x ∷ xs) h = absurd (insert_by-not_empty less x (sort_by less xs) h)

-- The file is left out, or is signed with its digest.
abbrev pub IsSigned : List Text → Assoc Text → ManifestFile → Type 0
IsSigned ignore signed f = (is_ignored ignore f.path ≡ true) ⊎ (get f.path signed ≡ some f.sha256)

judge_signed-clean :
    (f : ManifestFile) (o : Option Text) (out : List Mismatch)
    → judge_signed f o out ≡ []
    → (out ≡ []) × (o ≡ some f.sha256)
unfolding judge_signed
judge_signed-clean f none out h = absurd (not_empty out _ h)
judge_signed-clean f (some want) out h =
    if_cases (λ l. l ≡ [] → (out ≡ []) × (some want ≡ some f.sha256)) (not (want ≟ f.sha256)) _ out
      (λ _ e. absurd (not_empty out _ e))
      (λ same e. (e, ap some ((≟_iff want f.sha256).0 (ground arith)))) h

judge-clean :
    (ignore : List Text) (f : ManifestFile) (signed : Assoc Text) (out : List Mismatch)
    → judge ignore f signed out ≡ []
    → (out ≡ []) × IsSigned ignore signed f
unfolding judge
judge-clean ignore f signed out =
    if_cases (λ l. l ≡ [] → (out ≡ []) × IsSigned ignore signed f) (is_ignored ignore f.path) out _
      (λ left_out h. (h, inl left_out))
      (λ _ h.
        let (before, found) = judge_signed-clean f (get f.path signed) out h in (before, inr found))

-- Some file has the path.
abbrev pub HasPath : Text → List ManifestFile → Type 0
HasPath k [] = ⊥
HasPath k (f ∷ fs) = (f.path ≡ k) ⊎ HasPath k fs

before_remove :
    (k j : Text) (signed : Assoc Text) (d : Text)
    → get j (remove k signed) ≡ some d
    → get j signed ≡ some d
before_remove k j signed d h = ground (arith, get-remove k j signed)

after_remove :
    (k j : Text) (signed : Assoc Text) (d : Text)
    → get j signed ≡ some d
    → (k ≡ j) ⊎ (get j (remove k signed) ≡ some d)
after_remove k j signed d h = ground (arith, get-remove k j signed, ≟_iff k j)

judge_files-clean :
    (ignore : List Text) (fs : List ManifestFile) (signed : Assoc Text) (out : List Mismatch)
    → (judge_files ignore fs signed out).1 ≡ []
    → (out ≡ []) × All (IsSigned ignore signed) fs
unfolding judge_files
judge_files-clean ignore [] signed out h = (h, tt)
judge_files-clean ignore (f ∷ fs) signed out h =
    let (now, rest) =
      judge_files-clean ignore fs (remove f.path signed) (judge ignore f signed out) h in
    let (before, first) = judge-clean ignore f signed out now in
    (
      before,
      (
        first,
        All-map
            (λ g found. elim found [
              | inl left_out ↦ inl left_out
              | inr at ↦ inr (before_remove f.path g.path signed g.sha256 at)
            ])
            fs rest,
      ),
    )

-- What is left at the end are the signed names that no file has.
judge_files-left :
    (ignore : List Text) (fs : List ManifestFile) (signed : Assoc Text) (out : List Mismatch)
    (k d : Text)
    → get k signed ≡ some d
    → HasPath k fs ⊎ (get k (judge_files ignore fs signed out).0 ≡ some d)
unfolding judge_files
judge_files-left ignore [] signed out k d h = inr h
judge_files-left ignore (f ∷ fs) signed out k d h = elim (after_remove f.path k signed d h) [
  | inl here ↦ inl (inl here)
  | inr later ↦
      elim (judge_files-left ignore fs (remove f.path signed) (judge ignore f signed out) k d
        later) [ inl there ↦ inl (inr there) | inr left ↦ inr left ]
]

no_left_over :
    (judged : List Mismatch) (signed : Assoc Text)
    → judged ++ left_over signed ≡ []
    → (judged ≡ []) × (signed ≡ [])
unfolding left_over
no_left_over [] [] h = (refl, refl)
no_left_over [] ((p, d) ∷ signed) h = absurd (cc)
no_left_over (x ∷ judged) signed h = absurd (cc)

nothing_at : (k d : Text) (signed : Assoc Text) → signed ≡ [] → ¬ (get k signed ≡ some d)
unfolding get
nothing_at k d [] empty h = absurd (cc)
nothing_at k d (x ∷ signed) empty h = absurd (cc)

-- If `Compare` finds nothing, every file of the manifest is excluded by the statement or by default, or
-- is signed with its SHA-256; and every name that is signed is the path of a file.
pub compare_signed-IsSigned :
    (st : Statement) (m : Manifest)
    → compare_signed st m ≡ []
    → All (IsSigned st.ignore_paths (signed_from [] st.resources)) m.files
      × ((k d : Text) → get k (signed_from [] st.resources) ≡ some d → HasPath k m.files)
unfolding compare_signed
compare_signed-IsSigned st m h =
    let signed = signed_from [] st.resources in
    let judged = judge_files st.ignore_paths m.files signed [] in
    let (clean, empty) =
      no_left_over judged.1 judged.0
        (sort_by-empty (λ a b. text_less a.path b.path) (judged.1 ++ left_over judged.0) h) in
    (
      (judge_files-clean st.ignore_paths m.files signed [] clean).1,
      λ k d at. elim (judge_files-left st.ignore_paths m.files signed [] k d at) [
        | inl there ↦ there
        | inr left ↦ absurd (nothing_at k d judged.0 empty left)
      ],
    )
