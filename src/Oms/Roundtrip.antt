-- ===== src/Oms/Roundtrip.antt =====
-- oms.go: a statement made from a manifest matches it.
use mathlib.Core.Path.{subst}
use weightkeep.Prelude.{
  Text, ◌≟◌, ≟_iff, ≟_refl, ≟-eq_false, List, [], ◌∷◌, Bool, false, if_cases, text_less, sort_by,
  sort_by-All, sort_by-Any, Assoc, get, remove, get-remove, All, All-map, Any, Any-map, All-Any,
  some, ok, err, ◌>>=◌, >>=-eq-ok, ◌≡◌, ◌⊎◌, inl, inr, refl, sym, ap, ◌∙◌, arith,
}
use weightkeep.Manifest.Record.{Manifest, ManifestFile, validate}
use weightkeep.Manifest.Validity.{validate_iff}
use weightkeep.Oms.{
  Resource, Statement, Mismatch, default_ignored, ignored, is_ignored, resources_of, root_digest,
  statement_of, from_manifest, signed_from, judge_signed, judge, judge_files, left_over,
  compare_signed,
}
use weightkeep.Oms.Signed.{
  Lists, IsDistinct, new-IsDistinct, one_digest, Made, resources_of-Made, signed_from-get,
  signed_from-names,
}

-- Every file that is not excluded by default is signed.
abbrev EachSigned : Assoc Text → List ManifestFile → Type 0
EachSigned signed fs = All (λ f. ignored f.path ≡ false → get f.path signed ≡ some f.sha256) fs

judge_signed-same :
    (f : ManifestFile) (out : List Mismatch) → judge_signed f (some f.sha256) out ≡ out
unfolding judge_signed
judge_signed-same f out = rw (≟_refl f.sha256) refl

judge-same :
    (ignore : List Text) (f : ManifestFile) (signed : Assoc Text) (out : List Mismatch)
    → (ignored f.path ≡ false → get f.path signed ≡ some f.sha256)
    → judge ignore f signed out ≡ out
unfolding judge is_ignored
judge-same ignore f signed out each =
    if_cases (λ l. l ≡ out) (is_ignored ignore f.path) out _ (λ _. refl)
      (λ included. ap (λ o. judge_signed f o out) (each (ground arith)) ∙ judge_signed-same f out)

others :
    (k : Text) (signed : Assoc Text) (fs : List ManifestFile)
    → ¬ Any (λ g. g.path ≡ k) fs
    → EachSigned signed fs
    → EachSigned (remove k signed) fs
others k signed [] fresh each = tt
others k signed (g ∷ gs) fresh (first, each) = (
  λ included.
      let apart : (k ≟ g.path) ≡ false = ≟-eq_false k g.path (λ e. fresh (inl (sym e))) in
      get-remove k g.path signed ∙ (rw apart (first included)),
  others k signed gs (λ there. fresh (inr there)) each,
)

judge_files-same :
    (ignore : List Text) (fs : List ManifestFile) (signed : Assoc Text) (out : List Mismatch)
    → IsDistinct fs
    → EachSigned signed fs
    → (judge_files ignore fs signed out).1 ≡ out
unfolding judge_files
judge_files-same ignore [] signed out distinct each = refl
judge_files-same ignore (f ∷ fs) signed out (fresh, distinct) (first, each) =
    judge_files-same ignore fs (remove f.path signed) (judge ignore f signed out) distinct
      (others f.path signed fs fresh each)
    ∙ judge-same ignore f signed out first

-- What is left was signed, and is not the path of a file.
judge_files-unlisted :
    (ignore : List Text) (fs : List ManifestFile) (signed : Assoc Text) (out : List Mismatch)
    (k d : Text)
    → get k (judge_files ignore fs signed out).0 ≡ some d
    → (get k signed ≡ some d) × (¬ Any (λ g. g.path ≡ k) fs)
unfolding judge_files
judge_files-unlisted ignore [] signed out k d h = (h, λ there. there)
judge_files-unlisted ignore (f ∷ fs) signed out k d h =
    let (at, unlisted) =
      judge_files-unlisted ignore fs (remove f.path signed) (judge ignore f signed out) k d h in
    let was : (get k signed ≡ some d) × ((f.path ≟ k) ≡ false) =
      ground (arith, get-remove f.path k signed) in
    (
      was.0,
      λ there. elim there [
        | inl here ↦ (let e = (≟_iff f.path k).1 here in let no_e = was.1 in absurd (ground arith))
        | inr later ↦ unlisted later
      ],
    )

nothing_left : (signed : Assoc Text) → ((k d : Text) → ¬ (get k signed ≡ some d)) → signed ≡ []
unfolding get
nothing_left [] none_at = refl
nothing_left ((p, d) ∷ signed) none_at = absurd (none_at p d (rw (≟_refl p) refl))

All-both :
    {A : Type 0} (P Q : A → Type 0) (xs : List A) → All P xs → All Q xs → All (λ a. P a × Q a) xs
All-both P Q [] ps qs = tt
All-both P Q (x ∷ xs) (p, ps) (q, qs) = ((p, q), All-both P Q xs ps qs)

named_listed :
    (k : Text) (fs : List ManifestFile) (rs : List Resource)
    → All (λ r. Lists r.name r.digest fs) rs
    → Any (λ r. r.name ≡ k) rs
    → Any (λ g. g.path ≡ k) fs
named_listed k fs [] back named = absurd named
named_listed k fs (r ∷ rs) (first, back) (inl e) = Any-map (λ g (at, _). at ∙ e) fs first
named_listed k fs (r ∷ rs) (first, back) (inr named) = named_listed k fs rs back named

only_names :
    (k d : Text) (fs : List ManifestFile) (rs : List Resource)
    → All (λ r. Lists r.name r.digest fs) rs
    → Any (λ r. r.name ≡ k) rs ⊎ (get k [] ≡ some d)
    → Any (λ g. g.path ≡ k) fs
unfolding get
only_names k d fs rs back (inl named) = named_listed k fs rs back named
only_names k d fs rs back (inr at) = absurd (cc)

matching :
    (ignore : List Text) (fs : List ManifestFile) (rs : List Resource)
    → IsDistinct fs
    → All (λ f. ignored f.path ≡ false → Any (λ r. (r.name ≡ f.path) × (r.digest ≡ f.sha256)) rs) fs
    → All (λ r. Lists r.name r.digest fs) rs
    → ((judge_files ignore fs (signed_from [] rs) []).1 ≡ [])
      × ((judge_files ignore fs (signed_from [] rs) []).0 ≡ [])
matching ignore fs rs distinct each back =
    let signed = signed_from [] rs in
    let listed : All (λ f. Lists f.path f.sha256 fs) fs =
      All-Any (λ f g. (g.path ≡ f.path) × (g.sha256 ≡ f.sha256)) (λ f. (refl, refl)) fs in
    let each_signed : EachSigned signed fs =
      All-map
        (λ f (here, found) included.
          signed_from-get rs [] f.path f.sha256
            (All-map
              (λ r there same.
                one_digest fs f.path r.digest f.sha256 distinct
                  (subst (λ k. Lists k r.digest fs) same there) here)
              rs back)
            (inl (Any-map (λ r (at, _). at) rs (found included))))
        fs
        (All-both (λ f. Lists f.path f.sha256 fs)
          (λ f. ignored f.path ≡ false → Any (λ r. (r.name ≡ f.path) × (r.digest ≡ f.sha256)) rs) fs
          listed each) in
    (
      judge_files-same ignore fs signed [] distinct each_signed,
      nothing_left (judge_files ignore fs signed []).0 (λ k d h.
          let (at, unlisted) = judge_files-unlisted ignore fs signed [] k d h in
          unlisted (only_names k d fs rs back (signed_from-names rs [] k d at))),
    )

sorted_resources :
    (fs : List ManifestFile) (rs : List Resource)
    → Made fs (ok rs)
    → Made fs (ok (sort_by (λ r s. text_less r.name s.name) rs))
sorted_resources fs rs (each, back) =
    let less : Resource → Resource → Bool = λ r s. text_less r.name s.name in
    (
      All-map
          (λ f found included.
            sort_by-Any (λ r. (r.name ≡ f.path) × (r.digest ≡ f.sha256)) less rs (found included))
          fs each,
      sort_by-All (λ r. Lists r.name r.digest fs) less rs back,
    )

made_statement :
    (sha256 : Text → Text) (name : Text) (rs : List Resource) (st : Statement)
    → statement_of sha256 name rs ≡ ok st
    → st.resources ≡ sort_by (λ r s. text_less r.name s.name) rs
unfolding statement_of
made_statement sha256 name rs st h =
    let sorted = sort_by (λ r s. text_less r.name s.name) rs in
    let made : (root_digest sha256 sorted >>= λ root.
    ok (record { subject = name; root = root; resources = sorted; ignore_paths = default_ignored }))
        ≡ ok st =
      ground arith in
    let (root, _, e) =
      >>=-eq-ok (root_digest sha256 sorted)
        (λ root. ok (record {
          subject = name;
          root = root;
          resources = sorted;
          ignore_paths = default_ignored;
        }))
        made in
    ap (λ r. elim r [ ok t ↦ t.resources | err _ ↦ [] ]) (sym e)

-- The statement that `FromManifest` makes of a valid manifest has no mismatch with it.
pub from_manifest-compare_signed :
    (sha256 : Text → Text) (m : Manifest) (name : Text) (st : Statement)
    → validate m ≡ ok tt
    → from_manifest sha256 m name ≡ ok st
    → compare_signed st m ≡ []
unfolding from_manifest compare_signed left_over sort_by
from_manifest-compare_signed sha256 m name st valid h =
    let (rs, found, made) = >>=-eq-ok (resources_of m.files) (statement_of sha256 name) h in
    let (each, back) =
      sorted_resources m.files rs (subst (Made m.files) found (resources_of-Made m.files)) in
    let distinct = new-IsDistinct [] m.files ((validate_iff m).0 valid).distinct in
    let sorted = made_statement sha256 name rs st made in
    let (none_judged, none_over) =
      matching st.ignore_paths m.files (sort_by (λ r s. text_less r.name s.name) rs) distinct each
        back in
    rw (sorted, none_judged, none_over) refl
