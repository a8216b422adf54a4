-- ===== src/Registry/Accepted.antt =====
-- check.go: what is known of a record that `compareFiles` and `Check` accept.
use mathlib.Core.Path.{subst}
use weightkeep.Prelude.{
  Text, ◌≟◌, ≟_iff, ≟_refl, List, [], ◌∷◌, ◌++◌, true, false, ltb, length, Assoc, get, put, get-put,
  All, All-map, Bool-cases, Option, none, some, ok, >>=-eq-ok, ◌≡◌, ◌⊎◌, inl, inr, refl, ◌∙◌, arith,
}
use weightkeep.Manifest.Record.{ManifestFile}
use weightkeep.Registry.Check.{
  TreeEntry, Problem, HubAnswers, Compared, want_from, missing, conclude, compare_tree,
  compare_files,
}
use weightkeep.Registry.Comparison.{InTree, Agrees, Matched, compare_tree-Matched}

-- A file of the record, under a path.
abbrev pub IsListed : Text → ManifestFile → List ManifestFile → Type 0
IsListed k f [] = ⊥
IsListed k f (g ∷ gs) = ((g ≡ f) × (g.path ≡ k)) ⊎ IsListed k f gs

module _ (sha256 : Text → Text) (hub : HubAnswers) where
  from_put :
      (g : ManifestFile) (k : Text) (want : Assoc ManifestFile) (f : ManifestFile)
      → get k (put g.path g want) ≡ some f
      → ((g ≡ f) × (g.path ≡ k)) ⊎ (get k want ≡ some f)
  from_put g k want f h = ground (arith, get-put g.path k g want, ≟_iff g.path k)

  -- What `want` has is in the record, or was in it before.
  want_from-IsListed :
      (fs : List ManifestFile) (want : Assoc ManifestFile) (k : Text) (f : ManifestFile)
      → get k (want_from sha256 hub want fs) ≡ some f
      → IsListed k f fs ⊎ (get k want ≡ some f)
  unfolding want_from
  want_from-IsListed [] want k f h = inr h
  want_from-IsListed (g ∷ gs) want k f h = elim (want_from-IsListed gs (put g.path g want) k f h) [
    | inl later ↦ inl (inr later)
    | inr at ↦ elim (from_put g k want f at) [ inl here ↦ inl (inl here) | inr before ↦ inr before ]
  ]

  put_keeps :
      (g : ManifestFile) (k : Text) (want : Assoc ManifestFile) (f : ManifestFile)
      → get k want ≡ some f
      → (f' : ManifestFile) × (get k (put g.path g want) ≡ some f')
  put_keeps g k want f h = elim (Bool-cases (g.path ≟ k)) [
    | inl same ↦ (g, ground (arith, get-put g.path k g want))
    | inr other ↦ (f, ground (arith, get-put g.path k g want))
  ]

  want_from_keeps :
      (fs : List ManifestFile) (want : Assoc ManifestFile) (k : Text) (f : ManifestFile)
      → get k want ≡ some f
      → (f' : ManifestFile) × (get k (want_from sha256 hub want fs) ≡ some f')
  unfolding want_from
  want_from_keeps [] want k f h = (f, h)
  want_from_keeps (g ∷ gs) want k f h =
      let (f', h') = put_keeps g k want f h in want_from_keeps gs (put g.path g want) k f' h'

  -- Every file of the record is in `want`.
  wants_every :
      (fs : List ManifestFile) (want : Assoc ManifestFile)
      → All (λ f. (f' : ManifestFile) × (get f.path (want_from sha256 hub want fs) ≡ some f')) fs
  unfolding want_from
  wants_every [] want = tt
  wants_every (g ∷ gs) want =
      let at : get g.path (put g.path g want) ≡ some g =
        get-put g.path g.path g want ∙ (rw (≟_refl g.path) refl) in
      (want_from_keeps gs (put g.path g want) g.path g at, wants_every gs (put g.path g want))

  none_missing :
      (ps : List Problem) (want : Assoc ManifestFile)
      → ltb 0 (length (ps ++ missing sha256 hub want)) ≡ false
      → (ps ≡ []) × (want ≡ [])
  unfolding missing
  none_missing [] [] h = (refl, refl)
  none_missing [] ((p, f) ∷ want) h = absurd (ground arith)
  none_missing (p ∷ ps) want h = absurd (ground arith)

  conclude-clean :
      (s : Compared) (licence : Option (Text × Text))
      → conclude sha256 hub s ≡ ok licence
      → (s.problems ≡ []) × (s.want ≡ [])
  unfolding conclude
  conclude-clean s licence h = none_missing s.problems s.want (ground arith)

  -- The record and the tree have the same files, with the same content.
  abbrev pub SameFiles : List ManifestFile → List TreeEntry → Type 0
  SameFiles files tree =
      All
        (λ e.
          e.is_file ≡ true → (f : ManifestFile) × IsListed e.path f files × Agrees sha256 hub f e)
        tree
      × All (λ f. InTree f.path tree) files

  nothing_in :
      (k : Text) (want : Assoc ManifestFile) (f : ManifestFile)
      → want ≡ []
      → ¬ (get k want ≡ some f)
  unfolding get
  nothing_in k [] f empty h = absurd (ground arith)
  nothing_in k (x ∷ want) f empty h = absurd (cc)

  only-IsListed :
      (files : List ManifestFile) (k : Text) (f : ManifestFile)
      → get k (want_from sha256 hub [] files) ≡ some f
      → IsListed k f files
  only-IsListed files k f at = elim (want_from-IsListed files [] k f at) [
    | inl listed ↦ listed
    | inr before ↦ absurd (nothing_in k [] f refl before)
  ]

  pub compare_files-SameFiles :
      (files : List ManifestFile) (tree : List TreeEntry) (licence : Option (Text × Text))
      → compare_files sha256 hub files tree ≡ ok licence
      → SameFiles files tree
  unfolding compare_files
  compare_files-SameFiles files tree licence h =
      let start : Compared = record {
        want = want_from sha256 hub [] files;
        problems = [];
        licence = none;
      } in
      let (s, compared, concluded) =
        >>=-eq-ok (compare_tree sha256 hub tree start) (conclude sha256 hub) h in
      let (clean, nothing_left) = conclude-clean s licence concluded in
      let (_, all, left) =
        (subst (Matched sha256 hub tree start) compared
            (compare_tree-Matched sha256 hub tree start))
          clean in
      (
        All-map
            (λ e found file.
              let (f, at, agrees) = found file in (f, only-IsListed files e.path f at, agrees))
            tree all,
        All-map
            (λ f (f', at). elim (left f.path f' at) [
              | inl still ↦ absurd (nothing_in f.path s.want f' nothing_left still)
              | inr there ↦ there
            ])
            files (wants_every files []),
      )
