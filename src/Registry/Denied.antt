-- ===== src/Registry/Denied.antt =====
-- What `Match` of internal/registry/registry.go finds, against what an entry says.
use weightkeep.Prelude.{
  Text, ◌≟◌, ≟_iff, List, [], ◌∷◌, ◌++◌, Bool, true, ◌||◌, any, if_cases, Option, none, some, All,
  ◌≡◌, ◌≢◌, ◌↔◌, ◌⊎◌, refl, ap, arith,
}
use weightkeep.Manifest.Record.{Manifest, ManifestFile}
use weightkeep.Registry.{
  DenyEntry, Denylist, manifest_repo, names_revision, names_content, first_match, match,
}

-- Some file has the content.
abbrev pub HasContent : Text → List ManifestFile → Type 0
HasContent sum [] = ⊥
HasContent sum (f ∷ fs) = (f.sha256 ≡ sum) ⊎ HasContent sum fs

any-HasContent :
    (sum : Text) (fs : List ManifestFile)
    → (any (λ f. f.sha256 ≟ sum) fs ≡ true) ↔ HasContent sum fs
any-HasContent sum [] = ground arith
any-HasContent sum (f ∷ fs) = ground (arith, ≟_iff f.sha256 sum, any-HasContent sum fs)

module _ (equal_fold : Text → Text → Bool) (m : Manifest) where
  -- What an entry says: it names the repository, with no commit or that of the revision, or the content
  -- of some file.
  abbrev pub Covers : DenyEntry → Type 0
  Covers e =
      ((e.repo ≢ [])
        × (equal_fold e.repo (manifest_repo m) ≡ true)
        × ((e.commit ≡ []) ⊎ (e.commit ≡ m.commit)))
      ⊎ ((e.sha256 ≢ []) × HasContent e.sha256 m.files)

  names-Covers :
      (e : DenyEntry)
      → ((names_revision equal_fold m e || names_content equal_fold m e) ≡ true) ↔ Covers e
  unfolding names_revision names_content
  names-Covers e = ground (
    arith,
    ≟_iff e.repo [],
    ≟_iff e.commit [],
    ≟_iff e.commit m.commit,
    ≟_iff e.sha256 [],
    any-HasContent e.sha256 m.files,
  )

  -- The first of the entries that covers the revision, or none of them.
  abbrev pub FirstOf : List DenyEntry → Option DenyEntry → Type 0
  FirstOf entries none = All (λ e. ¬ Covers e) entries
  FirstOf entries (some e) =
      (before : List DenyEntry) × (after : List DenyEntry) × (entries ≡ before ++ e ∷ after)
      × All (λ d. ¬ Covers d) before
      × Covers e

  FirstOf-step :
      (d : DenyEntry) (entries : List DenyEntry) (o : Option DenyEntry)
      → ¬ Covers d
      → FirstOf entries o
      → FirstOf (d ∷ entries) o
  FirstOf-step d entries none clear rest = (clear, rest)
  FirstOf-step d entries (some e) clear (before, after, place, passed, covers) =
      (d ∷ before, after, ap (λ es. d ∷ es) place, (clear, passed), covers)

  first_match-FirstOf :
      (entries : List DenyEntry) → FirstOf entries (first_match equal_fold m entries)
  unfolding first_match
  first_match-FirstOf [] = tt
  first_match-FirstOf (e ∷ es) =
      let found : Covers e → FirstOf (e ∷ es) (some e) = λ covers. ([], es, refl, tt, covers) in
      if_cases (FirstOf (e ∷ es)) (names_revision equal_fold m e) _ _
        (λ h. found ((names-Covers e).0 (ground arith)))
        (λ h.
          if_cases (FirstOf (e ∷ es)) (names_content equal_fold m e) _ _
            (λ h'. found ((names-Covers e).0 (ground arith)))
            (λ h'.
              FirstOf-step e es (first_match equal_fold m es)
                (λ covers. let both = (names-Covers e).1 covers in absurd (ground arith))
                (first_match-FirstOf es)))

  -- `Match` gives the first entry of the denylist that covers the revision: one that names its
  -- repository, up to case, and no commit or this one, or the content of one of its files. It gives
  -- none only if no entry does.
  pub match-FirstOf : (d : Denylist) → FirstOf d.entries (match equal_fold (some d) m)
  unfolding match
  match-FirstOf d = first_match-FirstOf d.entries
