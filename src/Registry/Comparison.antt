-- ===== src/Registry/Comparison.antt =====
-- check.go: what `compareFiles` has compared when it finds no problem.
use mathlib.Core.Path.{subst}
use weightkeep.Prelude.{
  Text, ◌≟◌, ≟_iff, List, [], ◌∷◌, ◌++◌, Bool, true, false, not, ◌||◌, ==_iff, if◌then◌else◌,
  if_cases, length, Assoc, get, remove, get-remove, All, All-map, Option, none, some, Result, ok,
  err, >>=_cases, ◌≡◌, ◌⊎◌, inl, inr, refl, sym, ap, ◌∙◌, arith,
}
use weightkeep.Manifest.Record.{ManifestFile, Size, bytes, negative}
use weightkeep.Policy.Texts.{is_licence_file}
use weightkeep.Registry.Check.{
  TreeEntry, Problem, CheckError, HubAnswers, small, same_size, Compared, with_problem,
  keep_licence, compare_small, compare_content, compare_found, compare_entry, compare_tree,
  other_content, not_in_record, other_git_id,
}

same_size-eq : (m n : Size) → same_size m n ≡ true → m ≡ n
unfolding same_size
same_size-eq (bytes m) (bytes n) h = let e : m ≡ n = (==_iff m n).0 h in ap bytes e
same_size-eq (negative m) (negative n) h = let e : m ≡ n = (==_iff m n).0 h in ap negative e
same_size-eq (bytes m) (negative n) h = absurd (ground arith)
same_size-eq (negative m) (bytes n) h = absurd (ground arith)

no_more : (ps : List Problem) (p : Problem) → ¬ (ps ++ p ∷ [] ≡ [])
no_more [] p h = absurd (cc)
no_more (q ∷ ps) p h = absurd (cc)

-- A file of the tree, under a path.
abbrev pub InTree : Text → List TreeEntry → Type 0
InTree k [] = ⊥
InTree k (e ∷ es) = ((e.is_file ≡ true) × (e.path ≡ k)) ⊎ InTree k es

module _ (sha256 : Text → Text) (hub : HubAnswers) where
  -- The content of a file is that of an entry of the tree: for a large file the Hub names the hash and
  -- the size, a regular one was downloaded and hashed.
  abbrev pub SameContent : ManifestFile → Text → Option (Text × Size) → Type 0
  SameContent f path (some (oid, size)) = (f.sha256 ≡ oid) × (f.size ≡ size)
  SameContent f path none =
      (text : Text) × (small hub path ≡ ok text)
      × (sha256 text ≡ f.sha256)
      × (f.size ≡ bytes (length text))

  abbrev pub Agrees : ManifestFile → TreeEntry → Type 0
  Agrees f e = (f.git_sha1 ≡ e.oid) × SameContent f e.path e.lfs

  -- If no problem stands at the end, there was none before, and this holds.
  abbrev Clean : Type 0 → Assoc ManifestFile → Compared → Result CheckError Compared → Type 0
  Clean Holds want s (err e) = Unit
  Clean Holds want s (ok s') = s'.problems ≡ [] → (s.problems ≡ []) × Holds × (s'.want ≡ want)

  Clean-map :
      {P Q : Type 0} (turn : P → Q) (want : Assoc ManifestFile) (s : Compared)
      (r : Result CheckError Compared)
      → Clean P want s r
      → Clean Q want s r
  Clean-map turn want s (err e) clean = tt
  Clean-map turn want s (ok s') clean =
      λ none_left. let (before, holds, left) = clean none_left in (before, turn holds, left)

  with_problem-Clean :
      (Holds : Type 0) (s : Compared) (p : Problem) → Clean Holds s.want s (ok (with_problem p s))
  unfolding with_problem
  with_problem-Clean Holds s p none_left = absurd (no_more s.problems p none_left)

  keep_licence-Clean :
      (Holds : Type 0) (path text : Text) (s : Compared)
      → Holds
      → Clean Holds s.want s (ok (keep_licence path text s))
  unfolding keep_licence
  keep_licence-Clean Holds path text s holds = go s.licence
    where
      go :
          (l : Option (Text × Text))
          → Clean Holds s.want s (
              ok (elim l [
                | some _ ↦ s
                | none ↦
                    if is_licence_file path then record s { licence = some (path, text) } else s
              ]))
      go (some l) = λ none_left. (none_left, holds, refl)
      go none =
          if_cases (λ r. Clean Holds s.want s (ok r)) (is_licence_file path) _ _
            (λ _ none_left. (none_left, holds, refl)) (λ _ none_left. (none_left, holds, refl))

  compare_content-Clean :
      (f : ManifestFile) (path : Text) (lfs : Option (Text × Size)) (s : Compared)
      → Clean (SameContent f path lfs) s.want s (compare_content sha256 hub f path lfs s)
  unfolding compare_content compare_small
  compare_content-Clean f path (some (oid, size)) s =
      if_cases (λ r. Clean (SameContent f path (some (oid, size))) s.want s (ok r))
        (not (f.sha256 ≟ oid) || not (same_size f.size size)) _ _
        (λ differs. with_problem-Clean _ s (other_content path))
        (λ same none_left. (
          none_left,
          ((≟_iff f.sha256 oid).0 (ground arith), same_size-eq f.size size (ground arith)),
          refl,
        ))
  compare_content-Clean f path none s =
      >>=_cases (Clean (SameContent f path none) s.want s) (small hub path)
        (λ text. ok (compare_small sha256 hub f path text s)) (λ e. tt)
        (λ text read.
          if_cases (λ r. Clean (SameContent f path none) s.want s (ok r))
            (not (sha256 text ≟ f.sha256) || not (same_size (bytes (length text)) f.size)) _ _
            (λ differs. with_problem-Clean _ s (other_content path))
            (λ same. keep_licence-Clean _ path text s (
              text,
              read,
              (≟_iff (sha256 text) f.sha256).0 (ground arith),
              sym (same_size-eq (bytes (length text)) f.size (ground arith)),
            )))

  compare_found-Clean :
      (o : Option ManifestFile) (e : TreeEntry) (s : Compared)
      → Clean
          ((f : ManifestFile) × (o ≡ some f) × Agrees f e)
          s.want
          s
          (compare_found sha256 hub o e s)
  unfolding compare_found
  compare_found-Clean none e s = with_problem-Clean _ s (not_in_record e.path)
  compare_found-Clean (some f) e s =
      if_cases (Clean ((g : ManifestFile) × (some f ≡ some g) × Agrees g e) s.want s)
        (not (f.git_sha1 ≟ e.oid)) _ _
        (λ differs. with_problem-Clean _ s (other_git_id e.path f.git_sha1 e.oid))
        (λ same.
          Clean-map (λ content. (f, refl, ((≟_iff f.git_sha1 e.oid).0 (ground arith), content)))
            s.want s (compare_content sha256 hub f e.path e.lfs s)
            (compare_content-Clean f e.path e.lfs s))

  -- An entry that is a file has a file of the record under its path, and they agree.
  abbrev pub HasMatch : Assoc ManifestFile → TreeEntry → Type 0
  HasMatch want e = e.is_file ≡ true → (f : ManifestFile) × (get e.path want ≡ some f) × Agrees f e

  compare_entry-Clean :
      (e : TreeEntry) (s : Compared)
      → Clean
          (HasMatch s.want e)
          (if e.is_file then remove e.path s.want else s.want)
          s
          (compare_entry sha256 hub e s)
  unfolding compare_entry
  compare_entry-Clean e s = go e.is_file refl
    where
      go :
          (b : Bool)
          → e.is_file ≡ b
          → Clean (HasMatch s.want e) (if b then remove e.path s.want else s.want) s (
              if not b
              then ok s
              else compare_found sha256 hub
                  (get e.path s.want)
                  e
                  (record s { want = remove e.path s.want }))
      go true file =
          Clean-map (λ found _. found) (remove e.path s.want) s
            (compare_found sha256 hub (get e.path s.want) e
              (record s { want = remove e.path s.want }))
            (compare_found-Clean (get e.path s.want) e (record s { want = remove e.path s.want }))
      go false other = λ none_left. (none_left, (λ file. absurd (ground arith)), refl)

  -- The same of the whole tree; what is in the record and not in the tree is left.
  abbrev pub Matched : List TreeEntry → Compared → Result CheckError Compared → Type 0
  Matched es s (err e) = Unit
  Matched es s (ok s') =
      s'.problems ≡ []
      → (s.problems ≡ [])
        × All (HasMatch s.want) es
        × ((k : Text) (f : ManifestFile)
            → get k s.want ≡ some f
            → (get k s'.want ≡ some f) ⊎ InTree k es)

  -- What is left after an entry was there before it, and what was there is left or is the entry's.
  before_entry :
      (b : Bool) (k j : Text) (want : Assoc ManifestFile) (f : ManifestFile)
      → get j (if b then remove k want else want) ≡ some f
      → get j want ≡ some f
  before_entry b k j want f h = ground (arith, get-remove k j want)

  after_entry :
      (b : Bool) (k j : Text) (want : Assoc ManifestFile) (f : ManifestFile)
      → get j want ≡ some f
      → (get j (if b then remove k want else want) ≡ some f) ⊎ ((b ≡ true) × (k ≡ j))
  after_entry b k j want f h = ground (arith, get-remove k j want, ≟_iff k j)

  Matched-step :
      (e : TreeEntry) (es : List TreeEntry) (s s1 : Compared) (r : Result CheckError Compared)
      → Clean (HasMatch s.want e) (if e.is_file then remove e.path s.want else s.want) s (ok s1)
      → Matched es s1 r
      → Matched (e ∷ es) s r
  Matched-step e es s s1 (err failure) entry rest = tt
  Matched-step e es s s1 (ok s') entry rest = λ none_left.
      let (none1, all, left) = rest none_left in
      let (none0, first, want1) = entry none1 in
      let back : (d : TreeEntry) → HasMatch s1.want d → HasMatch s.want d = λ d found file.
        let (f, at, agrees) = found file in
        (
          f,
          before_entry e.is_file e.path d.path s.want f (ap (get d.path) (sym want1) ∙ at),
          agrees,
        ) in
      (
        none0,
        (first, All-map {P = HasMatch s1.want} back es all),
        λ k f at. elim (after_entry e.is_file e.path k s.want f at) [
          | inr here ↦ inr (inl here)
          | inl later ↦ elim (left k f (ap (get k) want1 ∙ later)) [
            | inl still ↦ inl still
            | inr there ↦ inr (inr there)
          ]
        ],
      )

  pub compare_tree-Matched :
      (es : List TreeEntry) (s : Compared) → Matched es s (compare_tree sha256 hub es s)
  unfolding compare_tree
  compare_tree-Matched [] s = λ none_left. (none_left, tt, λ k f h. inl h)
  compare_tree-Matched (e ∷ es) s =
      >>=_cases (Matched (e ∷ es) s) (compare_entry sha256 hub e s) (compare_tree sha256 hub es)
        (λ failure. tt)
        (λ s1 eq.
          Matched-step e es s s1 (compare_tree sha256 hub es s1)
            (subst
              (Clean (HasMatch s.want e) (if e.is_file then remove e.path s.want else s.want) s) eq
              (compare_entry-Clean e s))
            (compare_tree-Matched es s1))
