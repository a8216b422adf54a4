-- ===== src/Registry/Vetting.antt =====
-- check.go: what is known of a record that `Check` accepts.
use mathlib.Core.Path.{subst}
use weightkeep.Prelude.{
  Text, ≟_iff, List, [], Bool, false, ◌==◌, All, Option, none, some, Result, ok, err, ◌>>=◌,
  >>=-eq-ok, ◌≡◌, ◌≢◌, refl, sym, ap, ◌∙◌, arith,
}
use weightkeep.Ids.{IdError}
use weightkeep.Manifest.Record.{Manifest, ManifestError, validate}
use weightkeep.Manifest.Validity.{IsValid, validate_iff}
use weightkeep.Hub.Repo.{Repo, parse_repo}
use weightkeep.Policy.Table.{c}
use weightkeep.Policy.{Decision, rank, evaluate}
use weightkeep.Registry.{
  RegistryRecord, RecordError, validate_record, check_listed, check_magnet, DenyEntry, Denylist,
  match, manifest_repo,
}
use weightkeep.Registry.Denied.{Covers, FirstOf, match-FirstOf}
use weightkeep.Registry.Check.{TreeEntry, RepoInfo, HubAnswers, compare_files}
use weightkeep.Registry.Accepted.{SameFiles, compare_files-SameFiles}
use weightkeep.Registry.Submission.{
  input_of, verdict, check_tree, check_info, check_repo, check_denied, check_manifest, check,
}

-- No entry of the denylist, if there is one, covers the manifest.
abbrev pub IsClear : (Text → Text → Bool) → Option Denylist → Manifest → Type 0
IsClear equal_fold none m = Unit
IsClear equal_fold (some d) m = All (λ e. ¬ Covers equal_fold m e) d.entries

-- What the Hub said of the repository at the commit when the decision was made.
pub record IsOpenAt (sha256 : Text → Text) (hub : HubAnswers) (m : Manifest) (d : Decision)
    : Type 0 where
  pub repo : Repo
  pub info : RepoInfo
  pub tree : List TreeEntry
  pub licence : Option (Text × Text)
  pub named : parse_repo (manifest_repo m) ≡ ok repo
  pub asked : hub.repo_info repo m.commit ≡ ok info
  pub pinned : info.sha ≡ m.commit
  pub ungated : info.gated ≡ []
  pub public : info.private ≡ false
  pub listed : hub.tree repo m.commit ≡ ok tree
  pub same : SameFiles sha256 hub m.files tree
  pub decided : d ≡ evaluate (input_of hub info licence)
  pub shared : d.tier ≢ c

record_listed :
    (magnet : Text) (o : Option Manifest) (m : Manifest)
    → check_listed magnet o ≡ ok m
    → (o ≡ some m) × IsValid m
unfolding check_listed check_magnet
record_listed magnet none m h = absurd (cc)
record_listed magnet (some n) m h = go (validate n) refl h
  where
    go :
        (v : Result ManifestError (Unit {0}))
        → validate n ≡ v
        → elim v [ err e ↦ err (RecordError.bad_manifest e) | ok _ ↦ check_magnet magnet n ] ≡ ok m
        → (some n ≡ some m) × IsValid m
    go (err e) valid h = absurd (cc)
    go (ok x) valid h =
        let e : n ≡ m = ground arith in (ap some e, subst IsValid e ((validate_iff n).0 valid))

validate_record-IsValid :
    (r : RegistryRecord) (m : Manifest)
    → validate_record r ≡ ok m
    → (r.manifest ≡ some m) × IsValid m
unfolding validate_record
validate_record-IsValid r m h = record_listed r.magnet r.manifest m (ground arith)

match-IsClear :
    (equal_fold : Text → Text → Bool) (deny : Option Denylist) (m : Manifest)
    → match equal_fold deny m ≡ none
    → IsClear equal_fold deny m
match-IsClear equal_fold none m h = tt
match-IsClear equal_fold (some d) m h =
    subst (FirstOf equal_fold m d.entries) h (match-FirstOf equal_fold m d)

verdict-tier : (e d : Decision) → verdict e ≡ ok d → (d ≡ e) × (d.tier ≢ c)
unfolding verdict rank
verdict-tier e d h =
    let same : e ≡ d = ground arith in
    let other : (rank e.tier == 3) ≡ false = ground arith in
    (
      sym same,
      λ is_c.
          let three : rank e.tier ≡ 3 = ap (λ x. rank x.tier) same ∙ ap rank is_c in ground arith,
    )

module _ (sha256 : Text → Text) (hub : HubAnswers) where
  check_info-IsOpenAt :
      (repo : Repo) (m : Manifest) (info : RepoInfo) (d : Decision)
      → parse_repo (manifest_repo m) ≡ ok repo
      → hub.repo_info repo m.commit ≡ ok info
      → check_info sha256 hub repo m info ≡ ok d
      → IsOpenAt sha256 hub m d
  unfolding check_info check_tree
  check_info-IsOpenAt repo m info d named asked h =
      let rest : (hub.tree repo m.commit >>= check_tree sha256 hub m info) ≡ ok d = ground arith in
      let (tree, listed, compared) =
        >>=-eq-ok (hub.tree repo m.commit) (check_tree sha256 hub m info) rest in
      let (licence, same, decided) =
        >>=-eq-ok (compare_files sha256 hub m.files tree)
          (λ l. verdict (evaluate (input_of hub info l))) compared in
      let (d_is, shared) = verdict-tier (evaluate (input_of hub info licence)) d decided in
      record {
        repo = repo;
        info = info;
        tree = tree;
        licence = licence;
        named = named;
        asked = asked;
        pinned = (≟_iff info.sha m.commit).0 (ground arith);
        ungated = (≟_iff info.gated []).0 (ground arith);
        public = ground arith;
        listed = listed;
        same = compare_files-SameFiles sha256 hub m.files tree licence same;
        decided = d_is;
        shared = shared;
      }

  check_repo-IsOpenAt :
      (m : Manifest) (p : Result IdError Repo) (d : Decision)
      → parse_repo (manifest_repo m) ≡ p
      → check_repo sha256 hub m p ≡ ok d
      → IsOpenAt sha256 hub m d
  unfolding check_repo
  check_repo-IsOpenAt m (err e) d named h = absurd (cc)
  check_repo-IsOpenAt m (ok repo) d named h =
      let (info, asked, rest) =
        >>=-eq-ok (hub.repo_info repo m.commit) (check_info sha256 hub repo m) h in
      check_info-IsOpenAt repo m info d named asked rest

  check_denied-IsOpenAt :
      (equal_fold : Text → Text → Bool) (deny : Option Denylist) (m : Manifest)
      (o : Option DenyEntry) (d : Decision)
      → match equal_fold deny m ≡ o
      → check_denied sha256 hub m o ≡ ok d
      → IsClear equal_fold deny m × IsOpenAt sha256 hub m d
  unfolding check_denied
  check_denied-IsOpenAt equal_fold deny m (some e) d found h = absurd (cc)
  check_denied-IsOpenAt equal_fold deny m none d found h = (
    match-IsClear equal_fold deny m found,
    check_repo-IsOpenAt m (parse_repo (manifest_repo m)) d refl h,
  )

  check_manifest-IsOpenAt :
      (equal_fold : Text → Text → Bool) (r : RegistryRecord) (deny : Option Denylist)
      (v : Result RecordError Manifest) (d : Decision)
      → validate_record r ≡ v
      → check_manifest sha256 hub equal_fold deny v ≡ ok d
      → (m : Manifest) × (r.manifest ≡ some m)
        × IsValid m
        × IsClear equal_fold deny m
        × IsOpenAt sha256 hub m d
  unfolding check_manifest
  check_manifest-IsOpenAt equal_fold r deny (err e) d valid h = absurd (cc)
  check_manifest-IsOpenAt equal_fold r deny (ok m) d valid h =
      let (listed, good) = validate_record-IsValid r m valid in
      let (clear, open_there) =
        check_denied-IsOpenAt equal_fold deny m (match equal_fold deny m) d refl h in
      (m, listed, good, clear, open_there)

  -- A record that `Check` accepts has a valid manifest that no entry of the denylist covers; the Hub
  -- resolves its commit to itself and says that the repository is neither gated nor private; each file
  -- of the Hub's tree is in the record with the same git id, hash and size, and each file of the record
  -- is in the tree; and the decision that is returned is that of the policy and not the tier that may
  -- not be shared.
  pub check-IsOpenAt :
      (equal_fold : Text → Text → Bool) (r : RegistryRecord) (deny : Option Denylist) (d : Decision)
      → check sha256 hub equal_fold r deny ≡ ok d
      → (m : Manifest) × (r.manifest ≡ some m)
        × IsValid m
        × IsClear equal_fold deny m
        × IsOpenAt sha256 hub m d
  unfolding check
  check-IsOpenAt equal_fold r deny d h =
      check_manifest-IsOpenAt equal_fold r deny (validate_record r) d refl h
