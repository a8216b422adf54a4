-- ===== src/Registry/Check.antt =====
-- internal/registry/check.go: `compareFiles`, of a record against the Hub.
use weightkeep.Prelude.{
  ℕ, ◌+◌, ◌*◌, ◌^◌, Text, ◌≟◌, List, [], ◌∷◌, ◌++◌, Bool, false, not, ◌||◌, ltb, ◌==◌,
  if◌then◌else◌, length, take, Assoc, get, remove, put, Option, none, some, Result, ok, err, ◌>>=◌,
}
use weightkeep.Ids.{IdError}
use weightkeep.Manifest.Record.{ManifestFile, Size, bytes, negative}
use weightkeep.Hub.Repo.{Repo}
use weightkeep.Policy.Texts.{is_licence_file}
use weightkeep.Policy.{Decision}
use weightkeep.Registry.{RecordError, DenyEntry}

-- `TreeEntry` of internal/hub, with whether its type is "file", and `RepoInfo` with the fields that
-- are read.
pub record TreeEntry : Type 0 where
  pub is_file : Bool
  pub path : Text
  pub oid : Text
  pub lfs : Option (Text × Size)

pub record RepoInfo : Type 0 where
  pub sha : Text
  pub gated : Text
  pub private : Bool
  pub license : List Text
  pub license_name : Text
  pub base_model : List Text

pub data Problem : Type 0 where
  not_in_record not_on_hub : Text → Problem
  other_git_id : Text → Text → Text → Problem
  other_content : Text → Problem

pub data CheckError : Type 0 where
  bad_record : RecordError → CheckError
  denied : DenyEntry → CheckError
  bad_repo : IdError → CheckError
  request_failed : Text → CheckError
  other_commit : Text → CheckError
  closed_repo : CheckError
  over_limit : Text → CheckError
  does_not_match : List Problem → CheckError
  tier_c : Decision → CheckError

-- What the calls of the Hub's client give: the metadata of a repository at a revision, its tree, and
-- the body of a file.
pub record HubAnswers : Type 0 where
  pub repo_info : Repo → Text → Result CheckError RepoInfo
  pub tree : Repo → Text → Result CheckError (List TreeEntry)
  pub body : Text → Result CheckError Text

abbrev pub max_small_file : ℕ
max_small_file = 10 * 2 ^ 20

unfoldable pub within_limit : Text → Text → Result CheckError Text
within_limit path data_read =
    if ltb max_small_file (length data_read) then err (over_limit path) else ok data_read

-- `small`: at most one byte more than the limit is read.
unfoldable pub small : HubAnswers → Text → Result CheckError Text
unfolding within_limit
small hub path = hub.body path >>= λ b. within_limit path (take (max_small_file + 1) b)

unfoldable pub same_size : Size → Size → Bool
same_size (bytes n) (bytes k) = n == k
same_size (negative n) (negative k) = n == k
same_size (bytes n) (negative k) = false
same_size (negative n) (bytes k) = false

-- The variables of `compareFiles`.
pub record Compared : Type 0 where
  pub want : Assoc ManifestFile
  pub problems : List Problem
  pub licence : Option (Text × Text)

unfoldable pub with_problem : Problem → Compared → Compared
with_problem p s = record s { problems = s.problems ++ p ∷ [] }

unfoldable pub keep_licence : Text → Text → Compared → Compared
keep_licence path text s = elim s.licence [
  | some _ ↦ s
  | none ↦ if is_licence_file path then record s { licence = some (path, text) } else s
]

module _ (sha256 : Text → Text) (hub : HubAnswers) where
  -- A regular file, of which `text` was downloaded.
  unfoldable pub compare_small : ManifestFile → Text → Text → Compared → Compared
  unfolding with_problem keep_licence
  compare_small f path text s =
      if not (sha256 text ≟ f.sha256) || not (same_size (bytes (length text)) f.size)
      then with_problem (other_content path) s
      else keep_licence path text s

  unfoldable pub compare_content :
      ManifestFile → Text → Option (Text × Size) → Compared → Result CheckError Compared
  unfolding compare_small small
  compare_content f path (some (oid, size)) s = ok (
      if not (f.sha256 ≟ oid) || not (same_size f.size size)
      then with_problem (other_content path) s
      else s)
  compare_content f path none s = small hub path >>= λ text. ok (compare_small f path text s)

  unfoldable pub compare_found :
      Option ManifestFile → TreeEntry → Compared → Result CheckError Compared
  unfolding compare_content
  compare_found none e s = ok (with_problem (not_in_record e.path) s)
  compare_found (some f) e s =
      let content = compare_content f e.path e.lfs s in
      if not (f.git_sha1 ≟ e.oid)
      then ok (with_problem (other_git_id e.path f.git_sha1 e.oid) s)
      else content

  -- One round of the loop over the tree.
  unfoldable pub compare_entry : TreeEntry → Compared → Result CheckError Compared
  unfolding compare_found
  compare_entry e s =
      let found = compare_found (get e.path s.want) e (record s { want = remove e.path s.want }) in
      if not e.is_file then ok s else found

  unfoldable pub compare_tree : List TreeEntry → Compared → Result CheckError Compared
  unfolding compare_entry
  compare_tree [] s = ok s
  compare_tree (e ∷ es) s = compare_entry e s >>= compare_tree es

  unfoldable pub want_from : Assoc ManifestFile → List ManifestFile → Assoc ManifestFile
  want_from want [] = want
  want_from want (f ∷ fs) = want_from (put f.path f want) fs

  -- What is left in `want` is a problem each.
  unfoldable pub missing : Assoc ManifestFile → List Problem
  missing [] = []
  missing ((p, f) ∷ want) = not_on_hub p ∷ missing want

  unfoldable pub conclude : Compared → Result CheckError (Option (Text × Text))
  unfolding missing
  conclude s =
      let problems = s.problems ++ missing s.want in
      if ltb 0 (length problems) then err (does_not_match problems) else ok s.licence

  -- `compareFiles`
  unfoldable pub compare_files :
      List ManifestFile → List TreeEntry → Result CheckError (Option (Text × Text))
  unfolding compare_tree conclude want_from
  compare_files files tree =
      compare_tree tree (record { want = want_from [] files; problems = []; licence = none })
      >>= conclude
