-- ===== src/Registry.antt =====
-- internal/registry/registry.go: the records and the denylist of the community registry.
use weightkeep.Prelude.{
  ℕ, suc, ◌+◌, Text, codes, ◌≟◌, List, [], ◌∷◌, ◌++◌, Bool, true, false, not, ◌&&◌, ◌||◌, any, ◌==◌,
  if◌then◌else◌, has_prefix, Option, none, some, Result, ok, err, ◌>>=◌,
}
use weightkeep.Ids.{slash, is_commit, is_sha256}
use weightkeep.Manifest.Record.{Manifest, ManifestFile, ManifestError, format_version, validate}
pub mod Denied
pub mod Check
pub mod Submission
pub mod Comparison
pub mod Accepted
pub mod Vetting

-- `Repo.String` of internal/manifest.
unfoldable pub manifest_repo : Manifest → Text
manifest_repo m =
    if m.repo_type ≟ codes "model" then m.repo_id else m.repo_type ++ codes "s/" ++ m.repo_id

-- `RecordTarget`
unfoldable pub record_target : Text → Text → Text → Text
record_target repo_type repo_id commit =
    repo_type ++ codes "s/" ++ repo_id ++ slash ∷ commit ++ codes ".json"

pub record RegistryRecord : Type 0 where
  pub version : ℕ
  pub manifest : Option Manifest
  pub magnet : Text

pub data RecordError : Type 0 where
  unsupported_record : ℕ → RecordError
  no_manifest : RecordError
  bad_manifest : ManifestError → RecordError
  not_magnet : Text → RecordError

unfoldable pub check_magnet : Text → Manifest → Result RecordError Manifest
check_magnet magnet m =
    if not (magnet ≟ []) && not (has_prefix magnet (codes "magnet:?"))
    then err (not_magnet magnet)
    else ok m

unfoldable pub check_listed : Text → Option Manifest → Result RecordError Manifest
unfolding check_magnet
check_listed magnet none = err no_manifest
check_listed magnet (some m) = elim (validate m) [
  | err e ↦ err (bad_manifest e)
  | ok _ ↦ check_magnet magnet m
]

-- `Record.Validate`, which gives the manifest that the record has.
unfoldable pub validate_record : RegistryRecord → Result RecordError Manifest
unfolding check_listed
validate_record r =
    if not (r.version == format_version)
    then err (unsupported_record r.version)
    else check_listed r.magnet r.manifest

pub record DenyEntry : Type 0 where
  pub repo : Text
  pub commit : Text
  pub sha256 : Text
  pub reason : Text

pub record Denylist : Type 0 where
  pub version : ℕ
  pub entries : List DenyEntry

pub data DenylistError : Type 0 where
  unsupported_denylist : ℕ → DenylistError
  no_reason no_subject bad_content bad_revision : ℕ → DenylistError

-- The loop of `Denylist.Validate`, from entry `i`.
unfoldable pub check_entries : ℕ → List DenyEntry → Result DenylistError (Unit {0})
check_entries i [] = ok tt
check_entries i (e ∷ es) =
    let rest = check_entries (suc i) es in
    if e.reason ≟ []
    then err (no_reason i)
    else if e.repo ≟ [] && e.sha256 ≟ []
    then err (no_subject i)
    else if not (e.sha256 ≟ []) && not (is_sha256 e.sha256)
    then err (bad_content i)
    else if not (e.commit ≟ []) && (e.repo ≟ [] || not (is_commit e.commit))
    then err (bad_revision i)
    else rest

-- `Denylist.Validate`
unfoldable pub validate_denylist : Denylist → Result DenylistError (Unit {0})
unfolding check_entries
validate_denylist d =
    if not (d.version == format_version)
    then err (unsupported_denylist d.version)
    else check_entries 0 d.entries

-- `strings.EqualFold` of the standard library, which knows all of Unicode.
module _ (equal_fold : Text → Text → Bool) where
  -- The two tests in `Match`.
  unfoldable pub names_revision : Manifest → DenyEntry → Bool
  unfolding manifest_repo
  names_revision m e =
      not (e.repo ≟ [])
      && equal_fold e.repo (manifest_repo m)
      && (e.commit ≟ [] || e.commit ≟ m.commit)

  unfoldable pub names_content : Manifest → DenyEntry → Bool
  names_content m e = not (e.sha256 ≟ []) && any (λ f. f.sha256 ≟ e.sha256) m.files

  unfoldable pub first_match : Manifest → List DenyEntry → Option DenyEntry
  unfolding names_revision names_content
  first_match m [] = none
  first_match m (e ∷ es) =
      let rest = first_match m es in
      if names_revision m e then some e else if names_content m e then some e else rest

  -- `Match`; there may be no denylist.
  unfoldable pub match : Option Denylist → Manifest → Option DenyEntry
  unfolding first_match
  match none m = none
  match (some d) m = first_match m d.entries
