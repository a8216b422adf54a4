-- ===== src/Manifest/Record.antt =====
-- internal/manifest/manifest.go: the manifest of a kept revision and `Validate`. The time
-- of the fetch stands beside a manifest.
use weightkeep.Prelude.{
  ℕ, Text, codes, ◌≟◌, List, [], ◌∷◌, Bool, true, false, not, ◌||◌, any, ◌==◌, if◌then◌else◌,
  Result, ok, err, ◌>>=◌,
}
use weightkeep.Ids.{IdError, is_commit, is_sha256, validate_path, validate_repo_id}

-- A size is an `int64`, whose sign a decoded manifest decides.
pub data Size : Type 0 where
  bytes : ℕ → Size
  negative : ℕ → Size

pub record ManifestFile : Type 0 where
  pub path : Text
  pub size : Size
  pub sha256 : Text
  pub git_sha1 : Text
  pub lfs : Bool

-- `License`: what the Hub reported.
pub record License : Type 0 where
  pub ids : List Text
  pub name : Text
  pub link : Text
  pub gated : Text
  pub base_models : List Text

pub record Manifest : Type 0 where
  pub version : ℕ
  pub repo_type : Text
  pub repo_id : Text
  pub commit : Text
  pub upstream : Text
  pub license : License
  pub files : List ManifestFile

pub data ManifestError : Type 0 where
  unsupported_version : ℕ → ManifestError
  unknown_repo_type bad_commit : Text → ManifestError
  bad_name : IdError → ManifestError
  listed_twice : Text → ManifestError
  bad_sha256 bad_git_sha1 : Text → Text → ManifestError
  negative_size : Text → ManifestError

abbrev pub format_version : ℕ
format_version = 1

-- `File.ETag`
unfoldable pub etag : ManifestFile → Text
etag f = if f.lfs then f.sha256 else f.git_sha1

unfoldable pub is_repo_type : Text → Bool
is_repo_type t = t ≟ codes "model" || t ≟ codes "dataset" || t ≟ codes "space"

abbrev pub is_negative : Size → Bool
is_negative (bytes n) = false
is_negative (negative n) = true

-- An error of package ids, wrapped.
unfoldable pub wrap : Result IdError (Unit {0}) → Result ManifestError (Unit {0})
wrap (ok _) = ok tt
wrap (err e) = err (bad_name e)

-- What `Validate` asks of one file, `seen` being the paths before it.
unfoldable pub check_manifest_file : List Text → ManifestFile → Result ManifestError (Unit {0})
unfolding wrap
check_manifest_file seen f = wrap (validate_path f.path) >>= λ _.
    if any (λ p. p ≟ f.path) seen
    then err (listed_twice f.path)
    else if not (is_sha256 f.sha256)
    then err (bad_sha256 f.path f.sha256)
    else if not (is_commit f.git_sha1)
    then err (bad_git_sha1 f.path f.git_sha1)
    else if is_negative f.size
    then err (negative_size f.path)
    else ok tt

unfoldable pub check_manifest_files :
    List Text → List ManifestFile → Result ManifestError (Unit {0})
check_manifest_files seen [] = ok tt
check_manifest_files seen (f ∷ fs) =
    check_manifest_file seen f >>= λ _. check_manifest_files (f.path ∷ seen) fs

-- `Validate`
unfoldable pub validate : Manifest → Result ManifestError (Unit {0})
unfolding wrap
validate m =
    if not (m.version == format_version)
    then err (unsupported_version m.version)
    else if not (is_repo_type m.repo_type)
    then err (unknown_repo_type m.repo_type)
    else wrap (validate_repo_id m.repo_id) >>= λ _.
        if not (is_commit m.commit)
        then err (bad_commit m.commit)
        else check_manifest_files [] m.files
