-- ===== src/Manifest/Validity.antt =====
-- What `Validate` of internal/manifest/manifest.go accepts.
use weightkeep.Prelude.{
  Text, ◌≟◌, List, [], ◌∷◌, true, false, not, any, ==_iff, if◌then◌else◌, Result, ok, err, ◌>>=◌,
  >>=-eq-ok, All, ◌≡◌, ◌↔◌, refl, arith,
}
use weightkeep.Ids.{IdError, is_commit, is_sha256, validate_path, validate_repo_id}
use weightkeep.Manifest.Record.{
  Manifest, ManifestFile, ManifestError, format_version, is_repo_type, is_negative, wrap,
  check_manifest_file, check_manifest_files, validate,
}

-- The form of one file.
pub record IsFile (f : ManifestFile) : Type 0 where
  pub safe : validate_path f.path ≡ ok tt
  pub hashed : is_sha256 f.sha256 ≡ true
  pub identified : is_commit f.git_sha1 ≡ true
  pub sized : is_negative f.size ≡ false

-- No path stands twice, and none is among those seen.
abbrev pub AllNew : List Text → List ManifestFile → Type 0
AllNew seen [] = Unit
AllNew seen (f ∷ fs) = (any (λ p. p ≟ f.path) seen ≡ false) × AllNew (f.path ∷ seen) fs

pub record IsValid (m : Manifest) : Type 0 where
  pub current : m.version ≡ format_version
  pub typed : is_repo_type m.repo_type ≡ true
  pub named : validate_repo_id m.repo_id ≡ ok tt
  pub pinned : is_commit m.commit ≡ true
  pub well_formed : All IsFile m.files
  pub distinct : AllNew [] m.files

wrap-ok : (r : Result IdError (Unit {0})) → wrap r ≡ ok tt → r ≡ ok tt
unfolding wrap
wrap-ok (ok x) h = refl
wrap-ok (err e) h = cc

check_manifest_file_iff :
    (seen : List Text) (f : ManifestFile)
    → (check_manifest_file seen f ≡ ok tt) ↔ (IsFile f × (any (λ p. p ≟ f.path) seen ≡ false))
unfolding check_manifest_file
check_manifest_file_iff seen f = (
  λ h.
      let (_, safe, rest) = >>=-eq-ok (wrap (validate_path f.path)) _ h in
      (
        record {
          safe = wrap-ok (validate_path f.path) safe;
          hashed = ground arith;
          identified = ground arith;
          sized = ground arith;
        },
        ground arith,
      ),
  λ (g, new). rw (g.safe, wrap, new, g.hashed, g.identified, g.sized) refl,
)

check_manifest_files_iff :
    (seen : List Text) (fs : List ManifestFile)
    → (check_manifest_files seen fs ≡ ok tt) ↔ (All IsFile fs × AllNew seen fs)
unfolding check_manifest_files
check_manifest_files_iff seen [] = (λ h. (tt, tt), λ h. refl)
check_manifest_files_iff seen (f ∷ fs) = (
  λ h.
      let (_, first, rest) = >>=-eq-ok (check_manifest_file seen f) _ h in
      let (good, new) = (check_manifest_file_iff seen f).0 first in
      let (goods, news) = (check_manifest_files_iff (f.path ∷ seen) fs).0 rest in
      ((good, goods), (new, news)),
  λ ((good, goods), (new, news)).
      rw ((check_manifest_file_iff seen f).1 (good, new))
        ((check_manifest_files_iff (f.path ∷ seen) fs).1 (goods, news)),
)

-- `Validate` accepts exactly the manifests of the current version with a known repository type, a
-- valid repository id and a commit id, whose files have safe paths, none twice, a SHA-256, a git id
-- and a size that is not negative.
pub validate_iff : (m : Manifest) → (validate m ≡ ok tt) ↔ IsValid m
unfolding validate
validate_iff m = (
  λ h.
      let rest : (wrap (validate_repo_id m.repo_id) >>= λ _.
      if not (is_commit m.commit)
      then err (ManifestError.bad_commit m.commit)
      else check_manifest_files [] m.files)
          ≡ ok tt =
        ground arith in
      let (_, named, files) = >>=-eq-ok (wrap (validate_repo_id m.repo_id)) _ rest in
      let listed : check_manifest_files [] m.files ≡ ok tt = ground arith in
      let (good, new) = (check_manifest_files_iff [] m.files).0 listed in
      record {
        current = ground (arith, ==_iff m.version format_version);
        typed = ground arith;
        named = wrap-ok (validate_repo_id m.repo_id) named;
        pinned = ground arith;
        well_formed = good;
        distinct = new;
      },
  λ v.
      let listed = (check_manifest_files_iff [] m.files).1 (v.well_formed, v.distinct) in
      rw (v.current, v.typed, v.named, wrap, v.pinned, listed) refl,
)
