-- ===== src/Oms.antt =====
-- internal/oms/oms.go: the statement that a bundle signs, made from a manifest and compared with one.
use weightkeep.Prelude.{
  ℕ, zero, suc, ◌+◌, ◌-◌, ◌*◌, Text, codes, ◌≟◌, List, [], ◌∷◌, ◌++◌, Bool, true, false, not, ◌&&◌,
  ◌||◌, ltb, leb, ◌==◌, if◌then◌else◌, any, length, has_prefix, cut, text_less, sort_by, format_int,
  Assoc, get, put, remove, Option, none, some, Result, ok, err, ◌>>=◌,
}
use weightkeep.Ids.{slash}
use weightkeep.Manifest.Record.{Manifest, ManifestFile, bytes}
pub mod Mismatches
pub mod Signed
pub mod Roundtrip
pub mod Verify
pub mod Verified

abbrev pub default_ignored : List Text
default_ignored = codes ".git" ∷ codes ".gitignore" ∷ codes ".gitattributes" ∷ codes ".github" ∷ []

-- The first component of a path.
unfoldable pub top_of : Text → Text
top_of path = elim (cut slash path) [ none ↦ path | some (top, _) ↦ top ]

unfoldable pub ignored : Text → Bool
unfolding top_of
ignored path = any (λ d. top_of path ≟ d) default_ignored

pub record Resource : Type 0 where
  pub name : Text
  pub digest : Text

-- A statement, with the fields that vary: the subject and its digest, and the predicate.
pub record Statement : Type 0 where
  pub subject : Text
  pub root : Text
  pub resources : List Resource
  pub ignore_paths : List Text

pub data OmsError : Type 0 where
  no_digest bad_digest : Text → OmsError
  nothing_to_sign : OmsError

-- `hex.DecodeString`
unfoldable pub hex_value : ℕ → Option ℕ
hex_value c =
    if leb 48 c && leb c 57
    then some (c - 48)
    else if leb 97 c && leb c 102
    then some (c - 87)
    else if leb 65 c && leb c 70
    then some (c - 55)
    else none

abbrev pub hex_byte : Option ℕ → Option ℕ → Option Text → Option Text
hex_byte (some high) (some low) (some rest) = some ((high * 16 + low) ∷ rest)
hex_byte _ _ _ = none

unfoldable pub hex_decode : Text → Option Text
unfolding hex_value
hex_decode [] = some []
hex_decode (c ∷ []) = none
hex_decode (c ∷ d ∷ s) = hex_byte (hex_value c) (hex_value d) (hex_decode s)

-- The bytes that `RootDigest` hashes.
abbrev pub digest_bytes : Text → Option Text → Result OmsError Text → Result OmsError Text
digest_bytes name none rest = err (bad_digest name)
digest_bytes name (some b) rest = rest >>= λ bs. ok (b ++ bs)

unfoldable pub raw_digests : List Resource → Result OmsError Text
unfolding hex_decode
raw_digests [] = ok []
raw_digests (r ∷ rs) = digest_bytes r.name (hex_decode r.digest) (raw_digests rs)

-- The loop of `FromManifest`.
unfoldable pub resources_of : List ManifestFile → Result OmsError (List Resource)
unfolding ignored
resources_of [] = ok []
resources_of (f ∷ fs) =
    let rest = resources_of fs in
    if ignored f.path
    then rest
    else if f.sha256 ≟ []
    then err (no_digest f.path)
    else rest >>= λ rs. ok (record { name = f.path; digest = f.sha256 } ∷ rs)

-- SHA-256 with the result in hex.
module _ (sha256 : Text → Text) where
  -- `RootDigest`
  unfoldable pub root_digest : List Resource → Result OmsError Text
  unfolding raw_digests
  root_digest rs = raw_digests rs >>= λ bs. ok (sha256 bs)

  unfoldable pub statement_of : Text → List Resource → Result OmsError Statement
  unfolding root_digest
  statement_of name rs =
      let sorted = sort_by (λ r s. text_less r.name s.name) rs in
      let made = root_digest sorted >>= λ root. ok (record {
        subject = name;
        root = root;
        resources = sorted;
        ignore_paths = default_ignored;
      }) in
      if length rs == 0 then err nothing_to_sign else made

  -- `FromManifest`
  unfoldable pub from_manifest : Manifest → Text → Result OmsError Statement
  unfolding resources_of statement_of
  from_manifest m name = resources_of m.files >>= statement_of name

-- `pae`
unfoldable pub pae : Text → Text → Text
pae payload_type payload =
    codes "DSSEv1 "
    ++ format_int (length payload_type)
    ++ codes " "
    ++ payload_type
    ++ codes " "
    ++ format_int (length payload)
    ++ codes " "
    ++ payload

pub data MismatchReason : Type 0 where
  not_signed other_digest not_in_revision : MismatchReason

pub record Mismatch : Type 0 where
  pub path : Text
  pub reason : MismatchReason

-- `isIgnored` in `Compare`.
unfoldable pub is_ignored : List Text → Text → Bool
unfolding ignored
is_ignored ignore p = ignored p || any (λ q. (p ≟ q) || has_prefix p (q ++ slash ∷ [])) ignore

unfoldable pub signed_from : Assoc Text → List Resource → Assoc Text
signed_from signed [] = signed
signed_from signed (r ∷ rs) = signed_from (put r.name r.digest signed) rs

unfoldable pub judge_signed : ManifestFile → Option Text → List Mismatch → List Mismatch
judge_signed f none out = out ++ record { path = f.path; reason = not_signed } ∷ []
judge_signed f (some want) out =
    if not (want ≟ f.sha256)
    then out ++ record { path = f.path; reason = other_digest } ∷ []
    else out

-- One round of the loop over the files.
unfoldable pub judge : List Text → ManifestFile → Assoc Text → List Mismatch → List Mismatch
unfolding is_ignored judge_signed
judge ignore f signed out =
    if is_ignored ignore f.path then out else judge_signed f (get f.path signed) out

unfoldable pub judge_files :
    List Text → List ManifestFile → Assoc Text → List Mismatch → Assoc Text × List Mismatch
unfolding judge
judge_files ignore [] signed out = (signed, out)
judge_files ignore (f ∷ fs) signed out =
    judge_files ignore fs (remove f.path signed) (judge ignore f signed out)

unfoldable pub left_over : Assoc Text → List Mismatch
left_over [] = []
left_over ((p, digest) ∷ signed) = record { path = p; reason = not_in_revision } ∷ left_over signed

-- `Compare`
unfoldable pub compare_signed : Statement → Manifest → List Mismatch
unfolding judge_files left_over signed_from
compare_signed st m =
    let judged = judge_files st.ignore_paths m.files (signed_from [] st.resources) [] in
    sort_by (λ a b. text_less a.path b.path) (judged.1 ++ left_over judged.0)

-- The manifest that `VerifyDir` makes of the files of a directory and their sums, without the bundle.
unfoldable pub dir_files : Text → Assoc Text → List ManifestFile
dir_files bundle_name [] = []
dir_files bundle_name ((p, sum) ∷ sums) =
    let rest = dir_files bundle_name sums in
    if p ≟ bundle_name
    then rest
    else record { path = p; size = bytes 0; sha256 = sum; git_sha1 = []; lfs = false } ∷ rest

-- `VerifyDir`, with the sums that the walk of the directory gives, or its failure.
unfoldable pub verify_dir : Statement → Option (Assoc Text) → Text → Option (List Mismatch)
unfolding compare_signed dir_files
verify_dir st none bundle_name = none
verify_dir st (some sums) bundle_name = some (
    compare_signed st (record {
      version = 0;
      repo_type = [];
      repo_id = [];
      commit = [];
      upstream = [];
      license = record { ids = []; name = []; link = []; gated = []; base_models = [] };
      files = dir_files bundle_name sums;
    }))
