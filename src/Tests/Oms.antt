-- ===== src/Tests/Oms.antt =====
-- The statement of a revision of one file.
use weightkeep.Prelude.{
  Text, codes, [], ◌∷◌, ok, replicate, sort_by, get, some, ◌≟◌, All, ◌≡◌, refl,
}
use weightkeep.Ids.{
  is_alnum, is_commit, is_hex, is_sha256, contains_dotdot, segment_re, validate_repo_id,
  validate_path,
}
use weightkeep.Manifest.Record.{validate, is_repo_type, check_manifest_files, check_manifest_file}
use weightkeep.Oms.{Statement, default_ignored, from_manifest, compare_signed, signed_from}
use weightkeep.Oms.Mismatches.{IsSigned, HasPath, compare_signed-IsSigned}
use weightkeep.Oms.Roundtrip.{from_manifest-compare_signed}
use weightkeep.Tests.Proxy.{one_file}

abbrev sum_of : Text → Text
sum_of s = codes "root"

abbrev pub statement : Statement
statement = record {
  subject = codes "m";
  root = codes "root";
  resources = record { name = codes "a"; digest = replicate 64 b'b' } ∷ [];
  ignore_paths = default_ignored;
}

made : from_manifest sum_of one_file (codes "m") ≡ ok statement
unfolding from_manifest ◌≟◌ sort_by
made = refl

valid : validate one_file ≡ ok tt
unfolding validate is_repo_type ◌≟◌ validate_repo_id segment_re is_alnum contains_dotdot is_commit
    is_hex check_manifest_files check_manifest_file validate_path is_sha256
valid = refl

clean : compare_signed statement one_file ≡ []
clean = from_manifest-compare_signed sum_of one_file (codes "m") statement valid made

from_manifest-compare_signed_example : compare_signed statement one_file ≡ []
from_manifest-compare_signed_example =
    from_manifest-compare_signed sum_of one_file (codes "m") statement valid made

compare_signed-IsSigned_example :
    All (IsSigned default_ignored (signed_from [] statement.resources)) one_file.files
    × ((k d : Text)
        → get k (signed_from [] statement.resources) ≡ some d
        → HasPath k one_file.files)
compare_signed-IsSigned_example = compare_signed-IsSigned statement one_file clean
