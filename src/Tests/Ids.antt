-- ===== src/Tests/Ids.antt =====
-- Names, hashes and paths, accepted and rejected.
use mathlib.Core.List.{reverse}
use weightkeep.Prelude.{Text, codes, [], ◌≟◌, split, replicate, ok, err, some, ◌≡◌, refl}
use weightkeep.Ids.{
  invalid_repo_path, slash, is_alnum, is_name_byte, segment_re, contains_dotdot, check_names,
  check_segments, validate_repo_id, validate_path,
}
use weightkeep.Ids.Paths.{walk, os_segments, validate_path-confined}

abbrev nested : Text
nested = codes "a/b.txt"

nested_test : validate_path nested ≡ ok tt
unfolding validate_path check_segments ◌≟◌
nested_test = refl

climbing_test : validate_path (codes "a/../../etc") ≡ err invalid_repo_path
unfolding validate_path check_segments ◌≟◌
climbing_test = refl

validate_path-confined_example : walk [] (os_segments nested) ≡ some (reverse (split slash nested))
validate_path-confined_example = validate_path-confined nested nested_test

abbrev repo_id : Text
repo_id = codes "org/model-7b"

repo_id_test : validate_repo_id repo_id ≡ ok tt
unfolding validate_repo_id check_names segment_re is_alnum is_name_byte contains_dotdot
repo_id_test = refl

abbrev commit_id : Text
commit_id = replicate 40 b'c'
