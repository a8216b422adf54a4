-- ===== src/Tests/Registry.antt =====
-- A record of one regular file, submitted to the registry.
use weightkeep.Prelude.{
  Text, codes, ◌≟◌, [], ◌∷◌, true, false, get, remove, put, none, some, ok, replicate, ◌≡◌, refl,
}
use weightkeep.Ids.{
  is_alnum, is_commit, is_hex, is_sha256, contains_dotdot, segment_re, validate_repo_id,
  validate_path,
}
use weightkeep.Hub.Repo.{parse_repo}
use weightkeep.Manifest.Record.{
  Manifest, validate, is_repo_type, check_manifest_files, check_manifest_file,
}
use weightkeep.Manifest.Validity.{IsValid}
use weightkeep.Policy.{
  rank, because, because_if, is_gated, check_flags, check_file, check_known, check_declared,
  check_licence, check_bases, finish, evaluate,
}
use weightkeep.Policy.Texts.{is_licence_file}
use weightkeep.Registry.{RegistryRecord, Denylist, match, validate_record}
use weightkeep.Registry.Denied.{FirstOf, match-FirstOf}
use weightkeep.Registry.Check.{TreeEntry, RepoInfo, HubAnswers, small, same_size, compare_files}
use weightkeep.Registry.Submission.{check, input_of, verdict}
use weightkeep.Registry.Vetting.{IsClear, IsOpenAt, check-IsOpenAt}
use weightkeep.Tests.Proxy.{one_file}
use weightkeep.Tests.Policy.{apache, lookup_test}

abbrev submitted : RegistryRecord
submitted = record { version = 1; manifest = some one_file; magnet = codes "magnet:?xt=" }

abbrev info : RepoInfo
info = record {
  sha = replicate 40 b'a';
  gated = [];
  private = false;
  license = apache ∷ [];
  license_name = [];
  base_model = [];
}

abbrev entry : TreeEntry
entry = record { is_file = true; path = codes "a"; oid = replicate 40 b'c'; lfs = none }

abbrev hub : HubAnswers
hub = record {
  repo_info = λ repo rev. ok info;
  tree = λ repo rev. ok (record entry { is_file = false; path = codes "d" } ∷ entry ∷ []);
  body = λ path. ok (codes "abc");
}

abbrev sum_of : Text → Text
sum_of s = replicate 64 b'b'

-- Another repository and another content are denied, in the other order of the tests.
abbrev denylist : Denylist
denylist = record {
  version = 1;
  entries =
      record { repo = codes "o/n"; commit = []; sha256 = []; reason = codes "r" }
      ∷ record { repo = []; commit = []; sha256 = replicate 64 b'd'; reason = codes "r" }
      ∷ [];
}

abbrev content_denied : Denylist
content_denied = record denylist {
  entries =
      record { repo = codes "o/n"; commit = []; sha256 = []; reason = codes "r" }
      ∷ record { repo = []; commit = []; sha256 = replicate 64 b'b'; reason = codes "r" }
      ∷ [];
}

match-FirstOf_example :
    FirstOf
      (λ s t. s ≟ t)
      one_file
      content_denied.entries
      (match (λ s t. s ≟ t) (some content_denied) one_file)
match-FirstOf_example = match-FirstOf (λ s t. s ≟ t) one_file content_denied

accepted :
    check sum_of hub (λ s t. s ≟ t) submitted (some denylist)
    ≡ ok (evaluate (input_of hub info none))
unfolding check validate_record validate is_repo_type ◌≟◌ validate_repo_id segment_re is_alnum
    contains_dotdot is_commit is_hex check_manifest_files check_manifest_file validate_path
    is_sha256 match parse_repo compare_files small is_licence_file verdict rank evaluate
    check_licence check_declared check_known check_file check_flags check_bases because_if because
    finish is_gated get remove put input_of same_size
accepted = rw lookup_test refl

check-IsOpenAt_example :
    (m : Manifest) × (some one_file ≡ some m)
    × IsValid m
    × IsClear (λ s t. s ≟ t) (some denylist) m
    × IsOpenAt sum_of hub m (evaluate (input_of hub info none))
check-IsOpenAt_example =
    check-IsOpenAt sum_of hub (λ s t. s ≟ t) submitted (some denylist)
      (evaluate (input_of hub info none)) accepted
