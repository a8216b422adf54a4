-- ===== src/Registry/Submission.antt =====
-- internal/registry/check.go: `Check`, of a submitted record.
use weightkeep.Prelude.{
  Text, codes, ◌≟◌, List, [], Bool, true, false, not, ◌||◌, ◌==◌, if◌then◌else◌, take, map, Option,
  none, some, Result, ok, err, ◌>>=◌,
}
use weightkeep.Ids.{IdError}
use weightkeep.Manifest.Record.{Manifest}
use weightkeep.Hub.Repo.{Repo, parse_repo}
use weightkeep.Policy.Table.{c}
use weightkeep.Policy.{Base, Input, Decision, rank, tier_of, evaluate}
use weightkeep.Registry.{
  RegistryRecord, RecordError, validate_record, DenyEntry, Denylist, match, manifest_repo,
}
use weightkeep.Registry.Check.{
  TreeEntry, RepoInfo, CheckError, bad_record, denied, bad_repo, other_commit, closed_repo, tier_c,
  HubAnswers, compare_files,
}

-- A base model; one that is not found has no tier, and `Evaluate` does not read it then.
unfoldable pub base_from : Text → Result CheckError RepoInfo → Base
base_from id (err e) = record { id = id; tier = c; known = false }
base_from id (ok info) = record {
  id = id;
  tier = tier_of info.license info.license_name info.gated info.private;
  known = true;
}

unfoldable pub base_of : HubAnswers → Text → Base
unfolding base_from
base_of hub id = elim (parse_repo id) [
  | err e ↦ record { id = id; tier = c; known = false }
  | ok base ↦ base_from id (hub.repo_info base (codes "main"))
]

unfoldable pub licence_text : Option (Text × Text) → Option Text
licence_text none = none
licence_text (some (path, text)) = some text

unfoldable pub licence_path : Option (Text × Text) → Text
licence_path none = []
licence_path (some (path, text)) = path

-- The input of the policy: at most five base models are looked up.
unfoldable pub input_of : HubAnswers → RepoInfo → Option (Text × Text) → Input
unfolding base_of licence_text licence_path
input_of hub info licence = record {
  license_ids = info.license;
  license_name = info.license_name;
  gated = info.gated;
  private = info.private;
  denylisted = false;
  license_file = licence_text licence;
  license_file_path = licence_path licence;
  bases = map (base_of hub) (take 5 info.base_model);
}

unfoldable pub verdict : Decision → Result CheckError Decision
verdict d = if rank d.tier == 3 then err (tier_c d) else ok d

module _ (sha256 : Text → Text) (hub : HubAnswers) where
  unfoldable pub check_tree : Manifest → RepoInfo → List TreeEntry → Result CheckError Decision
  unfolding verdict input_of
  check_tree m info tree = compare_files sha256 hub m.files tree >>= λ licence.
      verdict (evaluate (input_of hub info licence))

  unfoldable pub check_info : Repo → Manifest → RepoInfo → Result CheckError Decision
  unfolding check_tree
  check_info repo m info =
      let compared = hub.tree repo m.commit >>= check_tree m info in
      if not (info.sha ≟ m.commit)
      then err (other_commit info.sha)
      else if not (info.gated ≟ []) || info.private
      then err closed_repo
      else compared

  unfoldable pub check_repo : Manifest → Result IdError Repo → Result CheckError Decision
  unfolding check_info
  check_repo m (err e) = err (bad_repo e)
  check_repo m (ok repo) = hub.repo_info repo m.commit >>= check_info repo m

  unfoldable pub check_denied : Manifest → Option DenyEntry → Result CheckError Decision
  unfolding check_repo
  check_denied m (some e) = err (denied e)
  check_denied m none = check_repo m (parse_repo (manifest_repo m))

  unfoldable pub check_manifest :
      (Text → Text → Bool)
      → Option Denylist
      → Result RecordError Manifest
      → Result CheckError Decision
  unfolding check_denied
  check_manifest equal_fold deny (err e) = err (bad_record e)
  check_manifest equal_fold deny (ok m) = check_denied m (match equal_fold deny m)

  -- `Check`
  unfoldable pub check :
      (Text → Text → Bool) → RegistryRecord → Option Denylist → Result CheckError Decision
  unfolding check_manifest
  check equal_fold r deny = check_manifest equal_fold deny (validate_record r)
