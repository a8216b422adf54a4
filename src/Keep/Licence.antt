-- ===== src/Keep/Licence.antt =====
-- internal/keep/licence.go: `Licence`, the decision on a kept revision, and what `SeedPlan` of seed.go
-- makes of it.
use weightkeep.Prelude.{
  ◌^◌, Text, List, [], ◌∷◌, Bool, true, false, not, if◌then◌else◌, map, take, Option, none, some,
  Result, ok, err, ◌>>=◌, get,
}
use weightkeep.Ids.{is_sha256, IdError}
use weightkeep.Hub.Repo.{Repo, parse_repo}
use weightkeep.Manifest.Record.{Manifest, ManifestFile}
use weightkeep.Policy.Table.{a}
use weightkeep.Policy.Texts.{is_licence_file}
use weightkeep.Policy.{Base, Input, Decision, tier_of, evaluate}
use weightkeep.Registry.Check.{RepoInfo}
use weightkeep.Store.{File, Disk, StoreError, not_found, io}
use weightkeep.Keep.Seed.{SeedOptions, Summary, Refusal, refusal}

-- What is read of an open blob, unless that fails: at most 1 MiB.
unfoldable pub read_text : Bool → Option File → Result StoreError Text
read_text broken none = err not_found
read_text broken (some f) = if broken then err io else ok (take (2 ^ 20) f.content)

-- `readSmall`
unfoldable pub read_small : (Text → Bool) → ManifestFile → Disk → Result StoreError Text
unfolding read_text
read_small broken f d =
    if not (is_sha256 f.sha256)
    then err not_found
    else read_text (broken f.sha256) (get f.sha256 d.blobs)

-- The loop over the files: the text and the path of the first licence file, if there is one.
unfoldable pub own_licence :
    (Text → Bool) → List ManifestFile → Disk → Result StoreError (Option Text × Text)
unfolding read_small
own_licence broken [] d = ok (none, [])
own_licence broken (f ∷ fs) d =
    let rest = own_licence broken fs d in
    let found = read_small broken f d >>= λ text. ok (some text, f.path) in
    if is_licence_file f.path then found else rest

-- What the Hub answers on a base model; without an answer the tier stays that of the zero value.
unfoldable pub base_found : Text → Option RepoInfo → Base
base_found id none = record { id = id; tier = a; known = false }
base_found id (some info) = record {
  id = id;
  tier = tier_of info.license info.license_name info.gated info.private;
  known = true;
}

-- The lookup of a base model at `main`, if it is asked for and there is a client of the Hub.
unfoldable pub base_answer :
    Bool → Option (Repo → Option RepoInfo) → Result IdError Repo → Option RepoInfo
base_answer online none repo = none
base_answer online (some hub) (err e) = none
base_answer online (some hub) (ok repo) = if online then hub repo else none

unfoldable pub base_model : Bool → Option (Repo → Option RepoInfo) → Text → Base
unfolding base_found base_answer
base_model online hub id = base_found id (base_answer online hub (parse_repo id))

-- At most `maxBases` base models are looked up.
unfoldable pub bases_of : Bool → Option (Repo → Option RepoInfo) → Manifest → List Base
unfolding base_model
bases_of online hub m = map (base_model online hub) (take 5 m.license.base_models)

-- The input of the policy: `Private` and `Denylisted` are never set.
unfoldable pub licence_input : Manifest → List Base → Option Text × Text → Input
licence_input m bases (text, path) = record {
  license_ids = m.license.ids;
  license_name = m.license.name;
  gated = m.license.gated;
  private = false;
  denylisted = false;
  license_file = text;
  license_file_path = path;
  bases = bases;
}

-- `Licence`
unfoldable pub licence :
    (Text → Bool)
    → Option (Repo → Option RepoInfo)
    → Bool
    → Manifest
    → Disk
    → Result StoreError Decision
unfolding own_licence bases_of licence_input
licence broken hub online m d = own_licence broken m.files d >>= λ own.
    ok (evaluate (licence_input m (bases_of online hub m) own))

-- The body of the loop of `SeedPlan` after the manifest is loaded: why the revision is not seeded, or
-- nothing.
unfoldable pub seed_candidate :
    (Text → Bool)
    → Option (Repo → Option RepoInfo)
    → Bool
    → SeedOptions
    → Summary
    → Manifest
    → Disk
    → Result StoreError (Option Refusal)
unfolding licence
seed_candidate broken hub online opt s m d =
    licence broken hub online m d >>= λ decision. ok (refusal opt s decision)
