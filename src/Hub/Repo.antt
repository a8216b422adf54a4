-- ===== src/Hub/Repo.antt =====
-- internal/hub/repo.go: repository types, ids and their textual form.
use weightkeep.Prelude.{
  Text, codes, ◌≟◌, [], ◌++◌, ◌||◌, if◌then◌else◌, trim_prefix, cut, ok, err, Result, Option, none,
  some, ◌≡◌, refl, arith, ◌∷◌,
}
use weightkeep.Ids.{IdError, slash, validate_repo_id}

-- `RepoType`; `untyped` is its zero value, the empty string.
pub data RepoType : Type 0 where
  model dataset space untyped : RepoType

unfoldable pub type_name : RepoType → Text
type_name model = codes "model"
type_name dataset = codes "dataset"
type_name space = codes "space"
type_name untyped = []

-- The error of `ParseRepoType` is `none`.
unfoldable pub parse_repo_type : Text → Option RepoType
parse_repo_type s =
    if s ≟ [] || s ≟ codes "model" || s ≟ codes "models"
    then some model
    else if s ≟ codes "dataset" || s ≟ codes "datasets"
    then some dataset
    else if s ≟ codes "space" || s ≟ codes "spaces"
    then some space
    else none

unfoldable pub url_prefix : RepoType → Text
unfolding type_name
url_prefix model = []
url_prefix t = type_name t ++ codes "s/"

unfoldable pub api_segment : RepoType → Text
unfolding type_name
api_segment t = type_name t ++ codes "s"

pub record Repo : Type 0 where
  pub type : RepoType
  pub id : Text

unfoldable pub repo_string : Repo → Text
unfolding url_prefix
repo_string r = elim r.type [ model ↦ r.id | untyped ↦ r.id | t ↦ url_prefix t ++ r.id ]

-- `Namespace` and `Name`, on the two results of `strings.Cut`.
unfoldable pub namespace : Repo → Text
namespace r = elim (cut slash r.id) [ none ↦ [] | some (ns, _) ↦ ns ]

unfoldable pub name : Repo → Text
name r = elim (cut slash r.id) [ none ↦ r.id | some (_, n) ↦ n ]

-- One round of the loop over `{Dataset, Space}` in `ParseRepo`.
unfoldable pub try_prefix : Text → RepoType → Repo → Repo
unfolding url_prefix
try_prefix s t r = elim (trim_prefix s (url_prefix t)) [
  | none ↦ r
  | some rest ↦ record { type = t; id = rest }
]

unfoldable pub parse_repo : Text → Result IdError Repo
unfolding try_prefix
parse_repo s =
    let r : Repo = try_prefix s space (try_prefix s dataset (record { type = model; id = s })) in
    elim (validate_repo_id r.id) [ ok _ ↦ ok r | err e ↦ err e ]

trim_prefix-append : (p s : Text) → trim_prefix (p ++ s) p ≡ some s
trim_prefix-append [] [] = refl
trim_prefix-append [] (c ∷ s) = refl
trim_prefix-append (c ∷ p) s = ground (arith, trim_prefix-append p s)

append-trim_prefix : (p s rest : Text) → trim_prefix s p ≡ some rest → p ++ rest ≡ s
append-trim_prefix [] s rest h = ground arith
append-trim_prefix (c ∷ p) [] rest h = cc
append-trim_prefix (c ∷ p) (d ∷ s) rest h = ground (arith, append-trim_prefix p s rest)

-- An id that could be read as another type's: a model in a namespace "datasets" or "spaces".
abbrev pub IsPlain : Text → Type 0
IsPlain id = (trim_prefix id (codes "datasets/") ≡ none) × (trim_prefix id (codes "spaces/") ≡ none)

-- The repositories that `String` prints without loss.
abbrev pub IsPrintable : Repo → Type 0
IsPrintable r = elim r.type [ model ↦ IsPlain r.id | untyped ↦ ⊥ | _ ↦ Unit ]

parse_repo-string_at :
    (t : RepoType) (id : Text)
    → validate_repo_id id ≡ ok tt
    → IsPrintable (record { type = t; id = id })
    → parse_repo (repo_string (record { type = t; id = id })) ≡ ok (record { type = t; id = id })
unfolding parse_repo repo_string
parse_repo-string_at model id v h = ground arith
parse_repo-string_at dataset id v h = ground arith
parse_repo-string_at space id v h = ground arith
parse_repo-string_at untyped id v h = absurd h

-- A printable repository whose id is valid is read back from its textual form: its type and its id.
pub parse_repo-string :
    (r : Repo) → validate_repo_id r.id ≡ ok tt → IsPrintable r → parse_repo (repo_string r) ≡ ok r
parse_repo-string r = parse_repo-string_at r.type r.id

-- Whatever text `ParseRepo` accepts, the repository prints as that text, and its id is valid.
string-parse_repo :
    (s : Text) {r : Repo}
    → parse_repo s ≡ ok r
    → (repo_string r ≡ s) × (validate_repo_id r.id ≡ ok tt)
unfolding parse_repo repo_string
string-parse_repo s h =
    ground (arith, append-trim_prefix (codes "datasets/") s, append-trim_prefix (codes "spaces/") s)
