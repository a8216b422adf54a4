-- ===== src/Proxy/Route.antt =====
-- internal/proxy/route.go: what a request asks for, from its escaped path.
use weightkeep.Prelude.{
  ℕ, Text, codes, ◌≟◌, List, [], ◌∷◌, ◌++◌, Bool, true, false, ◌||◌, if◌then◌else◌, Option, none,
  some, Result, ok, err, ◌>>=◌, trim_prefix, cut, drop,
}
use weightkeep.Ids.{IdError, slash, validate_path, validate_repo_id}
use weightkeep.Hub.Repo.{RepoType, model, dataset, space, untyped, Repo, url_prefix}
use weightkeep.Hub.Escape.{path_unescape}

pub data RouteKind : Type 0 where
  unknown resolve info tree refs paths_info api_other : RouteKind

pub record Route : Type 0 where
  pub kind : RouteKind
  pub repo : Repo
  pub rev : Text
  pub path : Text

pub data RouteError : Type 0 where
  bad_escape no_file_path : RouteError
  bad_revision : Text → RouteError
  bad_name : IdError → RouteError

-- `route{kind: kind}`
abbrev pub blank : RouteKind → Route
blank kind = record { kind = kind; repo = record { type = untyped; id = [] }; rev = []; path = [] }

cons_before : ℕ → Option (Text × Text) → Option (Text × Text)
cons_before c none = none
cons_before c (some (before, after)) = some (c ∷ before, after)

-- What stands before and after the first occurrence of a marker: `strings.Index` and two slices.
unfoldable pub cut_at : Text → Text → Option (Text × Text)
unfolding cons_before
cut_at marker [] = elim (trim_prefix [] marker) [ some rest ↦ some ([], rest) | none ↦ none ]
cut_at marker (c ∷ s) =
    let later = cons_before c (cut_at marker s) in
    elim (trim_prefix (c ∷ s) marker) [ some rest ↦ some ([], rest) | none ↦ later ]

-- The same where the index must be positive.
unfoldable pub cut_inside : Text → Text → Option (Text × Text)
unfolding cut_at
cut_inside marker s = elim (cut_at marker s) [
  | none ↦ none
  | some (before, after) ↦ if before ≟ [] then none else some (before, after)
]

-- `strings.Cut(s, "/")`, without its third result.
unfoldable pub cut_slash : Text → Text × Text
cut_slash s = elim (cut slash s) [ none ↦ (s, []) | some parts ↦ parts ]

-- `strings.CutSuffix(s, suffix)`
unfoldable pub trim_suffix : Text → Text → Option Text
trim_suffix suffix [] = if [] ≟ suffix then some [] else none
trim_suffix suffix (c ∷ s) =
    let rest = trim_suffix suffix s in
    if (c ∷ s) ≟ suffix then some [] else elim rest [ none ↦ none | some t ↦ some (c ∷ t) ]

unfoldable pub unescape : Text → Result RouteError Text
unescape s = elim (path_unescape s) [ none ↦ err bad_escape | some t ↦ ok t ]

-- An error of package ids, passed on.
unfoldable pub checked : Result IdError (Unit {0}) → Result RouteError (Unit {0})
checked (ok _) = ok tt
checked (err e) = err (bad_name e)

unfoldable pub repo_from : RepoType → Text → Result RouteError Repo
repo_from t escaped_id = unescape escaped_id >>= λ id.
    checked (validate_repo_id id) >>= λ _. ok (record { type = t; id = id })

-- `url.PathUnescape` of a revision, which may not be empty.
unfoldable pub revision_from : Text → Result RouteError Text
revision_from escaped = elim (path_unescape escaped) [
  | none ↦ err (bad_revision escaped)
  | some rev ↦ if rev ≟ [] then err (bad_revision escaped) else ok rev
]

-- `strings.TrimSuffix(path, "/")`
unfoldable pub without_slash : Text → Text
without_slash path = elim (trim_suffix (slash ∷ []) path) [ none ↦ path | some p ↦ p ]

unfoldable pub is_info : RouteKind → Bool
is_info info = true
is_info _ = false

-- The body of the loop over the markers, for a marker that was found.
unfoldable pub endpoint : RouteKind → RepoType → Text → Text → Result RouteError Route
endpoint kind t before tail = repo_from t before >>= λ repo.
    let (rev_escaped, path_escaped) = cut_slash tail in
    revision_from rev_escaped >>= λ rev.
    if path_escaped ≟ []
    then ok (record { kind = kind; repo = repo; rev = rev; path = [] })
    else if is_info kind
    then ok (blank api_other)
    else unescape path_escaped >>= λ path. checked (validate_path (without_slash path)) >>= λ _.
        ok (record { kind = kind; repo = repo; rev = rev; path = without_slash path })

-- What follows the loop: `/refs`, or the default branch.
unfoldable pub refs_or_default : RepoType → Text → Result RouteError Route
refs_or_default t rest = elim (trim_suffix (codes "/refs") rest) [
  | some id ↦
      repo_from t id >>= λ repo. ok (record { kind = refs; repo = repo; rev = []; path = [] })
  | none ↦ elim (repo_from t rest) [
    | ok repo ↦ ok (record { kind = info; repo = repo; rev = codes "main"; path = [] })
    | err e ↦ ok (blank api_other)
  ]
]

abbrev pub markers : List (Text × RouteKind)
markers =
    (codes "/revision/", info) ∷ (codes "/tree/", tree) ∷ (codes "/paths-info/", paths_info) ∷ []

-- The loop.
unfoldable pub first_marker : List (Text × RouteKind) → RepoType → Text → Result RouteError Route
first_marker [] t rest = refs_or_default t rest
first_marker ((marker, kind) ∷ ms) t rest = elim (cut_inside marker rest) [
  | some (before, tail) ↦ endpoint kind t before tail
  | none ↦ first_marker ms t rest
]

unfoldable pub parse_api : Text → Result RouteError Route
parse_api s =
    let (segment, rest) = cut_slash s in
    if segment ≟ codes "models"
    then first_marker markers model rest
    else if segment ≟ codes "datasets"
    then first_marker markers dataset rest
    else if segment ≟ codes "spaces"
    then first_marker markers space rest
    else ok (blank api_other)

-- One round of the loop over `{Dataset, Space}` in `parseResolve`.
unfoldable pub strip_type : RepoType → RepoType × Text → RepoType × Text
strip_type candidate (t, part) = elim (trim_prefix part (url_prefix candidate)) [
  | none ↦ (t, part)
  | some rest ↦ (candidate, rest)
]

-- A revision `refs/pr/1` that was sent unencoded: the revision and the rest of the path.
unfoldable pub plain_ref : Text → Text → Text × Text
plain_ref rev path =
    if rev ≟ codes "refs"
    then elim (cut slash path) [
      | none ↦ (rev, path)
      | some (first, more) ↦ elim (cut slash more) [
        | none ↦ (rev, path)
        | some (second, last) ↦
            if first ≟ codes "pr" || first ≟ codes "convert"
            then (codes "refs/" ++ (first ++ slash ∷ second), last)
            else (rev, path)
      ]
    ]
    else (rev, path)

unfoldable pub resolve_tail : Repo → Text → Text → Result RouteError Route
resolve_tail repo rev_escaped path_escaped = revision_from rev_escaped >>= λ rev.
    let (rev', rest) = plain_ref rev path_escaped in
    unescape rest >>= λ path. checked (validate_path path) >>= λ _.
    ok (record { kind = resolve; repo = repo; rev = rev'; path = path })

unfoldable pub parse_resolve : Text → Text → Result RouteError Route
parse_resolve part tail =
    let (t, id) = strip_type space (strip_type dataset (model, part)) in
    repo_from t id >>= λ repo. elim (cut slash tail) [
      | none ↦ err no_file_path
      | some (rev_escaped, path_escaped) ↦
          if path_escaped ≟ [] then err no_file_path else resolve_tail repo rev_escaped path_escaped
    ]

unfoldable pub parse_route : Text → Result RouteError Route
parse_route escaped = elim (trim_prefix escaped (codes "/api/")) [
  | some rest ↦ parse_api rest
  | none ↦ elim (cut_inside (codes "/resolve/") escaped) [
    | some (before, after) ↦ parse_resolve (drop 1 before) after
    | none ↦ ok (blank unknown)
  ]
]
