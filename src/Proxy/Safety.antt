-- ===== src/Proxy/Safety.antt =====
-- What the rest of the proxy may rely on in a route.
use mathlib.Core.Path.{subst}
use weightkeep.Prelude.{
  Text, codes, ◌≟◌, ≟_iff, List, [], ◌∷◌, if_cases, Option, none, some, Result, ok, err, ◌>>=◌,
  >>=-eq-ok, cut, trim_prefix, drop, ◌≡◌, ◌≢◌, ◌⊎◌, inl, inr, refl, arith,
}
use weightkeep.Ids.{IdError, slash, validate_path, validate_repo_id}
use weightkeep.Hub.Repo.{RepoType, model, dataset, space, Repo}
use weightkeep.Proxy.Route.{
  RouteKind, unknown, resolve, info, tree, refs, paths_info, api_other, Route, RouteError, blank,
  cut_inside, cut_slash, trim_suffix, unescape, checked, repo_from, revision_from, without_slash,
  is_info, endpoint, refs_or_default, markers, first_marker, parse_api, strip_type, plain_ref,
  resolve_tail, parse_resolve, parse_route,
}

-- A route to a file names a valid repository, some revision, and a path that is safe to join onto a
-- directory; one to a listing or a description the same, with or without a path; one to the refs a
-- valid repository and nothing else; and one that is passed on or not known names nothing.
abbrev pub IsSafe : Route → Type 0
IsSafe r = elim r.kind [
  | unknown ↦ r ≡ blank unknown
  | api_other ↦ r ≡ blank api_other
  | refs ↦ (validate_repo_id r.repo.id ≡ ok tt) × (r.rev ≡ []) × (r.path ≡ [])
  | resolve ↦ (validate_repo_id r.repo.id ≡ ok tt) × (r.rev ≢ []) × (validate_path r.path ≡ ok tt)
  | _ ↦
      (validate_repo_id r.repo.id ≡ ok tt)
      × (r.rev ≢ [])
      × ((r.path ≡ []) ⊎ (validate_path r.path ≡ ok tt))
]

-- The result is safe, if it is a route.
abbrev pub SafeResult : Result RouteError Route → Type 0
SafeResult (ok r) = IsSafe r
SafeResult (err e) = Unit

bind-SafeResult {ℓ} :
    {A : Type ℓ} (m : Result RouteError A) (f : A → Result RouteError Route)
    → ((a : A) → m ≡ ok a → SafeResult (f a))
    → SafeResult (m >>= f)
bind-SafeResult (ok a) f h = h a refl
bind-SafeResult (err e) f h = tt

option-SafeResult {ℓ} :
    {A : Type ℓ} (o : Option A) (absent : Result RouteError Route)
    (found : A → Result RouteError Route)
    → SafeResult absent
    → ((a : A) → o ≡ some a → SafeResult (found a))
    → SafeResult (elim o [ none ↦ absent | some a ↦ found a ])
option-SafeResult none absent found n s = n
option-SafeResult (some a) absent found n s = s a refl

checked-ok : (r : Result IdError (Unit {0})) (x : Unit {0}) → checked r ≡ ok x → r ≡ ok tt
unfolding checked
checked-ok (ok y) x h = refl
checked-ok (err e) x h = cc

repo_from-valid :
    (t : RepoType) (s : Text) (repo : Repo)
    → repo_from t s ≡ ok repo
    → validate_repo_id repo.id ≡ ok tt
unfolding repo_from
repo_from-valid t s repo h =
    let (id, _, rest) = >>=-eq-ok (unescape s) _ h in
    let (x, valid, made) = >>=-eq-ok (checked (validate_repo_id id)) _ rest in
    let named : validate_repo_id id ≡ ok tt = checked-ok (validate_repo_id id) x valid in
    ground arith

revision_from-ne : (s rev : Text) → revision_from s ≡ ok rev → rev ≢ []
unfolding revision_from
revision_from-ne s rev h = ground (arith, ≟_iff rev [])

-- The kinds that the markers stand for.
abbrev HasPath : RouteKind → Type 0
HasPath kind = (kind ≡ info) ⊎ (kind ≡ tree) ⊎ (kind ≡ paths_info)

IsSafe-intro :
    (kind : RouteKind) (repo : Repo) (rev path : Text)
    → HasPath kind
    → validate_repo_id repo.id ≡ ok tt
    → rev ≢ []
    → (path ≡ []) ⊎ (validate_path path ≡ ok tt)
    → IsSafe (record { kind = kind; repo = repo; rev = rev; path = path })
IsSafe-intro info repo rev path k named ne safe = (named, ne, safe)
IsSafe-intro tree repo rev path k named ne safe = (named, ne, safe)
IsSafe-intro paths_info repo rev path k named ne safe = (named, ne, safe)
IsSafe-intro unknown repo rev path k named ne safe = absurd (ground arith)
IsSafe-intro api_other repo rev path k named ne safe = absurd (ground arith)
IsSafe-intro refs repo rev path k named ne safe = absurd (ground arith)
IsSafe-intro resolve repo rev path k named ne safe = absurd (ground arith)

endpoint-SafeResult :
    (kind : RouteKind) (t : RepoType) (before tail : Text)
    → HasPath kind
    → SafeResult (endpoint kind t before tail)
unfolding endpoint
endpoint-SafeResult kind t before tail k = bind-SafeResult (repo_from t before) _ (λ repo named.
    bind-SafeResult (revision_from (cut_slash tail).0) _ (λ rev given.
      let id_ok = repo_from-valid t before repo named in
      let ne = revision_from-ne (cut_slash tail).0 rev given in
      if_cases SafeResult ((cut_slash tail).1 ≟ []) _ _
        (λ _. IsSafe-intro kind repo rev [] k id_ok ne (inl refl))
        (λ _.
          if_cases SafeResult (is_info kind) _ _ (λ _. refl)
            (λ _. bind-SafeResult (unescape (cut_slash tail).1) _ (λ path _.
              bind-SafeResult (checked (validate_path (without_slash path))) _ (λ x safe.
                IsSafe-intro kind repo rev (without_slash path) k id_ok ne
                  (inr (checked-ok (validate_path (without_slash path)) x safe))))))))

refs_or_default-SafeResult : (t : RepoType) (rest : Text) → SafeResult (refs_or_default t rest)
unfolding refs_or_default
refs_or_default-SafeResult t rest =
    option-SafeResult (trim_suffix (codes "/refs") rest) _ _
      (named (repo_from t rest) (λ repo e. repo_from-valid t rest repo e))
      (λ id _.
        bind-SafeResult (repo_from t id) _ (λ repo e. (repo_from-valid t id repo e, refl, refl)))
  where
    named :
        (m : Result RouteError Repo)
        → ((repo : Repo) → m ≡ ok repo → validate_repo_id repo.id ≡ ok tt)
        → let r : Result RouteError Route = elim m [
          | ok repo ↦ ok (record { kind = info; repo = repo; rev = codes "main"; path = [] })
          | err e ↦ ok (blank api_other)
        ] in
          SafeResult r
    named (ok repo) h = (h repo refl, λ e. cc, inl refl)
    named (err e) h = refl

-- Every marker stands for a kind with a path.
abbrev AllPaths : List (Text × RouteKind) → Type 0
AllPaths [] = Unit
AllPaths ((marker, kind) ∷ ms) = HasPath kind × AllPaths ms

first_marker-SafeResult :
    (ms : List (Text × RouteKind)) (t : RepoType) (rest : Text)
    → AllPaths ms
    → SafeResult (first_marker ms t rest)
unfolding first_marker
first_marker-SafeResult [] t rest h = refs_or_default-SafeResult t rest
first_marker-SafeResult ((marker, kind) ∷ ms) t rest (k, h) =
    option-SafeResult (cut_inside marker rest) _ _ (first_marker-SafeResult ms t rest h)
      (λ parts _. endpoint-SafeResult kind t parts.0 parts.1 k)

markers-AllPaths : AllPaths markers
markers-AllPaths = (inl refl, (inr (inl refl), (inr (inr refl), tt)))

parse_api-SafeResult : (s : Text) → SafeResult (parse_api s)
unfolding parse_api
parse_api-SafeResult s =
    let (segment, rest) = cut_slash s in
    if_cases SafeResult (segment ≟ codes "models") _ _
      (λ _. first_marker-SafeResult markers model rest markers-AllPaths)
      (λ _.
        if_cases SafeResult (segment ≟ codes "datasets") _ _
          (λ _. first_marker-SafeResult markers dataset rest markers-AllPaths)
          (λ _.
            if_cases SafeResult (segment ≟ codes "spaces") _ _
              (λ _. first_marker-SafeResult markers space rest markers-AllPaths) (λ _. refl)))

plain_ref-ne : (rev path : Text) → rev ≢ [] → (plain_ref rev path).0 ≢ []
unfolding plain_ref
plain_ref-ne rev path ne = ground arith

resolve_tail-SafeResult :
    (repo : Repo) (rev path : Text)
    → validate_repo_id repo.id ≡ ok tt
    → SafeResult (resolve_tail repo rev path)
unfolding resolve_tail
resolve_tail-SafeResult repo rev path named = bind-SafeResult (revision_from rev) _ (λ r given.
    bind-SafeResult (unescape (plain_ref r path).1) _ (λ p _.
      bind-SafeResult (checked (validate_path p)) _ (λ x safe. (
        named,
        plain_ref-ne r path (revision_from-ne rev r given),
        checked-ok (validate_path p) x safe,
      ))))

parse_resolve-SafeResult : (part tail : Text) → SafeResult (parse_resolve part tail)
unfolding parse_resolve
parse_resolve-SafeResult part tail =
    let (t, id) = strip_type space (strip_type dataset (model, part)) in
    bind-SafeResult (repo_from t id) _ (λ repo named.
      option-SafeResult (cut slash tail) _ _ tt (λ parts _.
        if_cases SafeResult (parts.1 ≟ []) _ _ (λ _. tt)
          (λ _. resolve_tail-SafeResult repo parts.0 parts.1 (repo_from-valid t id repo named))))

parse_route-SafeResult : (escaped : Text) → SafeResult (parse_route escaped)
unfolding parse_route
parse_route-SafeResult escaped =
    option-SafeResult (trim_prefix escaped (codes "/api/")) _ _
      (option-SafeResult (cut_inside (codes "/resolve/") escaped) _ _ refl
        (λ parts _. parse_resolve-SafeResult (drop 1 parts.0) parts.1))
      (λ rest _. parse_api-SafeResult rest)

-- Whatever a client sends, and however it is escaped: a route to a file names a valid repository, a
-- revision that is not empty and a path that cannot leave a directory; a route to a tree, to the
-- description of a revision or to the description of paths the same, its path possibly empty; a route
-- to the refs a valid repository, and no revision and no path; and a request of the API that is passed
-- on, and one that is not known, give no repository, revision or path at all.
pub parse_route-IsSafe : (escaped : Text) (r : Route) → parse_route escaped ≡ ok r → IsSafe r
parse_route-IsSafe escaped r h = subst SafeResult h (parse_route-SafeResult escaped)
