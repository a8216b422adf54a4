-- ===== src/Keep/Upstream.antt =====
-- The choice of the upstream in internal/keep/pull.go: `fallbackOK` and `repoInfo`.
use weightkeep.Prelude.{
  ℕ, suc, ◌+◌, List, [], ◌∷◌, ◌||◌, if◌then◌else◌, Bool, true, false, Option, none, some, Result,
  ok, err, ◌≡◌, refl, arith, ◌++◌, length, all,
}
use weightkeep.Hub.Errors.{
  HubError, is_kind, retryable, repo_not_found, revision_not_found, gated, disabled, unauthorized,
}

unfoldable pub fallback_ok : HubError → Bool
fallback_ok e =
    if is_kind e gated || is_kind e unauthorized
    then false
    else retryable e
      || is_kind e repo_not_found
      || is_kind e revision_not_found
      || is_kind e disabled

-- The client that gave an answer: the primary upstream, or a mirror by its place in the list.
pub data Client : Type 0 where
  primary : Client
  mirror : ℕ → Client

abbrev pub is_err {ℓ} : {A : Type ℓ} → Result HubError A → Bool
is_err (ok a) = false
is_err (err e) = true

module _ {ℓ} {A : Type ℓ} where
  -- The loop over `k.Mirrors`; mirror `i` is next.
  unfoldable pub first_mirror : ℕ → List (Result HubError A) → Option (A × Client)
  first_mirror i [] = none
  first_mirror i (ok info ∷ ms) = some (info, mirror i)
  first_mirror i (err e ∷ ms) = first_mirror (suc i) ms

  -- What the primary upstream and each mirror would answer is given.
  unfoldable pub repo_info :
      Result HubError A → List (Result HubError A) → Result HubError (A × Client)
  repo_info (ok info) mirrors = ok (info, primary)
  repo_info (err e) mirrors =
      if fallback_ok e
      then elim (first_mirror 0 mirrors) [ none ↦ err e | some answer ↦ ok answer ]
      else err e

  -- Where the primary upstream refuses for a gated repository or a rejected token, its refusal is
  -- the answer, whatever the mirrors have.
  repo_info-gated :
      (e : HubError) (mirrors : List (Result HubError A))
      → (is_kind e gated || is_kind e unauthorized) ≡ true
      → repo_info (err e) mirrors ≡ err e
  unfolding repo_info fallback_ok
  repo_info-gated e mirrors h = ground arith

  -- The failure of every mirror before `n`.
  first_mirror-some :
      (i : ℕ) (ms : List (Result HubError A)) (a : A) (c : Client)
      → first_mirror i ms ≡ some (a, c)
      → (before : List (Result HubError A)) × (after : List (Result HubError A)) × (ms
          ≡ before ++ ok a ∷ after)
        × (all is_err before ≡ true)
        × (c ≡ mirror (i + length before))
  unfolding first_mirror
  first_mirror-some i [] a c h = cc
  first_mirror-some i (ok info ∷ ms) a c h = ([], ms, ground arith, refl, ground arith)
  first_mirror-some i (err e ∷ ms) a c h =
      let (before, after, split, errs, at) = first_mirror-some (suc i) ms a c h in
      (err e ∷ before, after, ground arith, errs, ground arith)

  -- An answer from a mirror means that the primary upstream failed in a way that allows a
  -- fallback, and that the mirror is the first in order that answered.
  pub repo_info-mirror :
      (p : Result HubError A) (mirrors : List (Result HubError A)) (a : A) (n : ℕ)
      → repo_info p mirrors ≡ ok (a, mirror n)
      → ((e : HubError) × (p ≡ err e) × (fallback_ok e ≡ true))
        × ((before : List (Result HubError A)) × (after : List (Result HubError A)) × (mirrors
              ≡ before ++ ok a ∷ after)
            × (all is_err before ≡ true)
            × (n ≡ length before))
  unfolding repo_info
  repo_info-mirror (ok info) mirrors a n h = cc
  repo_info-mirror (err e) mirrors a n h =
      let (before, after, split, errs, at) =
        first_mirror-some 0 mirrors a (mirror n) (ground arith) in
      ((e, refl, ground arith), (before, after, split, errs, ground arith))
