-- ===== src/Hub/Retry.antt =====
-- The retry loop of `getAPI` in internal/hub/client.go. What the network and the caller's context
-- do is a sequence of attempts, numbered from 0.
use weightkeep.Prelude.{
  ℕ, zero, suc, ◌+◌, ◌≤◌, ◌<◌, Text, codes, ◌++◌, ltb, if◌then◌else◌, Result, ok, err, ◌≡◌, refl,
  arith,
}
use native.Mathlib.Decide.{ℕ_discrete}
use weightkeep.Hub.Errors.{Response, HttpError, HubError, answered, classify, retryable}

-- How one round of the loop goes: the context ends during the wait (which only rounds after the
-- first have), the request fails below HTTP, or a response comes with its redirect target.
pub data Attempt : Type 0 where
  gave_up : HubError → Attempt
  failed : HubError → Attempt
  responded : Response → Text → Attempt

-- `httpError.Message = "unexpected redirect to " + …`
unfoldable pub redirect_error : Response → Text → HttpError
redirect_error r location = record (classify r) {
  message = codes "unexpected redirect to " ++ location;
}

-- One round: the loop ends with a result, or goes on with `lastErr`.
pub data Round : Type 0 where
  stop : Result HubError Response → Round
  again : HubError → Round

unfoldable pub round : ℕ → Attempt → Round
round attempt (gave_up e) = stop (err e)
round attempt (failed e) = if retryable e then again e else stop (err e)
round attempt (responded r location) =
    if ltb r.status 300
    then stop (ok r)
    else if ltb r.status 400
    then stop (err (answered (redirect_error r location)))
    else if retryable (answered (classify r))
    then again (answered (classify r))
    else stop (err (answered (classify r)))

abbrev pub retries : ℕ
retries = 3

-- `left` rounds remain; round `attempt` is next.
unfoldable pub loop : ℕ → ℕ → (ℕ → Attempt) → HubError → Result HubError Response
loop zero attempt env last = err last
loop (suc left) attempt env last = elim (round attempt (env attempt)) [
  | stop r ↦ r
  | again e ↦ loop left (suc attempt) env e
]

-- Before the first round `lastErr` is nil; the loop never returns it, since it makes a round.
unfoldable pub get_api : (ℕ → Attempt) → Result HubError Response
unfolding loop
get_api env = loop (retries + 1) 0 env HubError.transport

-- Every round from `m` up to `n` asked again.
abbrev pub GoesOn : (ℕ → Attempt) → ℕ → ℕ → Type 0
GoesOn env m n = (i : ℕ) → m ≤ i → i < n → (e : HubError) × (round i (env i) ≡ again e)

loop_stops :
    (left attempt n : ℕ) (env : ℕ → Attempt) (last : HubError) (r : Result HubError Response)
    → attempt ≤ n
    → n < attempt + left
    → GoesOn env attempt n
    → round n (env n) ≡ stop r
    → loop left attempt env last ≡ r
unfolding loop
loop_stops zero attempt n env last r le lt on s = absurd (omega arith)
loop_stops (suc left) attempt n env last r le lt on s = elim (ℕ_discrete attempt n) [
  | yes e ↦ rw (e, s, loop)
  | no ne ↦
      let (e, more) = on attempt (omega arith) (omega arith) in
      rw (more, loop)
        (loop_stops left (suc attempt) n env e r (omega arith) (omega arith)
          (λ i le' lt'. on i (omega arith) lt') s)
]

-- Up to three retryable failures in a row are survived: if rounds 0 to `n - 1` ask again and round
-- `n` of the first four gets a response below 300, that response is the result.
pub get_api_recovers :
    (env : ℕ → Attempt) (n : ℕ) (r : Response) (location : Text)
    → n ≤ retries
    → GoesOn env 0 n
    → env n ≡ responded r location
    → r.status < 300
    → get_api env ≡ ok r
unfolding get_api
get_api_recovers env n r location le on e lt =
    loop_stops (retries + 1) 0 n env HubError.transport (ok r) (omega arith) (omega arith) on
      (rw e (unfold round in ground arith))

loop_step :
    (left attempt : ℕ) (env : ℕ → Attempt) (last : HubError) (x : Round)
    → round attempt (env attempt) ≡ x
    → loop (suc left) attempt env last
      ≡ elim x [ stop r ↦ r | again e ↦ loop left (suc attempt) env e ]
unfolding loop
loop_step left attempt env last x h = rw (h, loop)

-- Round `n`, of the `left` rounds from `attempt` on, got the response `r`.
abbrev Answers : ℕ → ℕ → (ℕ → Attempt) → Response → Type 0
Answers left attempt env r =
    (n : ℕ) × (attempt ≤ n)
    × (n < attempt + left)
    × GoesOn env attempt n
    × (round n (env n) ≡ stop (ok r))

GoesOn-before :
    (env : ℕ → Attempt) (attempt n : ℕ) (e : HubError)
    → round attempt (env attempt) ≡ again e
    → GoesOn env (suc attempt) n
    → GoesOn env attempt n
GoesOn-before env attempt n e more on i le lt = elim (ℕ_discrete attempt i) [
  | yes same ↦ (e, rw (← same) more)
  | no ne ↦ on i (omega arith) lt
]

loop_ok :
    (left attempt : ℕ) (env : ℕ → Attempt) (last : HubError) (r : Response)
    → loop left attempt env last ≡ ok r
    → Answers left attempt env r
loop_ok zero attempt env last r h = unfold loop in cc
loop_ok (suc left) attempt env last r h =
    go (round attempt (env attempt)) refl (loop_ok left (suc attempt) env)
  where
    go :
        (x : Round)
        → round attempt (env attempt) ≡ x
        → ((e : HubError) (r : Response)
            → loop left (suc attempt) env e ≡ ok r
            → Answers left (suc attempt) env r)
        → Answers (suc left) attempt env r
    go (stop x) e ih = (
      attempt,
      omega arith,
      omega arith,
      λ i a b. absurd (omega arith),
      cc (loop_step left attempt env last (stop x) e),
    )
    go (again x) e ih =
        let (n, le, lt, on, s) = ih x r (cc (loop_step left attempt env last (again x) e)) in
        (n, omega arith, omega arith, GoesOn-before env attempt n x e on, s)

round-ok :
    (n : ℕ) (a : Attempt) (r : Response)
    → round n a ≡ stop (ok r)
    → (location : Text) × (a ≡ responded r location) × (r.status < 300)
unfolding round
round-ok n (gave_up e) r h = cc
round-ok n (failed e) r h = ground arith
round-ok n (responded x location) r h = (location, ground arith, ground arith)

-- A response that `getAPI` returns has a status below 300, comes from one of the first four
-- attempts, and every attempt before it asked again.
pub get_api_sound :
    (env : ℕ → Attempt) (r : Response)
    → get_api env ≡ ok r
    → (n : ℕ) × (location : Text) × (n ≤ retries)
      × GoesOn env 0 n
      × (env n ≡ responded r location)
      × (r.status < 300)
unfolding get_api
get_api_sound env r h =
    let (n, _, lt, on, s) = loop_ok (retries + 1) 0 env HubError.transport r h in
    let (location, e, low) = round-ok n (env n) r s in (n, location, omega arith, on, e, low)
