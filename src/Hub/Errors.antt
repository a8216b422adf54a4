-- ===== src/Hub/Errors.antt =====
-- internal/hub/errors.go: what an answer of the Hub means, and whether asking again may help.
use weightkeep.Prelude.{
  ℕ, Text, codes, ◌≟◌, [], Bool, true, false, not, ◌&&◌, ◌||◌, leb, ◌==◌, if◌then◌else◌, Option,
  none, some, ◌≡◌, ◌↔◌, ◌⊎◌, arith, ◌≤◌,
}

-- The sentinel errors.
pub data Kind : Type 0 where
  repo_not_found revision_not_found entry_not_found gated disabled unauthorized unavailable : Kind

-- The part of a response that `classify` reads; `body_message` is what `bodyMessage` finds in the
-- body, which is read only if the request was not a HEAD.
pub record Response : Type 0 where
  pub is_head : Bool
  pub status : ℕ
  pub error_code : Text
  pub error_message : Text
  pub body_message : Text

pub record HttpError : Type 0 where
  pub status : ℕ
  pub code : Text
  pub message : Text
  pub kind : Option Kind

-- The errors of the client: an answer, the caller's own cancellation, or anything below HTTP.
pub data HubError : Type 0 where
  answered : HttpError → HubError
  canceled deadline_exceeded transport : HubError

unfoldable pub message_of : Response → Text
message_of r = if (r.error_message ≟ []) && not r.is_head then r.body_message else r.error_message

-- The `switch` of `classify`, in its order.
unfoldable pub kind_of : ℕ → Text → Text → Option Kind
kind_of status code message =
    if code ≟ codes "RevisionNotFound"
    then some revision_not_found
    else if code ≟ codes "EntryNotFound"
    then some entry_not_found
    else if code ≟ codes "GatedRepo"
    then some gated
    else if message ≟ codes "Access to this resource is disabled."
    then some disabled
    else if code ≟ codes "RepoNotFound"
    then some repo_not_found
    else if status == 401 && (message ≟ codes "Invalid credentials in Authorization header")
    then some unauthorized
    else if status == 401
    then some repo_not_found
    else if status == 404
    then some repo_not_found
    else if status == 429 || status == 408 || leb 500 status
    then some unavailable
    else none

unfoldable pub classify : Response → HttpError
unfolding message_of kind_of
classify r = record {
  status = r.status;
  code = r.error_code;
  message = message_of r;
  kind = kind_of r.status r.error_code (message_of r);
}

abbrev pub same_kind : Kind → Kind → Bool
same_kind repo_not_found repo_not_found = true
same_kind revision_not_found revision_not_found = true
same_kind entry_not_found entry_not_found = true
same_kind gated gated = true
same_kind disabled disabled = true
same_kind unauthorized unauthorized = true
same_kind unavailable unavailable = true
same_kind _ _ = false

-- `errors.Is(err, kind)`
unfoldable pub is_kind : HubError → Kind → Bool
is_kind (answered e) k = elim e.kind [ none ↦ false | some j ↦ same_kind j k ]
is_kind _ k = false

unfoldable pub retryable : HubError → Bool
unfolding is_kind
retryable canceled = false
retryable deadline_exceeded = false
retryable transport = true
retryable (answered e) = is_kind (answered e) unavailable

-- An answer that an error code, or the message for a disabled repository, explains.
abbrev pub is_explained : Text → Text → Bool
is_explained code message =
    (code ≟ codes "RevisionNotFound")
    || (code ≟ codes "EntryNotFound")
    || (code ≟ codes "GatedRepo")
    || (code ≟ codes "RepoNotFound")
    || (message ≟ codes "Access to this resource is disabled.")

-- An answer is worth asking again exactly when its status is 408, 429 or 500 and above, and
-- neither an error code nor the message for a disabled repository explains it.
retryable-classify :
    (r : Response)
    → (retryable (answered (classify r)) ≡ true) ↔ (
        ((r.status ≡ 429) ⊎ (r.status ≡ 408) ⊎ (500 ≤ r.status))
        × (is_explained r.error_code (message_of r) ≡ false))
unfolding retryable classify
retryable-classify r = ground arith
