-- ===== src/Fetch/Transfer.antt =====
-- internal/fetch/fetch.go: `transfer` and the retry loop of `fetch`, over an open partial. What the
-- network, the operating system and the caller's context do in each round is given.
use weightkeep.Prelude.{
  ℕ, zero, suc, Text, [], Bool, true, false, not, ◌||◌, ltb, ◌==◌, if◌then◌else◌, Option, none,
  some, Result, ok, err,
}
use weightkeep.Hub.Errors.{HubError, retryable}
use weightkeep.Store.{Hashes, Blob, Disk, StoreError, hash_mismatch}
use weightkeep.Store.Partials.{Expect, Partial, ResetFault, reset, close}
use weightkeep.Store.Commits.{CommitFault, Reader, copy, commit}

pub record Target : Type 0 where
  pub size : ℕ
  pub sha256 : Text
  pub tree_oid : Text
  pub lfs : Bool

unfoldable pub key : Target → Text
key t = if t.lfs then t.sha256 else t.tree_oid

unfoldable pub expect : Target → Expect
expect t = record {
  sha256 = t.sha256;
  git_sha1 = if t.lfs then [] else t.tree_oid;
  size = t.size;
  has_size = true;
}

pub data FetchError : Type 0 where
  from_hub : HubError → FetchError
  from_store : StoreError → FetchError
  transient canceled : FetchError

-- `hub.Retryable`, of errors that are no answers of the Hub too: those count as failures of the
-- network, unless the context ended.
unfoldable pub is_retryable : FetchError → Bool
is_retryable (from_hub e) = retryable e
is_retryable (from_store e) = true
is_retryable transient = true
is_retryable canceled = false

-- How `Download` ends: a refusal, or a body with the offset that it starts at.
pub data Download : Type 0 where
  refused : HubError → Download
  body : ℕ → Reader → Download

pub record Round : Type 0 where
  pub download : Download
  pub reset_fault : ResetFault
  -- Whether the context has ended when the transfer is over, and while waiting for the next one.
  pub ended : Bool
  pub ended_waiting : Bool

unfoldable pub after_copy :
    Target → Option StoreError × Partial × Disk → Option FetchError × Partial × Disk
after_copy t (some hash_mismatch, p, d) = (some (from_store hash_mismatch), p, d)
after_copy t (some e, p, d) = (some transient, p, d)
after_copy t (none, p, d) = if ltb p.n t.size then (some transient, p, d) else (none, p, d)

unfoldable pub after_reset :
    ℕ → Target → Reader → Option StoreError × Partial × Disk → Option FetchError × Partial × Disk
unfolding after_copy
after_reset now t reader (some e, p, d) = (some (from_store e), p, d)
after_reset now t reader (none, p, d) = after_copy t (copy now reader p d)

unfoldable pub receive :
    ℕ → Target → ResetFault → Download → Partial → Disk → Option FetchError × Partial × Disk
unfolding after_reset
receive now t fault (refused e) p d = (some (from_hub e), p, d)
receive now t fault (body offset reader) p d =
    if not (offset == p.n)
    then after_reset now t reader (reset fault now p d)
    else after_copy t (copy now reader p d)

-- `transfer`
unfoldable pub transfer : ℕ → Target → Round → Partial → Disk → Option FetchError × Partial × Disk
unfolding receive
transfer now t r p d =
    if p.n == t.size then (none, p, d) else receive now t r.reset_fault r.download p d

-- How a round of the loop ends, and whether another follows.
unfoldable pub goes_on : Round → ℕ → FetchError → Option FetchError
goes_on r left e =
    if r.ended
    then some canceled
    else if not (is_retryable e) || left == 0
    then some e
    else if r.ended_waiting
    then some canceled
    else none

module _ (h : Hashes) (fault : CommitFault) (now : ℕ) (t : Target) (env : ℕ → Round) where
  unfoldable pub finish : Result StoreError Blob × Partial × Disk → Result FetchError Blob × Disk
  finish (ok b, p, d) = (ok b, (close p d).1)
  finish (err e, p, d) = (err (from_store e), (close p d).1)

  unfoldable pub stop_or :
      Option FetchError
      → Partial
      → Disk
      → Result FetchError Blob × Disk
      → Result FetchError Blob × Disk
  stop_or (some last) p d again = (err last, (close p d).1)
  stop_or none p d again = again

  -- What follows a transfer: the commit, the end, or the next round.
  unfoldable pub after_transfer :
      Round
      → ℕ
      → (Partial → Disk → Result FetchError Blob × Disk)
      → Option FetchError × Partial × Disk
      → Result FetchError Blob × Disk
  unfolding finish stop_or
  after_transfer r left again (none, p, d) = finish (commit h fault now p d)
  after_transfer r left again (some e, p, d) = stop_or (goes_on r left e) p d (again p d)

  -- The loop, with `left` retries left, and the deferred `Close`. Without retries no round follows.
  unfoldable pub fetch_loop : ℕ → ℕ → Partial → Disk → Result FetchError Blob × Disk
  unfolding after_transfer
  fetch_loop zero attempt p d =
      after_transfer (env attempt) 0 (λ p' d'. (err canceled, d'))
        (transfer now t (env attempt) p d)
  fetch_loop (suc left) attempt p d =
      after_transfer (env attempt) (suc left) (λ p' d'. fetch_loop left (suc attempt) p' d')
        (transfer now t (env attempt) p d)
