-- ===== src/Fetch/Fetching.antt =====
-- internal/fetch/fetch.go: `Have`, `openPartial`, `fetch` and `File`. What other processes make of the
-- store while one waits is given.
use weightkeep.Prelude.{
  ℕ, List, [], ◌∷◌, Bool, ◌==◌, if◌then◌else◌, Option, none, some, Result, ok, err,
}
use weightkeep.Store.{Hashes, Blob, Disk, StoreError, busy}
use weightkeep.Store.Partials.{Partial, OpenFault, open_partial}
use weightkeep.Store.Commits.{CommitFault}
use weightkeep.Store.Blobs.{stat, lookup_git_sha1}
use weightkeep.Fetch.Transfer.{
  Target, key, expect, FetchError, from_store, canceled, Round, fetch_loop,
}

-- `Have`, with the reason where the content is not in the store.
unfoldable pub have : Target → Disk → Result StoreError Blob
have t d = if t.lfs then stat t.sha256 d else lookup_git_sha1 t.tree_oid d

-- The blob that `Have` returns beside `false`.
abbrev pub empty_blob : Blob
empty_blob = record { sha256 = []; git_sha1 = []; size = 0 }

unfoldable pub blob_or_empty : Result StoreError Blob → Blob
blob_or_empty (ok b) = b
blob_or_empty (err e) = empty_blob

-- One round of `openPartial`: how the opening goes, and, if the partial is held, whether the context
-- ends in the wait and what the other processes have made of the store after it.
pub record Opening : Type 0 where
  pub ended : Bool
  pub fault : OpenFault
  pub now : ℕ
  pub ended_waiting : Bool
  pub left : Disk

-- What `openPartial` returns: a partial, nothing since the blob appeared, or an error; or it waits on.
pub data Opened : Type 0 where
  opened : Partial → Opened
  appeared waits : Opened
  failed : FetchError → Opened

unfoldable pub after_wait : Result StoreError Blob → Opened × Disk → Disk → Opened × Disk
after_wait (ok b) again d = (appeared, d)
after_wait (err e) again d = again

unfoldable pub after_open :
    Target → Opening → (Disk → Opened × Disk) → Result StoreError Partial × Disk → Opened × Disk
unfolding have after_wait
after_open t a again (ok p, d) = (opened p, d)
after_open t a again (err busy, d) =
    if a.ended_waiting
    then (failed canceled, a.left)
    else after_wait (have t a.left) (again a.left) a.left
after_open t a again (err e, d) = (failed (from_store e), d)

-- `openPartial`, for as many rounds as are given.
unfoldable pub open_waiting : Target → List Opening → Disk → Opened × Disk
unfolding after_open
open_waiting t [] d = (waits, d)
open_waiting t (a ∷ rest) d =
    after_open t a (open_waiting t rest) (open_partial a.ended a.fault a.now (key t) (expect t) d)

-- The default of `Retries`.
abbrev pub with_retries : ℕ → ℕ
with_retries n = if n == 0 then 6 else n

module _ (h : Hashes) (fault : CommitFault) (now retries : ℕ) (t : Target) (env : ℕ → Round)
    (later : Disk) where
  -- What `fetch` does after `openPartial`: nothing yet, if that waits. `later` is the store when
  -- `Have` is asked again for a blob that has appeared, whose answer is returned as it is.
  unfoldable pub fetch_opened : Opened × Disk → Option (Result FetchError Blob × Disk)
  unfolding blob_or_empty have
  fetch_opened (opened p, d) = some (fetch_loop h fault now t env (with_retries retries) 0 p d)
  fetch_opened (appeared, d) = some (ok (blob_or_empty (have t later)), later)
  fetch_opened (failed e, d) = some (err e, d)
  fetch_opened (waits, d) = none

  -- `fetch`
  unfoldable pub fetch : List Opening → Disk → Option (Result FetchError Blob × Disk)
  unfolding fetch_opened open_waiting
  fetch attempts d = fetch_opened (open_waiting t attempts d)

  -- `File`
  unfoldable pub fetch_file : List Opening → Disk → Option (Result FetchError Blob × Disk)
  unfolding fetch have
  fetch_file attempts d =
      let fetched = fetch attempts d in elim (have t d) [ ok b ↦ some (ok b, d) | err e ↦ fetched ]
