-- ===== src/Fetch/Success.antt =====
-- The retry loop of `fetch` as a whole.
use weightkeep.Prelude.{
  ℕ, zero, suc, Text, true, Option, none, some, Result, ok, err, has_key, length, ◌≡◌, arith, ◌∙◌,
  sym,
}
use weightkeep.Store.{Hashes, Blob, Disk, StoreError, has}
use weightkeep.Store.Partials.{Partial, close, unlock}
use weightkeep.Store.Commits.{CommitFault, commit, is_expected}
use weightkeep.Store.Sound.{IsSound, IsSound-same}
use weightkeep.Store.Guarantee.{Describes, IsInPlace}
use weightkeep.Store.Commitment.{Done, commit-Done}
use weightkeep.Fetch.Transfer.{
  Target, expect, FetchError, Round, transfer, goes_on, finish, stop_or, after_transfer, fetch_loop,
}
use weightkeep.Fetch.Outcome.{IsOpen, Transferred, transfer-Transferred}

close-same :
    (p : Partial) (d : Disk) → ((close p d).1.blobs ≡ d.blobs) × ((close p d).1.rows ≡ d.rows)
unfolding close unlock
close-same p d = ground arith

close-IsInPlace :
    (h : Hashes) (fault : CommitFault) (s : Text) (b : Blob) (p : Partial) (d : Disk)
    → IsInPlace h fault s b d
    → IsInPlace h fault s b (close p d).1
close-IsInPlace h fault s b p d (there, (f, at, hashed, same)) =
    let blobs = (close-same p d).0 in
    (unfold has has_key in (rw blobs there), (f, rw blobs at, hashed, same))

module _ (h : Hashes) (t : Target) (fault : CommitFault) where
  -- What a caller has where a blob is returned.
  abbrev pub Fetched : Result FetchError Blob × Disk → Type 0
  Fetched (ok b, d) =
      (s : Text) × Describes h s b
      × IsInPlace h fault s b d
      × (is_expected (expect t) b ≡ true)
      × (length s ≡ t.size)
  Fetched (err e, d) = Unit

  abbrev IsFetched : Result FetchError Blob × Disk → Type 0
  IsFetched r = IsSound h r.1 × Fetched r

  close-IsSound : (p : Partial) (d : Disk) → IsSound h d → IsSound h (close p d).1
  close-IsSound p d sound = IsSound-same (close-same p d).0 (close-same p d).1 sound

  module _ (now : ℕ) (env : ℕ → Round) where
    finish-IsFetched :
        (p : Partial) (r : Result StoreError Blob × Partial × Disk)
        → IsSound h r.2
        → Done h fault p r
        → p.exp ≡ expect t
        → length p.sha256_fed ≡ t.size
        → IsFetched (finish h fault now t env r)
    unfolding finish
    finish-IsFetched p (ok b, p', d') sound (desc, place, _, _, fine) e size = (
      close-IsSound p' d' sound,
      (p.sha256_fed, desc, close-IsInPlace h fault p.sha256_fed b p' d' place, rw (← e) fine, size),
    )
    finish-IsFetched p (err x, p', d') sound done e size = (close-IsSound p' d' sound, tt)

    stop_or-IsFetched :
        (last : Option FetchError) (p : Partial) (d : Disk) (again : Result FetchError Blob × Disk)
        → IsSound h d
        → IsFetched again
        → IsFetched (stop_or h fault now t env last p d again)
    unfolding stop_or
    stop_or-IsFetched (some e) p d again sound next = (close-IsSound p d sound, tt)
    stop_or-IsFetched none p d again sound next = next

    after_transfer-IsFetched :
        (r : Round) (left : ℕ) (again : Partial → Disk → Result FetchError Blob × Disk)
        (x : Option FetchError × Partial × Disk)
        → Transferred h t x
        → ((p : Partial) (d : Disk) → IsOpen h t p d → IsFetched (again p d))
        → IsFetched (after_transfer h fault now t env r left again x)
    unfolding after_transfer
    after_transfer-IsFetched r left again (none, p, d) ((s, sound, e), full) next =
        let (after, done) = commit-Done h fault now p d s sound in
        finish-IsFetched p (commit h fault now p d) after done e (sym s.counted ∙ full)
    after_transfer-IsFetched r left again (some e, p, d) o next =
        stop_or-IsFetched (goes_on r left e) p d (again p d) o.1 (next p d o)

    -- However the rounds of a download go, and whatever the operating system refuses, the store
    -- stays sound. Where the loop returns a blob, it tells the hash, the git id and the size of some
    -- content of the size and with the hashes that the tree listing gave, and that content (or
    -- another writer's with its hash) is in the store.
    pub fetch_loop-Fetched :
        (left attempt : ℕ) (p : Partial) (d : Disk)
        → IsOpen h t p d
        → IsSound h (fetch_loop h fault now t env left attempt p d).1
          × Fetched (fetch_loop h fault now t env left attempt p d)
    unfolding fetch_loop
    fetch_loop-Fetched zero attempt p d o =
        after_transfer-IsFetched (env attempt) 0 _ (transfer now t (env attempt) p d)
          (transfer-Transferred h t now (env attempt) p d o) (λ p' d' o'. (o'.1, tt))
    fetch_loop-Fetched (suc left) attempt p d o =
        after_transfer-IsFetched (env attempt) (suc left) _ (transfer now t (env attempt) p d)
          (transfer-Transferred h t now (env attempt) p d o)
          (λ p' d' o'. fetch_loop-Fetched left (suc attempt) p' d' o')
