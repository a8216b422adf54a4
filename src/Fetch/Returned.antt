-- ===== src/Fetch/Returned.antt =====
-- What `File` of internal/fetch/fetch.go returns.
use weightkeep.Prelude.{
  ℕ, List, [], ◌∷◌, if_cases, Option, none, some, Result, ok, err, All, Any, false, ◌≡◌, ◌⊎◌, inl,
  inr, refl,
}
use weightkeep.Store.{Hashes, Blob, Disk, StoreError, busy}
use weightkeep.Store.Partials.{Partial, open_partial}
use weightkeep.Store.Commits.{CommitFault}
use weightkeep.Store.Sound.{IsSound, IsSound-same, InStep}
use weightkeep.Store.Progress.{open_partial-IsResumed}
use weightkeep.Store.Putting.{open_partial-same}
use weightkeep.Fetch.Transfer.{Target, key, expect, FetchError, Round}
use weightkeep.Fetch.Outcome.{IsOpen}
use weightkeep.Fetch.Success.{Fetched, fetch_loop-Fetched}
use weightkeep.Fetch.Fetching.{
  have, empty_blob, blob_or_empty, Opening, Opened, opened, appeared, waits, failed, after_wait,
  after_open, open_waiting, with_retries, fetch_opened, fetch, fetch_file,
}

module _ (h : Hashes) (t : Target) where
  -- After the wait the blob is there; or it is not, and the context goes on.
  abbrev pub HasAppeared : Opening → Type 0
  HasAppeared a = (b : Blob) × (have t a.left ≡ ok b)

  abbrev pub IsWaiting : Opening → Type 0
  IsWaiting a = (a.ended_waiting ≡ false) × (e : StoreError) × (have t a.left ≡ err e)

  -- A partial for the target that is in step, over a sound store; or the reason why there is none.
  abbrev IsOpened : List Opening → Opened × Disk → Type 0
  IsOpened attempts (opened p, d) = IsOpen h t p d
  IsOpened attempts (appeared, d) = IsSound h d × Any HasAppeared attempts
  IsOpened attempts (waits, d) = IsSound h d × All IsWaiting attempts
  IsOpened attempts (failed e, d) = IsSound h d

  IsOpened-step :
      (a : Opening) (rest : List Opening) (x : Opened × Disk)
      → IsWaiting a
      → IsOpened rest x
      → IsOpened (a ∷ rest) x
  IsOpened-step a rest (opened p, d) waited next = next
  IsOpened-step a rest (appeared, d) waited (sound, there) = (sound, inr there)
  IsOpened-step a rest (waits, d) waited (sound, all) = (sound, (waited, all))
  IsOpened-step a rest (failed e, d) waited next = next

  after_wait-IsOpened :
      (a : Opening) (rest : List Opening) (o : Result StoreError Blob) (again : Opened × Disk)
      → a.ended_waiting ≡ false
      → have t a.left ≡ o
      → IsSound h a.left
      → IsOpened rest again
      → IsOpened (a ∷ rest) (after_wait o again a.left)
  unfolding after_wait
  after_wait-IsOpened a rest (ok b) again on found sound next = (sound, inl (b, found))
  after_wait-IsOpened a rest (err e) again on missing sound next =
      IsOpened-step a rest again (on, e, missing) next

  after_open-IsOpened :
      (a : Opening) (rest : List Opening) (again : Disk → Opened × Disk)
      (r : Result StoreError Partial × Disk)
      → IsSound h a.left
      → ((d : Disk) → IsSound h d → IsOpened rest (again d))
      → IsSound h r.1
      → ((p : Partial) → r.0 ≡ ok p → InStep p r.1 × (p.exp ≡ expect t))
      → IsOpened (a ∷ rest) (after_open t a again r)
  unfolding after_open
  after_open-IsOpened a rest again (ok p, d) left next sound made =
      let (step, same) = made p refl in (step, sound, same)
  after_open-IsOpened a rest again (err busy, d) left next sound made =
      if_cases (IsOpened (a ∷ rest)) a.ended_waiting _ _ (λ _. left)
        (λ on.
          after_wait-IsOpened a rest (have t a.left) (again a.left) on refl left (next a.left left))
  after_open-IsOpened a rest again (err e, d) left next sound made = sound

  open_waiting-IsOpened :
      (attempts : List Opening) (d : Disk)
      → All (λ a. IsSound h a.left) attempts
      → IsSound h d
      → IsOpened attempts (open_waiting t attempts d)
  unfolding open_waiting
  open_waiting-IsOpened [] d lefts sound = (sound, tt)
  open_waiting-IsOpened (a ∷ rest) d (left, lefts) sound =
      let (eb, er) = open_partial-same a.ended a.fault a.now (key t) (expect t) d in
      after_open-IsOpened a rest (open_waiting t rest)
        (open_partial a.ended a.fault a.now (key t) (expect t) d) left
        (λ d' sound'. open_waiting-IsOpened rest d' lefts sound') (IsSound-same eb er sound)
        (λ p e.
          let (step, _, same, _, _) =
            open_partial-IsResumed a.ended a.fault a.now (key t) (expect t) d p e in
          (step, same))

  module _ (fault : CommitFault) where
    -- A blob was downloaded, or `Have` finds it; or it is the empty one, where `Have` finds nothing
    -- any more. Nothing is returned while the wait goes on.
    abbrev pub Returned : List Opening → Option (Result FetchError Blob × Disk) → Type 0
    Returned attempts none = All IsWaiting attempts
    Returned attempts (some (ok b, d)) =
        IsSound h d
        × (Fetched h t fault (ok b, d)
            ⊎ (have t d ≡ ok b)
            ⊎ ((e : StoreError) × (have t d ≡ err e) × (b ≡ empty_blob) × Any HasAppeared attempts))
    Returned attempts (some (err e, d)) = IsSound h d

    loop-Returned :
        (attempts : List Opening) (r : Result FetchError Blob × Disk)
        → IsSound h r.1
        → Fetched h t fault r
        → Returned attempts (some r)
    loop-Returned attempts (ok b, d) sound done = (sound, inl done)
    loop-Returned attempts (err e, d) sound done = sound

    later-Returned :
        (attempts : List Opening) (o : Result StoreError Blob) (d : Disk)
        → have t d ≡ o
        → IsSound h d
        → Any HasAppeared attempts
        → Returned attempts (some (ok (blob_or_empty o), d))
    unfolding blob_or_empty
    later-Returned attempts (ok b) d found sound there = (sound, inr (inl found))
    later-Returned attempts (err e) d missing sound there =
        (sound, inr (inr (e, missing, refl, there)))

    module _ (now retries : ℕ) (env : ℕ → Round) (later : Disk) where
      fetch_opened-Returned :
          (attempts : List Opening) (o : Opened × Disk)
          → IsSound h later
          → IsOpened attempts o
          → Returned attempts (fetch_opened h fault now retries t env later o)
      unfolding fetch_opened
      fetch_opened-Returned attempts (opened p, d) kept open_now =
          let (sound, done) =
            fetch_loop-Fetched h t fault now env (with_retries retries) 0 p d open_now in
          loop-Returned attempts _ sound done
      fetch_opened-Returned attempts (appeared, d) kept (sound, there) =
          later-Returned attempts (have t later) later refl kept there
      fetch_opened-Returned attempts (failed e, d) kept sound = sound
      fetch_opened-Returned attempts (waits, d) kept (sound, all) = all

      -- However the rounds of a download go, whatever the operating system refuses, and whatever
      -- other processes make of the store in the waits, as long as they leave it sound: the store
      -- stays sound. Where `File` returns a blob, either it tells the hash, the git id and the size
      -- of some content of the size and with the hashes that the tree listing gave, and that content
      -- (or another writer's with its hash) is in the store; or `Have` finds it in the store; or it
      -- is the empty blob, `Have` finds nothing, and it did after a wait. It returns nothing only while
      -- the wait goes on, and in none of its rounds the context ended or the blob was there.
      pub fetch_file-Returned :
          (attempts : List Opening) (d : Disk)
          → All (λ a. IsSound h a.left) attempts
          → IsSound h later
          → IsSound h d
          → Returned attempts (fetch_file h fault now retries t env later attempts d)
      unfolding fetch_file fetch
      fetch_file-Returned attempts d lefts kept sound = go (have t d) refl
        where
          go :
              (o : Result StoreError Blob)
              → have t d ≡ o
              → Returned attempts (elim o [
                | ok b ↦ some (ok b, d)
                | err e ↦ fetch_opened h fault now retries t env later (open_waiting t attempts d)
              ])
          go (ok b) found = (sound, inr (inl found))
          go (err e) missing =
              fetch_opened-Returned attempts (open_waiting t attempts d) kept
                (open_waiting-IsOpened attempts d lefts sound)
