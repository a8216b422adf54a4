-- ===== src/Keep/Verify.antt =====
-- internal/keep/verify.go: `Verify`, of the files of the kept revisions.
use weightkeep.Prelude.{
  ℕ, Text, ◌≟◌, List, [], ◌∷◌, ◌++◌, Bool, not, ◌&&◌, ◌||◌, if◌then◌else◌, any, Assoc, get, put,
  false, Option, none, some, Result, ok, err,
}
use weightkeep.Manifest.Record.{Manifest, ManifestFile}
use weightkeep.Manifest.Index.{RevisionKey, IndexError}
use weightkeep.Store.{Hashes, Disk, has}
use weightkeep.Store.Blobs.{Verdict, verify}

pub record VerifyResult : Type 0 where
  pub key : RevisionKey
  pub file : ManifestFile
  pub verdict : Verdict

-- Empty fields match everything.
pub record Selector : Type 0 where
  pub repo_type : Text
  pub repo_id : Text
  pub commit : Text

unfoldable pub selects : Selector → RevisionKey → Bool
selects s k =
    if not (s.repo_id ≟ []) && (not (k.repo_id ≟ s.repo_id) || not (k.repo_type ≟ s.repo_type))
    then false
    else s.commit ≟ [] || (s.commit ≟ k.commit)

pub data CheckingError : Type 0 where
  not_loaded : IndexError → CheckingError
  context_ended not_keeping : CheckingError

-- The store, the map `checked`, and the results that `onResult` was given, in order.
pub record Checking : Type 0 where
  pub disk : Disk
  pub checked : Assoc Verdict
  pub reported : List VerifyResult

abbrev pub Outcome : Type 0
Outcome = Checking × Result {0, 0} CheckingError Unit

-- What goes on only if there was no error.
unfoldable pub and_then : Outcome → (Checking → Outcome) → Outcome
and_then (s, err e) next = (s, err e)
and_then (s, ok _) next = next s

-- The end of `Verify`, which asks whether some revision was selected.
unfoldable pub if_matched : Bool → Checking → Outcome
if_matched matched s = if matched then (s, ok tt) else (s, err not_keeping)

-- What is met while the blob of a hash is read: the clock, a failure, and the end of the context.
pub record Reading : Type 0 where
  pub now : Text → ℕ
  pub broken : Text → Bool
  pub ended : Text → Bool

module _ (h : Hashes) (reading : Reading) (on_result : VerifyResult → Disk → Disk) where
  -- The caller may change the store, by quarantining the blob.
  unfoldable pub report : RevisionKey → ManifestFile → Verdict → Checking → Checking
  report k f v s = record s {
    disk = on_result (record { key = k; file = f; verdict = v }) s.disk;
    reported = s.reported ++ record { key = k; file = f; verdict = v } ∷ [];
  }

  unfoldable pub after_reading : RevisionKey → ManifestFile → Checking → Verdict × Disk → Outcome
  unfolding report
  after_reading k f s (v, d) =
      if reading.ended f.sha256
      then (record s { disk = d }, err context_ended)
      else (report k f v (record s { disk = d; checked = put f.sha256 v s.checked }), ok tt)

  unfoldable pub verify_file : RevisionKey → ManifestFile → Option Verdict → Checking → Outcome
  unfolding after_reading report
  verify_file k f (some v) s = (report k f v s, ok tt)
  verify_file k f none s =
      if f.sha256 ≟ [] || not (has f.sha256 s.disk)
      then (s, ok tt)
      else after_reading k f s
          (verify h (reading.broken f.sha256) (reading.now f.sha256) f.sha256 s.disk)

  unfoldable pub verify_files : RevisionKey → List ManifestFile → Checking → Outcome
  unfolding verify_file and_then
  verify_files k [] s = (s, ok tt)
  verify_files k (f ∷ fs) s =
      and_then (verify_file k f (get f.sha256 s.checked) s) (verify_files k fs)

  -- The body of the loop over the revisions, `load` being `manifest.Load`.
  unfoldable pub verify_revision :
      RevisionKey → Result IndexError (Manifest × ℕ) → Checking → Outcome
  unfolding verify_files
  verify_revision k (err e) s = (s, err (not_loaded e))
  verify_revision k (ok (m, fetched_at)) s = verify_files k m.files s

  module _ (load : RevisionKey → Result IndexError (Manifest × ℕ)) (sel : Selector) where
    unfoldable pub verify_revisions : List RevisionKey → Checking → Outcome
    unfolding verify_revision and_then selects
    verify_revisions [] s = (s, ok tt)
    verify_revisions (k ∷ ks) s =
        and_then (if selects sel k then verify_revision k (load k) s else (s, ok tt))
          (verify_revisions ks)

    -- `Verify`, of what `manifest.List` gives.
    unfoldable pub verify_kept : List RevisionKey → Disk → Outcome
    unfolding verify_revisions and_then selects if_matched
    verify_kept ks d =
        and_then (verify_revisions ks (record { disk = d; checked = []; reported = [] }))
          (if_matched (any (selects sel) ks))
