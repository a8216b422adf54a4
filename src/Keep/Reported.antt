-- ===== src/Keep/Reported.antt =====
-- What `Verify` of internal/keep/verify.go has told its caller.
use weightkeep.Prelude.{
  ℕ, Text, ◌≟◌, ≟_iff, List, [], ◌∷◌, Bool, true, false, not, ◌||◌, if_cases, if◌then◌else◌,
  Bool-cases, any, Assoc, get, put, get-put, get-put_cases, All, All-append, All-map, Option, none,
  some, Result, ok, err, ◌≡◌, ◌≢◌, refl, ap, ◌∙◌, arith, inl, inr,
}
use weightkeep.Manifest.Record.{Manifest, ManifestFile}
use weightkeep.Manifest.Index.{RevisionKey, IndexError}
use weightkeep.Store.{Hashes, Disk, has}
use weightkeep.Store.Blobs.{Verdict, corrupt, verify}
use weightkeep.Store.Sound.{IsSound}
use weightkeep.Store.Upkeep.{verify-IsSound}
use weightkeep.Keep.Verify.{
  VerifyResult, Selector, selects, Checking, Outcome, and_then, Reading, report, after_reading,
  verify_file, verify_files, verify_revision, verify_revisions, verify_kept, if_matched,
}

-- A verdict other than that the content is corrupt.
abbrev pub IsClean : Verdict → Type 0
IsClean v = (got : Text) → v ≢ corrupt got

-- The result has the verdict that was found for its content.
abbrev pub Agrees : Assoc Verdict → VerifyResult → Type 0
Agrees checked r = get r.file.sha256 checked ≡ some r.verdict

put-Agrees :
    (sum : Text) (v : Verdict) (checked : Assoc Verdict) (r : VerifyResult)
    → get sum checked ≡ none
    → Agrees checked r
    → Agrees (put sum v checked) r
put-Agrees sum v checked r new e = elim (Bool-cases (sum ≟ r.file.sha256)) [
  | inl same ↦
      let at : sum ≡ r.file.sha256 = (≟_iff sum r.file.sha256).0 same in
      let missing : get sum checked ≡ get r.file.sha256 checked = ap (λ j. get j checked) at in
      absurd (cc)
  | inr other ↦ get-put sum r.file.sha256 v checked ∙ rw other e
]

pub record IsFaithful (h : Hashes) (s : Checking) : Type 0 where
  pub sound : IsSound h s.disk
  pub clean : (k : Text) (v : Verdict) → get k s.checked ≡ some v → IsClean v
  pub agrees : All (Agrees s.checked) s.reported

module _ (h : Hashes) (reading : Reading) (on_result : VerifyResult → Disk → Disk)
    (keeps : (r : VerifyResult) (d : Disk) → IsSound h d → IsSound h (on_result r d)) where
  report-IsFaithful :
      (k : RevisionKey) (f : ManifestFile) (v : Verdict) (s : Checking)
      → get f.sha256 s.checked ≡ some v
      → IsFaithful h s
      → IsFaithful h (report h reading on_result k f v s)
  unfolding report
  report-IsFaithful k f v s found i = record {
    sound = keeps (record { key = k; file = f; verdict = v }) s.disk i.sound;
    clean = i.clean;
    agrees = All-append (Agrees s.checked) s.reported _ i.agrees (found, tt);
  }

  -- A new verdict stands beside those that were found before it.
  checked-IsFaithful :
      (sum : Text) (v : Verdict) (d : Disk) (s : Checking)
      → get sum s.checked ≡ none
      → IsClean v
      → IsSound h d
      → IsFaithful h s
      → IsFaithful h (record s { disk = d; checked = put sum v s.checked })
  checked-IsFaithful sum v d s new clean sound i = record {
    sound = sound;
    clean = λ k w. get-put_cases (λ j x. IsClean x) sum k v w s.checked clean (i.clean k w);
    agrees =
        All-map {P = Agrees s.checked} (λ r. put-Agrees sum v s.checked r new) s.reported i.agrees;
  }

  after_reading-IsFaithful :
      (k : RevisionKey) (f : ManifestFile) (s : Checking) (r : Verdict × Disk)
      → get f.sha256 s.checked ≡ none
      → IsClean r.0
      → IsSound h r.1
      → IsFaithful h s
      → IsFaithful h (after_reading h reading on_result k f s r).0
  unfolding after_reading
  after_reading-IsFaithful k f s (v, d) new clean sound i =
      if_cases (λ (o : Outcome). IsFaithful h o.0) (reading.ended f.sha256) _ _
        (λ ended. record { sound = sound; clean = i.clean; agrees = i.agrees })
        (λ goes_on.
          report-IsFaithful k f v (record s { disk = d; checked = put f.sha256 v s.checked })
            (ground (arith, get-put f.sha256 f.sha256 v s.checked, ≟_iff f.sha256 f.sha256))
            (checked-IsFaithful f.sha256 v d s new clean sound i))

  verify_file-IsFaithful :
      (k : RevisionKey) (f : ManifestFile) (o : Option Verdict) (s : Checking)
      → get f.sha256 s.checked ≡ o
      → IsFaithful h s
      → IsFaithful h (verify_file h reading on_result k f o s).0
  unfolding verify_file
  verify_file-IsFaithful k f (some v) s found i = report-IsFaithful k f v s found i
  verify_file-IsFaithful k f none s new i =
      if_cases (λ (o : Outcome). IsFaithful h o.0) (f.sha256 ≟ [] || not (has f.sha256 s.disk)) _ _
        (λ absent. i)
        (λ present.
          let (clean, sound) =
            verify-IsSound h (reading.broken f.sha256) (reading.now f.sha256) f.sha256 s.disk
              i.sound in
          after_reading-IsFaithful k f s
            (verify h (reading.broken f.sha256) (reading.now f.sha256) f.sha256 s.disk) new clean
            sound i)

  and_then-IsFaithful :
      (o : Outcome) (next : Checking → Outcome)
      → IsFaithful h o.0
      → ((s : Checking) → IsFaithful h s → IsFaithful h (next s).0)
      → IsFaithful h (and_then o next).0
  unfolding and_then
  and_then-IsFaithful (s, err e) next i goes_on = i
  and_then-IsFaithful (s, ok u) next i goes_on = goes_on s i

  if_matched-IsFaithful :
      (b : Bool) (s : Checking) → IsFaithful h s → IsFaithful h (if_matched b s).0
  unfolding if_matched
  if_matched-IsFaithful true s i = i
  if_matched-IsFaithful false s i = i

  verify_files-IsFaithful :
      (k : RevisionKey) (fs : List ManifestFile) (s : Checking)
      → IsFaithful h s
      → IsFaithful h (verify_files h reading on_result k fs s).0
  unfolding verify_files
  verify_files-IsFaithful k [] s i = i
  verify_files-IsFaithful k (f ∷ fs) s i =
      and_then-IsFaithful (verify_file h reading on_result k f (get f.sha256 s.checked) s) _
        (verify_file-IsFaithful k f (get f.sha256 s.checked) s refl i)
        (verify_files-IsFaithful k fs)

  verify_revision-IsFaithful :
      (k : RevisionKey) (r : Result IndexError (Manifest × ℕ)) (s : Checking)
      → IsFaithful h s
      → IsFaithful h (verify_revision h reading on_result k r s).0
  unfolding verify_revision
  verify_revision-IsFaithful k (err e) s i = i
  verify_revision-IsFaithful k (ok (m, fetched_at)) s i = verify_files-IsFaithful k m.files s i

  module _ (load : RevisionKey → Result IndexError (Manifest × ℕ)) (sel : Selector) where
    verify_revisions-IsFaithful :
        (ks : List RevisionKey) (s : Checking)
        → IsFaithful h s
        → IsFaithful h (verify_revisions h reading on_result load sel ks s).0
    unfolding verify_revisions
    verify_revisions-IsFaithful [] s i = i
    verify_revisions-IsFaithful (k ∷ ks) s i =
        and_then-IsFaithful
          (if selects sel k then verify_revision h reading on_result k (load k) s else (s, ok tt))
          (verify_revisions h reading on_result load sel ks)
          (if_cases (λ (o : Outcome). IsFaithful h o.0) (selects sel k) _ _
            (λ picked. verify_revision-IsFaithful k (load k) s i) (λ passed. i))
          (verify_revisions-IsFaithful ks)

    -- On a sound store, and with a caller that leaves it sound, `Verify` ends with a sound store, has
    -- found no content corrupt, and has reported for every file the verdict that was found for its
    -- content, so that files with the same content got the same one. This holds also when it ends
    -- early with an error.
    pub verify_kept-IsFaithful :
        (ks : List RevisionKey) (d : Disk)
        → IsSound h d
        → IsFaithful h (verify_kept h reading on_result load sel ks d).0
    unfolding verify_kept
    verify_kept-IsFaithful ks d sound =
        let first : Checking = record { disk = d; checked = []; reported = [] } in
        and_then-IsFaithful (verify_revisions h reading on_result load sel ks first)
          (if_matched (any (selects sel) ks))
          (verify_revisions-IsFaithful ks first
            (record { sound = sound; clean = λ k v e. absurd (unfold get in cc); agrees = tt }))
          (if_matched-IsFaithful (any (selects sel) ks))
