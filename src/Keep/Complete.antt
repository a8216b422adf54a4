-- ===== src/Keep/Complete.antt =====
-- That `Verify` of internal/keep/verify.go reports every file that is in the store.
use mathlib.Core.Path.{subst}
use weightkeep.Prelude.{
  ℕ, Text, ◌≟◌, List, [], ◌∷◌, ◌++◌, Bool, true, false, not, ◌||◌, if◌then◌else◌, if_cases, any,
  get, put, All, All-map, Option, none, some, Result, ok, err, append-nil, ◌≡◌, refl, sym, ap, ◌∙◌,
  arith,
}
use weightkeep.Ids.{is_sha256}
use weightkeep.Manifest.Record.{Manifest, ManifestFile}
use weightkeep.Manifest.Index.{RevisionKey, IndexError}
use weightkeep.Store.{Hashes, Disk, has}
use weightkeep.Store.Blobs.{Verdict, verify}
use weightkeep.Keep.Verify.{
  VerifyResult, Selector, selects, Checking, Outcome, and_then, Reading, report, after_reading,
  verify_file, verify_files, verify_revision, verify_revisions, verify_kept, if_matched,
}
use weightkeep.Keep.Growth.{
  Told, IsLater, IsLater-refl, IsLater-trans, Told-later, has-blobs, verify-blobs, Present,
  IsVerified,
}

-- A revision that is selected is verified.
abbrev pub Visited :
    (RevisionKey → Result IndexError (Manifest × ℕ))
    → Selector
    → Checking
    → Checking
    → RevisionKey
    → Type 0
Visited load sel s t k = selects sel k ≡ true → IsVerified k (load k) s t

-- What a step does to the results: it adds to them, and, if there is no error, this holds.
abbrev Step : (Checking → Type 0) → Checking → Outcome → Type 0
Step Holds s o = IsLater s o.0 × (o.1 ≡ ok tt → Holds o.0)

module _ (h : Hashes) (reading : Reading) (on_result : VerifyResult → Disk → Disk)
    (leaves : (r : VerifyResult) (d : Disk) → on_result r d ≡ d) where
  report-Step :
      (k : RevisionKey) (f : ManifestFile) (v : Verdict) (s t : Checking)
      → t.disk.blobs ≡ s.disk.blobs
      → t.reported ≡ s.reported
      → Step (Told k f) s (report h reading on_result k f v t, ok tt)
  unfolding report
  report-Step k f v s t kept same = (
    record {
      kept =
          ap (λ (d : Disk). d.blobs) (leaves (record { key = k; file = f; verdict = v }) t.disk)
          ∙ kept;
      more = record { key = k; file = f; verdict = v } ∷ [];
      grown = ap (λ rs. rs ++ record { key = k; file = f; verdict = v } ∷ []) same;
    },
    λ done. (t.reported, [], v, refl),
  )

  after_reading-Step :
      (k : RevisionKey) (f : ManifestFile) (s : Checking) (r : Verdict × Disk)
      → r.1.blobs ≡ s.disk.blobs
      → Step (Told k f) s (after_reading h reading on_result k f s r)
  unfolding after_reading
  after_reading-Step k f s (v, d) kept =
      if_cases (Step (Told k f) s) (reading.ended f.sha256) _ _
        (λ ended. (
          record { kept = kept; more = []; grown = sym (append-nil s.reported) },
          λ done. absurd (cc),
        ))
        (λ goes_on.
          report-Step k f v s (record s { disk = d; checked = put f.sha256 v s.checked }) kept refl)

  has-nonempty : (sum : Text) (d : Disk) → has sum d ≡ true → (sum ≟ []) ≡ false
  unfolding has is_sha256 ◌≟◌
  has-nonempty [] d there = absurd (cc)
  has-nonempty (c ∷ cs) d there = refl

  verify_file-Step :
      (k : RevisionKey) (f : ManifestFile) (o : Option Verdict) (s : Checking)
      → Step (Present k f s) s (verify_file h reading on_result k f o s)
  unfolding verify_file
  verify_file-Step k f (some v) s =
      let (later, told) = report-Step k f v s s refl refl in (later, λ done there. told done)
  verify_file-Step k f none s =
      if_cases (Step (Present k f s) s) (f.sha256 ≟ [] || not (has f.sha256 s.disk)) _ _
        (λ absent.
          (IsLater-refl s, λ done there. absurd (ground (arith, has-nonempty f.sha256 s.disk))))
        (λ present.
          let (later, told) =
            after_reading-Step k f s
              (verify h (reading.broken f.sha256) (reading.now f.sha256) f.sha256 s.disk)
              (verify-blobs h (reading.broken f.sha256) (reading.now f.sha256) f.sha256 s.disk) in
          (later, λ done there. told done))

  -- One step after another.
  and_then-Step :
      (P Q : Checking → Type 0) (s : Checking) (o : Outcome) (next : Checking → Outcome)
      → ((t u : Checking) → IsLater t u → P t → P u)
      → Step P s o
      → ((t : Checking) → IsLater s t → Step Q t (next t))
      → Step (λ t. P t × Q t) s (and_then o next)
  unfolding and_then
  and_then-Step P Q s (t, err e) next stays (later, first) rest = (later, λ done. absurd (cc))
  and_then-Step P Q s (t, ok tt) next stays (later, first) rest =
      let (later', second) = rest t later in
      (
        IsLater-trans s t (next t).0 later later',
        λ done. (stays t (next t).0 later' (first refl), second done),
      )

  Step-map :
      (P Q : Checking → Type 0) (s : Checking) (o : Outcome)
      → ((t : Checking) → P t → Q t)
      → Step P s o
      → Step Q s o
  Step-map P Q s o turn (later, holds) = (later, λ done. turn o.0 (holds done))

  Present-earlier :
      (k : RevisionKey) (f : ManifestFile) (s t u : Checking)
      → IsLater s t
      → Present k f t u
      → Present k f s u
  Present-earlier k f s t u later told there =
      told (has-blobs f.sha256 s.disk t.disk later.kept there)

  Present-later :
      (k : RevisionKey) (f : ManifestFile) (s t u : Checking)
      → IsLater t u
      → Present k f s t
      → Present k f s u
  Present-later k f s t u later told there = Told-later k f t u later (told there)

  verify_files-Step :
      (k : RevisionKey) (fs : List ManifestFile) (s : Checking)
      → Step (λ t. All (λ f. Present k f s t) fs) s (verify_files h reading on_result k fs s)
  unfolding verify_files
  verify_files-Step k [] s = (IsLater-refl s, λ done. tt)
  verify_files-Step k (f ∷ fs) s =
      and_then-Step (Present k f s) (λ t. All (λ g. Present k g s t) fs) s
        (verify_file h reading on_result k f (get f.sha256 s.checked) s)
        (verify_files h reading on_result k fs) (Present-later k f s)
        (verify_file-Step k f (get f.sha256 s.checked) s)
        (λ t later.
          Step-map (λ u. All (λ g. Present k g t u) fs) (λ u. All (λ g. Present k g s u) fs) t
            (verify_files h reading on_result k fs t)
            (λ u. All-map {P = λ g. Present k g t u} (λ g. Present-earlier k g s t u later) fs)
            (verify_files-Step k fs t))

  verify_revision-Step :
      (k : RevisionKey) (r : Result IndexError (Manifest × ℕ)) (s : Checking)
      → Step (IsVerified k r s) s (verify_revision h reading on_result k r s)
  unfolding verify_revision
  verify_revision-Step k (err e) s = (IsLater-refl s, λ done. absurd (cc))
  verify_revision-Step k (ok (m, fetched_at)) s = verify_files-Step k m.files s

  IsVerified-later :
      (k : RevisionKey) (r : Result IndexError (Manifest × ℕ)) (s t u : Checking)
      → IsLater t u
      → IsVerified k r s t
      → IsVerified k r s u
  IsVerified-later k (err e) s t u later none_read = none_read
  IsVerified-later k (ok (m, at)) s t u later all =
      All-map {P = λ f. Present k f s t} (λ f. Present-later k f s t u later) m.files all

  IsVerified-earlier :
      (k : RevisionKey) (r : Result IndexError (Manifest × ℕ)) (s t u : Checking)
      → IsLater s t
      → IsVerified k r t u
      → IsVerified k r s u
  IsVerified-earlier k (err e) s t u later none_read = none_read
  IsVerified-earlier k (ok (m, at)) s t u later all =
      All-map {P = λ f. Present k f t u} (λ f. Present-earlier k f s t u later) m.files all

  module _ (load : RevisionKey → Result IndexError (Manifest × ℕ)) (sel : Selector) where
    verify_revisions-Step :
        (ks : List RevisionKey) (s : Checking)
        → Step
            (λ t. All (Visited load sel s t) ks)
            s
            (verify_revisions h reading on_result load sel ks s)
    unfolding verify_revisions
    verify_revisions-Step [] s = (IsLater-refl s, λ done. tt)
    verify_revisions-Step (k ∷ ks) s =
        and_then-Step (λ t. Visited load sel s t k) (λ t. All (Visited load sel s t) ks) s
          (if selects sel k then verify_revision h reading on_result k (load k) s else (s, ok tt))
          (verify_revisions h reading on_result load sel ks)
          (λ t u later visited picked. IsVerified-later k (load k) s t u later (visited picked))
          (if_cases (Step (λ t. Visited load sel s t k) s) (selects sel k) _ _
            (λ picked.
              let (later, holds) = verify_revision-Step k (load k) s in
              (later, λ done again. holds done))
            (λ passed. (IsLater-refl s, λ done picked. absurd (ground arith))))
          (λ t later.
            Step-map (λ u. All (Visited load sel t u) ks) (λ u. All (Visited load sel s u) ks) t
              (verify_revisions h reading on_result load sel ks t)
              (λ u.
                All-map {P = Visited load sel t u}
                  (λ j visited picked. IsVerified-earlier j (load j) s t u later (visited picked))
                  ks)
              (verify_revisions-Step ks t))

    if_matched-ok : (b : Bool) (s t : Checking) → if_matched b s ≡ (t, ok tt) → (b ≡ true) × (s ≡ t)
    unfolding if_matched
    if_matched-ok true s t e = (refl, ap (λ (o : Outcome). o.0) e)
    if_matched-ok false s t e = absurd (let no = ap (λ (o : Outcome). o.1) e in cc)

    and_then-ok :
        (o : Outcome) (next : Checking → Outcome) (t : Checking)
        → and_then o next ≡ (t, ok tt)
        → (o.1 ≡ ok tt) × (next o.0 ≡ (t, ok tt))
    unfolding and_then
    and_then-ok (s, err e) next t q = absurd (let no = ap (λ (o : Outcome). o.1) q in cc)
    and_then-ok (s, ok tt) next t q = (refl, q)

    -- If `Verify` ends without an error, with a caller that leaves the store as it is, then it has
    -- selected some revision, has read the manifest of every one that it selected, and has reported
    -- every file of theirs whose blob was in the store.
    pub verify_kept-Visited :
        (ks : List RevisionKey) (d : Disk) (t : Checking)
        → verify_kept h reading on_result load sel ks d ≡ (t, ok tt)
        → (any (selects sel) ks ≡ true)
          × All (Visited load sel (record { disk = d; checked = []; reported = [] }) t) ks
    unfolding verify_kept
    verify_kept-Visited ks d t e =
        let first : Checking = record { disk = d; checked = []; reported = [] } in
        let done = verify_revisions h reading on_result load sel ks first in
        let (fine, ended) = and_then-ok done (if_matched (any (selects sel) ks)) t e in
        let (some_one, same) = if_matched-ok (any (selects sel) ks) done.0 t ended in
        let (later, all) = verify_revisions-Step ks first in
        (some_one, subst (λ u. All (Visited load sel first u) ks) same (all fine))
