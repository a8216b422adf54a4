-- ===== src/Keep/Growth.antt =====
-- What grows while `Verify` of internal/keep/verify.go runs, and what stays.
use weightkeep.Prelude.{
  ℕ, Text, ◌≟◌, List, [], ◌∷◌, ◌++◌, Bool, true, false, not, if_cases, get, put, All, Option, none,
  some, Result, ok, err, append_assoc, append-nil, ◌≡◌, refl, sym, ap, ◌∙◌,
}
use weightkeep.Ids.{is_sha256}
use weightkeep.Manifest.Record.{Manifest, ManifestFile}
use weightkeep.Manifest.Index.{RevisionKey, IndexError}
use weightkeep.Store.{Hashes, Disk, File, Row, has}
use weightkeep.Store.Blobs.{Verdict, verify, read_back, touch}
use weightkeep.Keep.Verify.{VerifyResult, Checking}

-- Some result is of the file of the revision.
abbrev pub Told : RevisionKey → ManifestFile → Checking → Type 0
Told k f s =
    (ys : List VerifyResult) × (zs : List VerifyResult) × (v : Verdict) × (s.reported
      ≡ ys ++ record { key = k; file = f; verdict = v } ∷ zs)

-- The blobs are as before, and what was reported is the start of what is.
pub record IsLater (s s' : Checking) : Type 0 where
  pub kept : s'.disk.blobs ≡ s.disk.blobs
  pub more : List VerifyResult
  pub grown : s'.reported ≡ s.reported ++ more

pub IsLater-refl : (s : Checking) → IsLater s s
IsLater-refl s = record { kept = refl; more = []; grown = sym (append-nil s.reported) }

pub IsLater-trans : (s t u : Checking) → IsLater s t → IsLater t u → IsLater s u
IsLater-trans s t u i j = record {
  kept = j.kept ∙ i.kept;
  more = i.more ++ j.more;
  grown = j.grown ∙ ap (λ rs. rs ++ j.more) i.grown ∙ append_assoc s.reported i.more j.more;
}

pub Told-later :
    (k : RevisionKey) (f : ManifestFile) (s t : Checking) → IsLater s t → Told k f s → Told k f t
Told-later k f s t i (ys, zs, v, e) =
    (ys, zs ++ i.more, v, i.grown ∙ ap (λ rs. rs ++ i.more) e ∙ append_assoc ys _ i.more)

pub has-blobs :
    (sum : Text) (d d' : Disk) → d'.blobs ≡ d.blobs → has sum d ≡ true → has sum d' ≡ true
unfolding has
has-blobs sum d d' e h = rw e h

touch-blobs : (now : ℕ) (sum : Text) (d : Disk) → (touch now sum d).blobs ≡ d.blobs
unfolding touch
touch-blobs now sum d = go (get sum d.rows)
  where
    go :
        (o : Option Row)
        → (elim o as (λ x. Disk) [
          | none ↦ d
          | some r ↦ record d { rows = put sum (record r { verified_at = now }) d.rows }
        ]).blobs
          ≡ d.blobs
    go none = refl
    go (some r) = refl

read_back-blobs :
    (h : Hashes) (broken : Bool) (now : ℕ) (sum : Text) (d : Disk) (o : Option File)
    → (read_back h broken now sum d o).1.blobs ≡ d.blobs
unfolding read_back
read_back-blobs h broken now sum d none = refl
read_back-blobs h true now sum d (some f) = refl
read_back-blobs h false now sum d (some f) =
    if_cases (λ (r : Verdict × Disk). r.1.blobs ≡ d.blobs) (h.sha256 f.content ≟ sum) _ _
      (λ _. touch-blobs now sum d) (λ _. refl)

pub verify-blobs :
    (h : Hashes) (broken : Bool) (now : ℕ) (sum : Text) (d : Disk)
    → (verify h broken now sum d).1.blobs ≡ d.blobs
unfolding verify
verify-blobs h broken now sum d =
    if_cases (λ (r : Verdict × Disk). r.1.blobs ≡ d.blobs) (not (is_sha256 sum)) _ _ (λ _. refl)
      (λ _. read_back-blobs h broken now sum d (get sum d.blobs))

-- A file is reported if its blob is there.
abbrev pub Present : RevisionKey → ManifestFile → Checking → Checking → Type 0
Present k f s t = has f.sha256 s.disk ≡ true → Told k f t

-- The manifest was read, and its files that are in the store were reported.
abbrev pub IsVerified :
    RevisionKey → Result IndexError (Manifest × ℕ) → Checking → Checking → Type 0
IsVerified k (err e) s t = ⊥
IsVerified k (ok (m, fetched_at)) s t = All (λ f. Present k f s t) m.files
