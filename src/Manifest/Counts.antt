-- ===== src/Manifest/Counts.antt =====
-- internal/manifest/index.go: what `List` counts of one revision.
use weightkeep.Prelude.{
  ℕ, ◌+◌, Text, List, [], ◌∷◌, Bool, false, has_key, if◌then◌else◌, none, ok, get, get-remove,
  ≟_refl, ◌≡◌, refl, arith,
}
use weightkeep.Store.{Disk, has}
use weightkeep.Store.Blobs.{quarantine_blob}

-- A row of the table `files`; `sha256` is empty where the hash is not known.
pub record FileRow : Type 0 where
  pub path : Text
  pub sha256 : Text
  pub size : ℕ

pub record Counts : Type 0 where
  pub files : ℕ
  pub size : ℕ
  pub kept_files : ℕ
  pub kept_size : ℕ

unfoldable pub add_file : Disk → FileRow → Counts → Counts
add_file d f n =
    if has_key f.sha256 d.rows
    then record n {
      files = n.files + 1;
      size = n.size + f.size;
      kept_files = n.kept_files + 1;
      kept_size = n.kept_size + f.size;
    }
    else record n { files = n.files + 1; size = n.size + f.size }

-- The aggregates over `files LEFT JOIN blobs ON blobs.sha256 = files.sha256`.
unfoldable pub count : Disk → List FileRow → Counts
unfolding add_file
count d [] = record { files = 0; size = 0; kept_files = 0; kept_size = 0 }
count d (f ∷ fs) = add_file d f (count d fs)

count-rows : (d d' : Disk) (fs : List FileRow) → d'.rows ≡ d.rows → count d' fs ≡ count d fs
unfolding count
count-rows d d' [] e = refl
count-rows d d' (f ∷ fs) e = rw (e, count-rows d d' fs e) refl

quarantined :
    (refused : Bool) (stamp sum dst : Text) (d : Disk)
    → (quarantine_blob refused stamp sum d).0 ≡ ok dst
    → ((quarantine_blob refused stamp sum d).1.rows ≡ d.rows)
      × (get sum (quarantine_blob refused stamp sum d).1.blobs ≡ none)
unfolding quarantine_blob
quarantined refused stamp sum dst d h = ground (arith, get-remove sum sum d.blobs, ≟_refl sum)

-- A blob that `Quarantine` has moved away is no longer in the store, yet every count of every
-- revision, the files that are kept among them, is what it was.
pub quarantine_blob-count :
    (refused : Bool) (stamp sum dst : Text) (d : Disk) (fs : List FileRow)
    → (quarantine_blob refused stamp sum d).0 ≡ ok dst
    → let d' = (quarantine_blob refused stamp sum d).1 in
      (has sum d' ≡ false) × (count d' fs ≡ count d fs)
quarantine_blob-count refused stamp sum dst d fs h =
    let (rows, gone) = quarantined refused stamp sum dst d h in
    let d' = (quarantine_blob refused stamp sum d).1 in
    (unfold has has_key in ground arith, count-rows d d' fs rows)
