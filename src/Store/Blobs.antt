-- ===== src/Store/Blobs.antt =====
-- internal/store/store.go, verify.go and gc.go: looking up, checking and removing blobs.
use weightkeep.Prelude.{
  ℕ, Text, codes, Assoc, List, [], ◌∷◌, ◌++◌, Bool, not, ◌≟◌, if◌then◌else◌, Option, none, some,
  Result, ok, err, get, put, remove, length,
}
use weightkeep.Ids.{is_sha256}
use weightkeep.Store.{Hashes, Blob, File, Row, Disk, StoreError, not_found, io, has}

abbrev pub text_of : Option Text → Text
text_of none = []
text_of (some g) = g

-- `Stat`: the row, or the file's size where a crash left no row.
unfoldable pub stat : Text → Disk → Result StoreError Blob
unfolding has
stat sum d =
    if has sum d
    then elim (get sum d.rows) [
      | some r ↦ ok (record { sha256 = sum; git_sha1 = text_of r.git_sha1; size = r.size })
      | none ↦ elim (get sum d.blobs) [
        | some f ↦ ok (record { sha256 = sum; git_sha1 = []; size = length f.content })
        | none ↦ err not_found
      ]
    ]
    else err not_found

-- The first row of the table with a git id: `WHERE git_sha1 = ? LIMIT 1`.
unfoldable pub row_with_git : Text → Assoc Row → Option (Text × Row)
row_with_git sha1 [] = none
row_with_git sha1 ((k, r) ∷ rows) = elim r.git_sha1 [
  | none ↦ row_with_git sha1 rows
  | some g ↦ if g ≟ sha1 then some (k, r) else row_with_git sha1 rows
]

unfoldable pub if_kept : Option (Text × Row) → Disk → Result StoreError Blob
if_kept none d = err not_found
if_kept (some (k, r)) d =
    if has k d
    then ok (record { sha256 = k; git_sha1 = text_of r.git_sha1; size = r.size })
    else err not_found

-- `LookupGitSHA1`
unfoldable pub lookup_git_sha1 : Text → Disk → Result StoreError Blob
lookup_git_sha1 sha1 d = if_kept (row_with_git sha1 d.rows) d

-- What fails in `Remove`: nothing, the deletion of the file, or then that of the row.
pub data RemoveFault : Type 0 where
  nothing_fails file_stays row_stays : RemoveFault

unfoldable pub remove_both : RemoveFault → Text → Disk → Result StoreError (Unit {0}) × Disk
remove_both nothing_fails sum d =
    (ok tt, record d { blobs = remove sum d.blobs; rows = remove sum d.rows })
remove_both file_stays sum d = (err io, d)
remove_both row_stays sum d = (err io, record d { blobs = remove sum d.blobs })

-- `Remove`
unfoldable pub remove_blob : RemoveFault → Text → Disk → Result StoreError (Unit {0}) × Disk
unfolding remove_both
remove_blob fault sum d =
    let removed = remove_both fault sum d in
    if not (is_sha256 sum) then (err not_found, d) else removed

-- What `Verify` finds: a good blob, one whose content hashes to something else, or an error.
pub data Verdict : Type 0 where
  good : Verdict
  corrupt : Text → Verdict
  unreadable : StoreError → Verdict

-- `UPDATE blobs SET verified_at = ?`
unfoldable pub touch : ℕ → Text → Disk → Disk
touch now sum d = elim (get sum d.rows) [
  | none ↦ d
  | some r ↦ record d { rows = put sum (record r { verified_at = now }) d.rows }
]

-- What `Verify` does with the file that it opened, or did not find.
unfoldable pub read_back : Hashes → Bool → ℕ → Text → Disk → Option File → Verdict × Disk
read_back h broken now sum d none = (unreadable not_found, d)
read_back h broken now sum d (some f) =
    if broken
    then (unreadable io, d)
    else if h.sha256 f.content ≟ sum
    then (good, touch now sum d)
    else (corrupt (h.sha256 f.content), d)

-- `Verify`; the first argument says whether reading the file fails or the context ends.
unfoldable pub verify : Hashes → Bool → ℕ → Text → Disk → Verdict × Disk
verify h broken now sum d =
    if not (is_sha256 sum)
    then (unreadable not_found, d)
    else read_back h broken now sum d (get sum d.blobs)

-- `Quarantine`: the blob leaves `blobs/` under its name and the time, and its row stays.
unfoldable pub quarantine_blob : Bool → Text → Text → Disk → Result StoreError Text × Disk
unfolding has
quarantine_blob refused stamp sum d =
    if not (has sum d)
    then (err not_found, d)
    else if refused
    then (err io, d)
    else elim (get sum d.blobs) [
      | none ↦ (err io, d)
      | some f ↦
          let dst = sum ++ codes "-" ++ stamp in
          (ok dst, record d { blobs = remove sum d.blobs; quarantine = (dst, f) ∷ d.quarantine })
    ]

pub record BlobInfo : Type 0 where
  pub sha256 : Text
  pub size : ℕ
  pub mtime : ℕ

-- `Blobs`: every file of `blobs/` whose name is a SHA-256.
unfoldable pub list_blobs : Assoc File → List BlobInfo
list_blobs [] = []
list_blobs ((k, f) ∷ fs) =
    if is_sha256 k
    then record { sha256 = k; size = length f.content; mtime = f.mtime } ∷ list_blobs fs
    else list_blobs fs
