-- ===== src/Store/Commits.antt =====
-- internal/store/partial.go: `Commit` and `Put`; internal/store/store.go: `record`.
use weightkeep.Prelude.{
  ℕ, Text, [], ◌++◌, Bool, true, ◌&&◌, ◌||◌, ltb, leb, ◌≟◌, if◌then◌else◌, Option, none, some,
  Result, ok, err, get, put, remove, take, ◌>>=◌,
}
use weightkeep.Store.{
  Hashes, git_header, Blob, File, Row, Disk, StoreError, hash_mismatch, incomplete, already_closed,
  io, has,
}
use weightkeep.Store.Partials.{
  Expect, Partial, OpenFault, max_rehash_for_git_sha1, part_content, unlock, open_partial, write,
  abort,
}

-- `INSERT … ON CONFLICT (sha256) DO UPDATE`: a git id that is there stays, the size too.
unfoldable pub upsert : ℕ → Option Text → ℕ → Option Row → Row
upsert now git_sha1 size none = record {
  git_sha1 = git_sha1;
  size = size;
  created_at = now;
  verified_at = now;
}
upsert now git_sha1 size (some row) = record row {
  git_sha1 = elim row.git_sha1 [ none ↦ git_sha1 | some g ↦ some g ];
  verified_at = now;
}

-- `record`
unfoldable pub record_blob : ℕ → Blob → Disk → Disk
unfolding upsert
record_blob now b d =
    let git_sha1 = if b.git_sha1 ≟ [] then none else some b.git_sha1 in
    record d { rows = put b.sha256 (upsert now git_sha1 b.size (get b.sha256 d.rows)) d.rows }

-- What may fail in `Commit`, in the order of the calls. A failed rename does not end it where the
-- content is there already: the removal of the partial file may then fail too, and the recording of the
-- blob after either.
pub data CommitFault : Type 0 where
  nothing rehash_failed sync_failed close_failed chmod_failed mkdir_failed rename_failed
        removal_failed record_failed rename_and_record_failed removal_and_record_failed :
      CommitFault

-- Every text is looked up by its key in `parts`, so the file that is moved keeps its times.
unfoldable pub part_file : ℕ → Text → Disk → File
part_file now key d = elim (get key d.parts) [
  | none ↦ record { content = []; mtime = now }
  | some f ↦ f
]

-- `check`
unfoldable pub is_expected : Expect → Blob → Bool
is_expected exp b =
    ((exp.sha256 ≟ []) || (b.sha256 ≟ exp.sha256))
    && ((exp.git_sha1 ≟ []) || (b.git_sha1 ≟ exp.git_sha1))

-- `os.Rename` onto the blob's name.
unfoldable pub moved : ℕ → Partial → Blob → Disk → Disk
moved now p b d = record d {
  blobs = put b.sha256 (part_file now p.key d) d.blobs;
  parts = remove p.key d.parts;
}

-- Where the rename fails and the content is there already, the partial file is removed; it stays if
-- that fails, which is no error.
unfoldable pub move_into_place : CommitFault → ℕ → Partial → Blob → Disk → Option Disk
move_into_place rename_failed now p b d =
    if has b.sha256 d then some (record d { parts = remove p.key d.parts }) else none
move_into_place rename_and_record_failed now p b d =
    if has b.sha256 d then some (record d { parts = remove p.key d.parts }) else none
move_into_place removal_failed now p b d = if has b.sha256 d then some d else none
move_into_place removal_and_record_failed now p b d = if has b.sha256 d then some d else none
move_into_place _ now p b d = some (moved now p b d)

-- After the move: the partial is done, its lock released, and the blob recorded.
unfoldable pub settle :
    CommitFault → ℕ → Partial → Blob → Disk → Result StoreError Blob × Partial × Disk
unfolding record_blob unlock
settle record_failed now p b d = (err io, record p { done = true }, unlock p.key d)
settle rename_and_record_failed now p b d = (err io, record p { done = true }, unlock p.key d)
settle removal_and_record_failed now p b d = (err io, record p { done = true }, unlock p.key d)
settle _ now p b d = (ok b, record p { done = true }, record_blob now b (unlock p.key d))

unfoldable pub after_move :
    CommitFault → ℕ → Partial → Blob → Disk → Option Disk → Result StoreError Blob × Partial × Disk
after_move fault now p b d none = (err io, p, d)
after_move fault now p b d (some d') = settle fault now p b d'

-- From the sync on, for content that is as expected.
unfoldable pub install :
    CommitFault → ℕ → Partial → Blob → Disk → Result StoreError Blob × Partial × Disk
install sync_failed now p b d = (err io, p, d)
install close_failed now p b d = (err io, p, d)
install chmod_failed now p b d = (err io, p, d)
install mkdir_failed now p b d = (err io, p, d)
install fault now p b d = after_move fault now p b d (move_into_place fault now p b d)

-- The content is checked before anything is moved.
unfoldable pub check_and_install :
    CommitFault → ℕ → Partial → Disk → Blob → Result StoreError Blob × Partial × Disk
check_and_install fault now p d b =
    if is_expected p.exp b
    then install fault now p b d
    else (let (p', d') = abort p d in (err hash_mismatch, p', d'))

unfoldable pub after_hashing :
    CommitFault
    → ℕ
    → Partial
    → Disk
    → Result StoreError Blob
    → Result StoreError Blob × Partial × Disk
after_hashing fault now p d (err e) = (err e, p, d)
after_hashing fault now p d (ok b) = check_and_install fault now p d b

-- What a reader yields: chunks, with how many bytes of each the file takes, then the end or an
-- error of its own (which the end of the context is too).
pub data Reader : Type 0 where
  chunk : Text → ℕ → Reader → Reader
  end : Reader
  broken : StoreError → Reader

-- `io.Copy` into the partial.
unfoldable pub copy : ℕ → Reader → Partial → Disk → Option StoreError × Partial × Disk
unfolding write
copy now end p d = (none, p, d)
copy now (broken e) p d = (some e, p, d)
copy now (chunk b accepted rest) p d =
    let (r, p', d') = write now accepted b p d in
    elim r.1 [ none ↦ copy now rest p' d' | some e ↦ (some e, p', d') ]

-- The partial is aborted where `Commit` failed otherwise than by a mismatch.
unfoldable pub abort_unless_mismatch :
    Result StoreError Blob × Partial × Disk → Result StoreError Blob × Disk
abort_unless_mismatch (ok b, p, d) = (ok b, d)
abort_unless_mismatch (err hash_mismatch, p, d) = (err hash_mismatch, d)
abort_unless_mismatch (err e, p, d) = (err e, (abort p d).1)

module _ (h : Hashes) where
  -- The git id: the SHA-1 that has been kept up to date, or for a size that was not known a second
  -- read of at most `maxRehashForGitSHA1` bytes, or none.
  unfoldable pub git_sum : CommitFault → Option Text → ℕ → Text → Result StoreError Text
  git_sum fault (some fed) n content = ok (h.sha1 fed)
  git_sum fault none n content =
      if leb n max_rehash_for_git_sha1
      then elim fault [ rehash_failed ↦ err io | _ ↦ ok (h.sha1 (git_header n ++ take n content)) ]
      else ok []

  unfoldable pub blob_of : CommitFault → Partial → Disk → Result StoreError Blob
  blob_of fault p d = git_sum fault p.sha1_fed p.n (part_content p.key d) >>= λ g.
      ok (record { sha256 = h.sha256 p.sha256_fed; git_sha1 = g; size = p.n })

  unfoldable pub commit : CommitFault → ℕ → Partial → Disk → Result StoreError Blob × Partial × Disk
  commit fault now p d =
      if p.done
      then (err already_closed, p, d)
      else if p.exp.has_size && ltb p.n p.exp.size
      then (err incomplete, p, d)
      else after_hashing fault now p d (blob_of fault p d)

  -- `Commit` in `Put`, and what follows it.
  unfoldable pub commit_or_abort :
      CommitFault → ℕ → Option StoreError × Partial × Disk → Result StoreError Blob × Disk
  unfolding abort_unless_mismatch
  commit_or_abort fault now (some e, p, d) = (err e, (abort p d).1)
  commit_or_abort fault now (none, p, d) = abort_unless_mismatch (commit fault now p d)

  unfoldable pub copy_and_commit :
      CommitFault → ℕ → Reader → Result StoreError Partial × Disk → Result StoreError Blob × Disk
  unfolding commit_or_abort
  copy_and_commit fault now reader (err e, d) = (err e, d)
  copy_and_commit fault now reader (ok p, d) = commit_or_abort fault now (copy now reader p d)

  -- `Put` under the random key that it draws: everything read from the reader is written, then
  -- committed.
  unfoldable pub put_blob :
      Bool
      → OpenFault
      → CommitFault
      → ℕ
      → Text
      → Expect
      → Reader
      → Disk
      → Result StoreError Blob × Disk
  unfolding copy_and_commit
  put_blob ended open_fault fault now key exp reader d =
      copy_and_commit fault now reader (open_partial ended open_fault now key exp d)
