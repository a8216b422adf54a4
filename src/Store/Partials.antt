-- ===== src/Store/Partials.antt =====
-- internal/store/partial.go: a blob being written. What the operating system refuses is an
-- argument of each operation.
use weightkeep.Prelude.{
  ℕ, ◌+◌, ◌*◌, ◌^◌, Text, List, [], ◌∷◌, ◌++◌, Bool, true, false, not, ◌&&◌, ltb, ◌==◌, ◌≟◌,
  if◌then◌else◌, Option, none, some, Result, ok, err, get, put, remove, has_key, length, take,
}
use weightkeep.Ids.{is_sha256}
use weightkeep.Store.{
  git_header, Disk, StoreError, hash_mismatch, busy, bad_key, bad_expectation, canceled, io, is_key,
  is_locked,
}

pub record Expect : Type 0 where
  pub sha256 : Text
  pub git_sha1 : Text
  pub size : ℕ
  pub has_size : Bool

-- The two `hash.Hash` fields are the bytes written to them so far; `sha1` is nil when the size is
-- not known. The open file is `tmp/<key>.part`.
pub record Partial : Type 0 where
  pub key : Text
  pub exp : Expect
  pub sha256_fed : Text
  pub sha1_fed : Option Text
  pub n : ℕ
  pub done : Bool

abbrev pub max_rehash_for_git_sha1 : ℕ
max_rehash_for_git_sha1 = 64 * 2 ^ 20

-- `flock`: who asks first holds the lock, and the lock file is created if it is not there.
unfoldable pub lock : ℕ → Text → Disk → Disk
lock now key d = record d {
  locks = key ∷ d.locks;
  lock_files = if has_key key d.lock_files then d.lock_files else put key now d.lock_files;
}

unfoldable pub without : Text → List Text → List Text
without key [] = []
without key (k ∷ ks) = let rest = without key ks in if k ≟ key then rest else k ∷ rest

unfoldable pub unlock : Text → Disk → Disk
unfolding without
unlock key d = record d { locks = without key d.locks }

unfoldable pub part_content : Text → Disk → Text
part_content key d = elim (get key d.parts) [ none ↦ [] | some f ↦ f.content ]

unfoldable pub write_part : ℕ → Text → Text → Disk → Disk
write_part now key content d = record d {
  parts = put key (record { content = content; mtime = now }) d.parts;
}

-- `os.O_CREATE`
unfoldable pub create_part : ℕ → Text → Disk → Disk
unfolding write_part
create_part now key d = if has_key key d.parts then d else write_part now key [] d

-- What may fail on the way to an open partial, in the order of the calls.
pub data OpenFault : Type 0 where
  nothing lock_failed open_failed stat_failed read_failed : OpenFault

-- `resetHashes`: the SHA-1 starts with git's header.
unfoldable pub reset_sha1 : Expect → Option Text
reset_sha1 exp = if exp.has_size then some (git_header exp.size) else none

unfoldable pub feed_sha1 : Option Text → Text → Option Text
feed_sha1 none b = none
feed_sha1 (some fed) b = some (fed ++ b)

-- Longer than the blob can be: left over from something else.
unfoldable pub is_too_long : Expect → Text → Bool
is_too_long exp old = exp.has_size && ltb exp.size (length old)

unfoldable pub kept_bytes : Expect → Text → Text
unfolding is_too_long
kept_bytes exp old = if is_too_long exp old then [] else old

unfoldable pub truncated : ℕ → Text → Expect → Disk → Disk
unfolding is_too_long write_part
truncated now key exp d =
    if is_too_long exp (part_content key d) then write_part now key [] d else d

-- The partial after its file has been read into the hashes.
unfoldable pub resumed : Text → Expect → Text → Partial
unfolding reset_sha1 feed_sha1
resumed key exp kept = record {
  key = key;
  exp = exp;
  sha256_fed = kept;
  sha1_fed = feed_sha1 (reset_sha1 exp) kept;
  n = length kept;
  done = false;
}

-- `resume`, from the open file; a failure closes the partial, which unlocks it.
unfoldable pub resume : OpenFault → ℕ → Text → Expect → Disk → Result StoreError Partial × Disk
unfolding kept_bytes truncated resumed
resume stat_failed now key exp d = (err io, unlock key d)
resume read_failed now key exp d = (err io, unlock key (truncated now key exp d))
resume _ now key exp d =
    (ok (resumed key exp (kept_bytes exp (part_content key d))), truncated now key exp d)

-- The method `Partial` of the store; the first argument says whether the context has ended.
unfoldable pub open_partial :
    Bool → OpenFault → ℕ → Text → Expect → Disk → Result StoreError Partial × Disk
open_partial ended fault now key exp d =
    if not (is_key key)
    then (err bad_key, d)
    else if not (exp.sha256 ≟ []) && not (is_sha256 exp.sha256)
    then (err bad_expectation, d)
    else if ended
    then (err canceled, d)
    else elim fault [
      | lock_failed ↦ (err io, d)
      | open_failed ↦
          if is_locked key d then (err busy, d) else (err io, unlock key (lock now key d))
      | f ↦
          if is_locked key d
          then (err busy, d)
          else resume f now key exp (create_part now key (lock now key d))
    ]

-- `Write`, of which the file takes the first `accepted` bytes; fewer than all are an error. The
-- result is the count, the error, and the states.
unfoldable pub write : ℕ → ℕ → Text → Partial → Disk → (ℕ × Option StoreError) × Partial × Disk
unfolding write_part feed_sha1
write now accepted b p d =
    if p.exp.has_size && ltb p.exp.size (p.n + length b)
    then ((0, some hash_mismatch), p, d)
    else let w = take accepted b in
      (
        (length w, if length w == length b then none else some io),
        record p {
          sha256_fed = p.sha256_fed ++ w;
          sha1_fed = feed_sha1 p.sha1_fed w;
          n = p.n + length w;
        },
        write_part now p.key (part_content p.key d ++ w) d,
      )

pub data ResetFault : Type 0 where
  nothing truncate_failed : ResetFault

-- `Reset`. Seeking to the start of an open file does not fail.
unfoldable pub reset : ResetFault → ℕ → Partial → Disk → Option StoreError × Partial × Disk
unfolding write_part reset_sha1
reset truncate_failed now p d = (some io, p, d)
reset ResetFault.nothing now p d = (
  none,
  record p { sha256_fed = []; sha1_fed = reset_sha1 p.exp; n = 0 },
  write_part now p.key [] d,
)

-- `Close`
unfoldable pub close : Partial → Disk → Partial × Disk
unfolding unlock
close p d = if p.done then (p, d) else (record p { done = true }, unlock p.key d)

-- `Abort`; the lock of a closed partial has been released, and releasing it again does nothing.
unfoldable pub abort : Partial → Disk → Partial × Disk
unfolding unlock
abort p d =
    let d' : Disk = record d { parts = remove p.key d.parts } in
    (record p { done = true }, if p.done then d' else unlock p.key d')
