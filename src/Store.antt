-- ===== src/Store.antt =====
-- internal/store: the content-addressed blob store. The directories and tables that it keeps are
-- the fields of `Disk`.
pub mod Partials
pub mod Commits
pub mod Sound
pub mod Progress
pub mod Guarantee
pub mod Commitment
pub mod Putting
pub mod Blobs
pub mod Upkeep
pub mod Cleanup
pub mod Tmp
use weightkeep.Prelude.{
  ℕ, Text, Assoc, List, [], ◌∷◌, ◌++◌, Bool, true, false, ◌≟◌, any, get, has_key, if◌then◌else◌,
  Option, none, some, codes, format_int, length, ◌≡◌,
}
use weightkeep.Ids.{is_sha256, is_commit}

-- What the store relies on of crypto/sha256 and crypto/sha1: lowercase hexadecimal sums of 64 and
-- 40 digits.
pub record Hashes : Type 0 where
  pub sha256 : Text → Text
  pub sha1 : Text → Text
  pub sha256_shape : (s : Text) → is_sha256 (sha256 s) ≡ true
  pub sha1_shape : (s : Text) → is_commit (sha1 s) ≡ true

-- `"blob " + strconv.FormatInt(size, 10) + "\x00"`
unfoldable pub git_header : ℕ → Text
unfolding format_int
git_header size = codes "blob " ++ (format_int size ++ 0 ∷ [])

pub record Blob : Type 0 where
  pub sha256 : Text
  pub git_sha1 : Text
  pub size : ℕ

-- A file with its time of modification, in seconds.
pub record File : Type 0 where
  pub content : Text
  pub mtime : ℕ

-- A row of the table `blobs`; a missing `git_sha1` is NULL.
pub record Row : Type 0 where
  pub git_sha1 : Option Text
  pub size : ℕ
  pub created_at : ℕ
  pub verified_at : ℕ

-- `blobs/sha256/`, by name; `tmp/*.part` and `tmp/*.lock`, by key; `quarantine/`; the locks that
-- some process holds; the table `blobs`, by its primary key.
pub record Disk : Type 0 where
  pub blobs : Assoc File
  pub parts : Assoc File
  pub lock_files : Assoc ℕ
  pub quarantine : List (Text × File)
  pub locks : List Text
  pub rows : Assoc Row

pub data StoreError : Type 0 where
  not_found hash_mismatch busy incomplete already_closed bad_key bad_expectation canceled io :
      StoreError

-- `keyHex`
unfoldable pub is_key : Text → Bool
is_key key = if is_commit key then true else is_sha256 key

unfoldable pub is_locked : Text → Disk → Bool
unfolding ◌≟◌
is_locked key d = any (λ k. k ≟ key) d.locks

-- `Has`
unfoldable pub has : Text → Disk → Bool
unfolding has_key
has sum d = if is_sha256 sum then has_key sum d.blobs else false
