-- ===== src/Tests/Data.antt =====
-- A store on a small disk, with sums that tell the length of what they are taken of.
use weightkeep.Prelude.{
  ℕ, ◌+◌, ◌%◌, Text, codes, [], ◌∷◌, ◌++◌, true, false, some, length, replicate, ◌≡◌, arith,
}
use weightkeep.Ids.{is_sha256, is_commit, is_hex}
use weightkeep.Store.{Hashes, File, Row, Disk, git_header}
use weightkeep.Store.Partials.{Expect, Partial}

abbrev pub digit : Text → ℕ
digit s = 48 + length s % 10

abbrev pub toy_sha256 : Text → Text
toy_sha256 s = digit s ∷ replicate 63 b'a'

abbrev pub toy_sha1 : Text → Text
toy_sha1 s = digit s ∷ replicate 39 b'b'

pub toy_sha256_shape : (s : Text) → is_sha256 (toy_sha256 s) ≡ true
unfolding is_sha256 is_hex
toy_sha256_shape s = ground arith

pub toy_sha1_shape : (s : Text) → is_commit (toy_sha1 s) ≡ true
unfolding is_commit is_hex
toy_sha1_shape s = ground arith

abbrev pub toy : Hashes
toy = record {
  sha256 = toy_sha256;
  sha1 = toy_sha1;
  sha256_shape = toy_sha256_shape;
  sha1_shape = toy_sha1_shape;
}

-- A blob of three bytes that was stored at time 100.
abbrev pub old_content : Text
old_content = codes "abc"

abbrev pub old_sum : Text
old_sum = toy_sha256 old_content

abbrev pub old_file : File
old_file = record { content = old_content; mtime = 100 }

abbrev pub old_git : Text
old_git = toy_sha1 (git_header 3 ++ old_content)

abbrev pub old_row : Row
old_row = record { git_sha1 = some old_git; size = 3; created_at = 100; verified_at = 100 }

-- A partial that expects five bytes, of which two or all are written.
abbrev pub new_sum : Text
new_sum = toy_sha256 (codes "hello")

abbrev pub five : Expect
five = record { sha256 = new_sum; git_sha1 = []; size = 5; has_size = true }

abbrev pub partial_of : Text → Partial
partial_of s = record {
  key = new_sum;
  exp = five;
  sha256_fed = s;
  sha1_fed = some (git_header 5 ++ s);
  n = length s;
  done = false;
}

abbrev pub disk_of : Text → Disk
disk_of s = record {
  blobs = (old_sum, old_file) ∷ [];
  parts = (new_sum, record { content = s; mtime = 200 }) ∷ [];
  lock_files = (new_sum, 200) ∷ [];
  quarantine = [];
  locks = new_sum ∷ [];
  rows = (old_sum, old_row) ∷ [];
}
