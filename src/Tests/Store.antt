-- ===== src/Tests/Store.antt =====
-- Writing, committing, checking and cleaning on the small disk.
use mathlib.Core.Path.{subst₂}
use weightkeep.Prelude.{
  ◌≤◌, Text, codes, List, [], ◌∷◌, ◌++◌, true, false, ◌≟◌, ≟_iff, none, ok, err, get, remove,
  has_key, length, replicate, ◌≡◌, refl, arith, inl,
}
use weightkeep.Ids.{is_sha256, is_commit, is_hex}
use weightkeep.Store.{Disk, incomplete, git_header, is_key, is_locked, has}
use weightkeep.Store.Partials.{
  OpenFault, part_content, write, open_partial, close, resume, create_part, lock,
}
use weightkeep.Store.Commits.{
  CommitFault, commit, after_hashing, blob_of, git_sum, check_and_install, is_expected, install,
  after_move, move_into_place, settle,
}
use weightkeep.Store.Blobs.{lookup_git_sha1, row_with_git, if_kept}
use weightkeep.Store.Cleanup.{
  CleanOptions, clean_tmp, clean_entries, clean_entry, is_young, touch_lock, tmp_entries,
  lock_entries, part_entries,
}
use weightkeep.Store.Sound.{git_id, RowIsSound, IsSound, InStep, IsSound-same}
use weightkeep.Store.Progress.{IsResumed, write-InStep, open_partial-IsResumed, open_partial-close}
use weightkeep.Store.Commitment.{Done, commit-Done}
use weightkeep.Store.Upkeep.{lookup_git_sha1_sound}
use weightkeep.Store.Tmp.{clean_tmp-spares}
use weightkeep.Store.Commits.{Reader, chunk, end, put_blob}
use weightkeep.Store.Putting.{Placed, put_blob-Placed}
use weightkeep.Store.Blobs.{quarantine_blob}
use weightkeep.Manifest.Counts.{FileRow, count, quarantine_blob-count}
use weightkeep.Tests.Data.{
  toy, toy_sha256, old_content, old_sum, old_git, old_row, new_sum, five, partial_of, disk_of,
}

pub in_step : (s : Text) → length s ≤ 5 → InStep (partial_of s) (disk_of s)
unfolding part_content get
in_step s le = record {
  content = ground (arith, ≟_iff new_sum new_sum);
  counted = refl;
  headed = refl;
  fits = λ sized. le;
}

old_row_IsSound : RowIsSound toy old_sum old_row
old_row_IsSound = record {
  sized = (old_content, refl, refl);
  identified = λ g e. (old_content, refl, ground arith);
}

pub sound : (s : Text) → IsSound toy (disk_of s)
unfolding get
sound s = record {
  named = λ k f e. ground (arith, ≟_iff old_sum k);
  rowed = λ k r e.
      subst₂ (RowIsSound toy) (ground (arith, ≟_iff old_sum k)) (ground (arith, ≟_iff old_sum k))
        old_row_IsSound;
}

write-InStep_example :
    let r = write 300 2 (codes "llo") (partial_of (codes "he")) (disk_of (codes "he")) in
    InStep r.1 r.2
write-InStep_example =
    write-InStep 300 2 (codes "llo") (partial_of (codes "he")) (disk_of (codes "he"))
      (in_step (codes "he") (omega arith))

abbrev busy_disk : Disk
busy_disk = disk_of (codes "he")

abbrev free_disk : Disk
free_disk = record busy_disk { locks = [] }

open_partial_test :
    (open_partial false OpenFault.nothing 300 new_sum five free_disk).0
    ≡ ok (partial_of (codes "he"))
unfolding open_partial is_key is_commit is_sha256 is_hex ◌≟◌ is_locked resume part_content get
    create_part has_key lock
open_partial_test = refl

open_partial-IsResumed_example :
    IsResumed new_sum five
      (part_content new_sum free_disk)
      (open_partial false OpenFault.nothing 300 new_sum five free_disk).1
      (partial_of (codes "he"))
open_partial-IsResumed_example =
    open_partial-IsResumed false OpenFault.nothing 300 new_sum five free_disk
      (partial_of (codes "he")) open_partial_test

open_partial-close_example :
    (open_partial false OpenFault.nothing 300 new_sum five
      (close (partial_of (codes "he")) busy_disk).1).0
    ≡ ok (partial_of (codes "he"))
open_partial-close_example =
    open_partial-close 300 (partial_of (codes "he")) busy_disk (in_step (codes "he") (omega arith))
      refl (unfold is_key is_commit is_sha256 is_hex in refl) (unfold is_sha256 is_hex ◌≟◌ in refl)

abbrev full_disk : Disk
full_disk = disk_of (codes "hello")

commit_test :
    (commit toy CommitFault.nothing 300 (partial_of (codes "hello")) full_disk).0
    ≡ ok (record { sha256 = new_sum; git_sha1 = git_id toy (codes "hello"); size = 5 })
unfolding commit after_hashing blob_of git_sum check_and_install is_expected ◌≟◌ install after_move
    move_into_place settle
commit_test = refl

short_commit_test :
    (commit toy CommitFault.nothing 300 (partial_of (codes "he")) busy_disk).0 ≡ err incomplete
unfolding commit
short_commit_test = refl

commit-Done_example :
    IsSound toy (commit toy CommitFault.nothing 300 (partial_of (codes "hello")) full_disk).2
    × Done toy CommitFault.nothing
        (partial_of (codes "hello"))
        (commit toy CommitFault.nothing 300 (partial_of (codes "hello")) full_disk)
commit-Done_example =
    commit-Done toy CommitFault.nothing 300 (partial_of (codes "hello")) full_disk
      (in_step (codes "hello") (omega arith)) (sound (codes "hello"))

lookup_git_sha1_test :
    lookup_git_sha1 old_git free_disk
    ≡ ok (record { sha256 = old_sum; git_sha1 = old_git; size = 3 })
unfolding lookup_git_sha1 if_kept row_with_git ◌≟◌ git_header has is_sha256 is_hex
lookup_git_sha1_test = refl

lookup_git_sha1_sound_example :
    (has old_sum free_disk ≡ true)
    × (old_git ≡ old_git)
    × ((s : Text) × (toy_sha256 s ≡ old_sum) × (old_git ≡ git_id toy s))
lookup_git_sha1_sound_example =
    lookup_git_sha1_sound toy old_git free_disk
      (record { sha256 = old_sum; git_sha1 = old_git; size = 3 })
      (IsSound-same refl refl (sound (codes "he"))) (unfold has_key get in (refl, tt))
      lookup_git_sha1_test

-- An old partial that a process holds, and the same partial abandoned.
abbrev cleaning : CleanOptions
cleaning = record {
  now = 1000000;
  lock_age = 10;
  partial_age = 10;
  dry_run = false;
  refused = λ e. false;
}

clean_tmp_test : get new_sum (clean_tmp cleaning free_disk).1.parts ≡ none
unfolding clean_tmp clean_entries clean_entry is_young touch_lock tmp_entries lock_entries
    part_entries get remove is_key is_commit is_sha256 is_hex is_locked ◌≟◌
clean_tmp_test = refl

clean_tmp-spares_example :
    get new_sum (clean_tmp cleaning busy_disk).1.parts ≡ get new_sum busy_disk.parts
clean_tmp-spares_example =
    clean_tmp-spares cleaning busy_disk new_sum (unfold has_key get in (refl, tt))
      (inl (unfold is_locked ◌≟◌ in refl))

abbrev random_key : Text
random_key = replicate 64 b'd'

abbrev two_chunks : Reader
two_chunks = chunk (codes "hel") 3 (chunk (codes "lo") 2 end)

put_blob-Placed_example :
    let r =
      put_blob toy false OpenFault.nothing CommitFault.nothing 300 random_key five two_chunks
        busy_disk in
    IsSound toy r.1 × Placed toy five CommitFault.nothing (codes "hello") r
put_blob-Placed_example =
    put_blob-Placed toy false OpenFault.nothing CommitFault.nothing 300 random_key five two_chunks
      busy_disk (sound (codes "he")) (unfold get ◌≟◌ in refl)

quarantine_blob_test :
    (quarantine_blob false (codes "now") old_sum busy_disk).0 ≡ ok (old_sum ++ codes "-now")
unfolding quarantine_blob has has_key get ◌≟◌ is_sha256 is_hex
quarantine_blob_test = refl

-- The quarantined file still counts as kept.
quarantine_blob-count_example :
    let d' = (quarantine_blob false (codes "now") old_sum busy_disk).1 in
    let files : List FileRow = record { path = codes "f"; sha256 = old_sum; size = 3 } ∷ [] in
    (has old_sum d' ≡ false) × (count d' files ≡ count busy_disk files)
quarantine_blob-count_example =
    quarantine_blob-count false (codes "now") old_sum (old_sum ++ codes "-now") busy_disk
      (record { path = codes "f"; sha256 = old_sum; size = 3 } ∷ []) quarantine_blob_test
