-- ===== src/Tests/Verifying.antt =====
-- Verifying the one kept revision on a small disk.
use weightkeep.Prelude.{
  ℕ, codes, [], ◌∷◌, true, false, Result, ok, ◌≟◌, any, has_key, get, put, All, ◌≡◌, refl,
  replicate,
}
use weightkeep.Ids.{is_sha256, is_hex}
use weightkeep.Manifest.Record.{Manifest, bytes}
use weightkeep.Manifest.Index.{RevisionKey, IndexError, key_of}
use weightkeep.Store.{has}
use weightkeep.Store.Blobs.{verify, read_back, touch}
use weightkeep.Keep.Verify.{Selector, Reading, Checking, selects, verify_kept}
use weightkeep.Keep.Reported.{IsFaithful, verify_kept-IsFaithful}
use weightkeep.Keep.Complete.{Visited, verify_kept-Visited}
use weightkeep.Tests.Data.{toy, old_sum, disk_of}
use weightkeep.Tests.Store.{sound}
use weightkeep.Tests.Proxy.{one_file}

abbrev kept : Manifest
kept = record one_file {
  files =
      record {
        path = codes "a";
        size = bytes 3;
        sha256 = old_sum;
        git_sha1 = replicate 40 b'c';
        lfs = false;
      }
      ∷ [];
}

abbrev load_kept : RevisionKey → Result IndexError (Manifest × ℕ)
load_kept k = ok (kept, 500)

abbrev everything : Selector
everything = record { repo_type = []; repo_id = []; commit = [] }

abbrev reading : Reading
reading = record { now = λ s. 900; broken = λ s. false; ended = λ s. false }

abbrev ending : Checking
ending =
    (verify_kept toy reading (λ r d. d) load_kept everything (key_of kept ∷ [])
      (disk_of (codes "he"))).0

verified_now :
    verify_kept toy reading
      (λ r d. d)
      load_kept
      everything
      (key_of kept ∷ [])
      (disk_of (codes "he"))
    ≡ (ending, ok tt)
unfolding verify_kept ◌≟◌ has is_sha256 is_hex has_key get put verify read_back touch
verified_now = refl

verify_kept-Visited_example :
    (any (selects everything) (key_of kept ∷ []) ≡ true)
    × All
        (Visited load_kept everything
          (record { disk = disk_of (codes "he"); checked = []; reported = [] })
          ending)
        (key_of kept ∷ [])
verify_kept-Visited_example =
    verify_kept-Visited toy reading (λ r d. d) (λ r d. refl) load_kept everything (key_of kept ∷ [])
      (disk_of (codes "he")) ending verified_now

verify_kept-IsFaithful_example : IsFaithful toy ending
verify_kept-IsFaithful_example =
    verify_kept-IsFaithful toy reading (λ r d. d) (λ r d s. s) load_kept everything
      (key_of kept ∷ []) (disk_of (codes "he")) (sound (codes "he"))
