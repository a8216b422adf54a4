-- ===== src/Tests/Fetch.antt =====
-- Downloads of five bytes into the small disk.
use weightkeep.Prelude.{
  List, ◌∷◌, ℕ, zero, suc, codes, [], true, false, some, ◌≡◌, refl, arith, inl,
}
use weightkeep.Store.{Disk, hash_mismatch}
use weightkeep.Store.Partials.{ResetFault, OpenFault}
use weightkeep.Store.Commits.{CommitFault, chunk, end}
use weightkeep.Store.Sound.{IsSound, IsSound-same}
use weightkeep.Fetch.Transfer.{Target, expect, body, from_store, Round, transfer, fetch_loop}
use weightkeep.Fetch.Outcome.{IsOpen}
use weightkeep.Fetch.Fetching.{Opening, fetch_file}
use weightkeep.Fetch.Returned.{Returned, fetch_file-Returned}
use weightkeep.Fetch.Overlong.{fetch_loop-mismatch}
use weightkeep.Tests.Data.{toy, new_sum, partial_of, disk_of}
use weightkeep.Tests.Store.{in_step, sound}

abbrev target : Target
target = record { size = 5; sha256 = new_sum; tree_oid = []; lfs = true }

-- The rest of "hello", and a body that is one byte too long.
abbrev good_round : Round
good_round = record {
  download = body 2 (chunk (codes "llo") 3 end);
  reset_fault = ResetFault.nothing;
  ended = false;
  ended_waiting = false;
}

abbrev long_round : Round
long_round = record good_round { download = body 2 (chunk (codes "llo!") 4 end) }

abbrev rounds : ℕ → Round
rounds zero = long_round
rounds (suc n) = good_round

opened : IsOpen toy target (partial_of (codes "he")) (disk_of (codes "he"))
unfolding expect
opened = (in_step (codes "he") (omega arith), sound (codes "he"), refl)

-- Another process holds the partial at first, and has let it go after the wait.
abbrev released : Disk
released = record (disk_of (codes "he")) { locks = [] }

abbrev attempts : List Opening
attempts =
    record {
      ended = false;
      fault = OpenFault.nothing;
      now = 250;
      ended_waiting = false;
      left = released;
    }
    ∷ record {
      ended = false;
      fault = OpenFault.nothing;
      now = 260;
      ended_waiting = false;
      left = released;
    }
    ∷ []

released-IsSound : IsSound toy released
released-IsSound = IsSound-same refl refl (sound (codes "he"))

fetch_file-Returned_example : Returned toy target CommitFault.nothing attempts (
    fetch_file toy CommitFault.nothing 300 0 target rounds released attempts (disk_of (codes "he")))
fetch_file-Returned_example =
    fetch_file-Returned toy target CommitFault.nothing 300 0 rounds released attempts
      (disk_of (codes "he")) (released-IsSound, (released-IsSound, tt)) released-IsSound
      (sound (codes "he"))

fetch_loop-mismatch_example :
    let x = transfer 300 target long_round (partial_of (codes "he")) (disk_of (codes "he")) in
    (x.0 ≡ some (from_store hash_mismatch))
    × (fetch_loop toy CommitFault.nothing 300 target rounds 6 0
          (partial_of (codes "he"))
          (disk_of (codes "he"))
        ≡ fetch_loop toy CommitFault.nothing 300 target rounds 5 1 x.1 x.2)
fetch_loop-mismatch_example =
    fetch_loop-mismatch toy target CommitFault.nothing 300 rounds 5 0 (chunk (codes "llo!") 4 end)
      (partial_of (codes "he")) (disk_of (codes "he")) opened (omega arith) refl (inl (omega arith))
      refl refl
