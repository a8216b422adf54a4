-- ===== src/Tests/Keep.antt =====
-- Garbage collection of the small disk, and the choice of an upstream.
use weightkeep.Prelude.{
  ℕ, ◌+◌, codes, List, [], ◌∷◌, ◌++◌, true, false, ◌||◌, ◌≟◌, ≟_refl, ◌∙◌, none, some, Result, ok,
  err, get, has_key, length, ltb, all, ◌≡◌, refl, arith,
}
use weightkeep.Ids.{is_sha256, is_hex}
use weightkeep.Store.{Disk}
use weightkeep.Store.Blobs.{list_blobs, nothing_fails}
use weightkeep.Keep.Collect.{
  GcOptions, is_protected, gc, collect, collect_listed, with_default, clean_up,
}
use weightkeep.Keep.Spared.{Same}
use weightkeep.Keep.Sweeping.{unprotected}
use weightkeep.Keep.Swept.{gc-Same, gc-sweeps}
use weightkeep.Hub.Errors.{HubError, answered, gated, is_kind, retryable}
use weightkeep.Keep.Upstream.{
  mirror, fallback_ok, repo_info, first_mirror, is_err, repo_info-mirror,
}
use weightkeep.Tests.Data.{old_sum, old_file, disk_of}

abbrev disk : Disk
disk = disk_of (codes "he")

abbrev hour : GcOptions
hour = record { grace = 3600; partial_age = 0; dry_run = false }

-- The blob on the disk is from time 100.
gc-Same_example :
    Same old_sum disk
      (gc none (λ k. k ≟ old_sum) (λ k. nothing_fails) (λ e. false) hour 9000 disk).2
gc-Same_example =
    gc-Same none (λ k. k ≟ old_sum) (λ k. nothing_fails) (λ e. false) hour 9000 disk old_sum
      (unfold has_key get in (refl, tt)) (λ f e. unfold ◌≟◌ in refl)

unprotected_test :
    unprotected (λ k. false) hour 9000 (list_blobs disk.blobs)
    ≡ record { sha256 = old_sum; size = 3; mtime = 100 } ∷ []
unfolding list_blobs is_protected is_sha256 is_hex
unprotected_test = refl

-- At time 1000 the blob is too young to go.
young_left :
    get old_sum (gc none (λ k. false) (λ k. nothing_fails) (λ e. false) hour 1000 disk).2.blobs
    ≡ some old_file
young_left =
    (gc-Same none (λ k. false) (λ k. nothing_fails) (λ e. false) hour 1000 disk old_sum
      (unfold has_key get in (refl, tt)) (λ f e. unfold get in ground (arith, ≟_refl old_sum))).0
    ∙ unfold get ◌≟◌ in refl

young_ends : (gc none (λ k. false) (λ k. nothing_fails) (λ e. false) hour 1000 disk).0 ≡ none
unfolding gc collect_listed with_default clean_up collect list_blobs is_sha256 is_hex is_protected
young_ends = refl

gc-sweeps_example : (false || ltb 1000 (100 + 3600)) ≡ true
gc-sweeps_example =
    gc-sweeps none (λ k. false) (λ k. nothing_fails) (λ e. false) hour 1000 disk old_sum old_file
      young_ends refl (unfold is_sha256 is_hex in refl) young_left

abbrev closed : HubError
closed =
    answered (record { status = 403; code = codes "GatedRepo"; message = []; kind = some gated })

abbrev answer : Result HubError ℕ
answer = ok 7

abbrev refused : Result HubError ℕ
refused = err HubError.transport

mirror_test : repo_info refused (err closed ∷ answer ∷ []) ≡ ok (7, mirror 1)
unfolding repo_info fallback_ok is_kind retryable first_mirror
mirror_test = refl

repo_info-mirror_example :
    ((e : HubError) × (refused ≡ err e) × (fallback_ok e ≡ true))
    × ((before : List (Result HubError ℕ)) × (after : List (Result HubError ℕ)) × (err closed
            ∷ answer
            ∷ []
          ≡ before ++ answer ∷ after)
        × (all is_err before ≡ true)
        × (1 ≡ length before))
repo_info-mirror_example = repo_info-mirror refused (err closed ∷ answer ∷ []) 7 1 mirror_test
