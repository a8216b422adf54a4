-- ===== src/Tests/Manifest.antt =====
-- An index with one revision, and one more that is saved.
use weightkeep.Prelude.{
  ◌++◌, Text, codes, ◌≟◌, List, [], ◌∷◌, false, ok, replicate, sort_by, get, All, ◌≡◌, refl,
  has_key, none, ◌⊎◌,
}
use weightkeep.Ids.{
  is_alnum, is_commit, is_hex, is_sha256, contains_dotdot, segment_re, validate_repo_id,
  validate_path,
}
use weightkeep.Manifest.Record.{
  Manifest, validate, is_repo_type, check_manifest_files, check_manifest_file,
}
use weightkeep.Manifest.Index.{
  Index, RefRow, key_of, canonical, save, load, same_key, referenced_blobs, sorted_files, no_fault,
  DeleteFault,
}
use weightkeep.Manifest.Refs.{resolve_ref, set_refs, IsOf, set_refs-resolve_ref}
use weightkeep.Manifest.Kept.{save-load}
use weightkeep.Keep.Retention.{Change, saved, deleted, apply_all, save-gc}
use weightkeep.Store.{Disk}
use weightkeep.Store.Blobs.{nothing_fails}
use weightkeep.Keep.Collect.{gc, GcOptions}
use weightkeep.Keep.Spared.{Same}
use weightkeep.Tests.Codec.{codec}
use weightkeep.Tests.Data.{disk_of}
use weightkeep.Tests.Proxy.{one_file}

abbrev disk : Disk
disk = disk_of (codes "he")

abbrev hour : GcOptions
hour = record { grace = 3600; partial_age = 0; dry_run = false }

abbrev empty : Index
empty = record { documents = []; revisions = []; files = []; refs = [] }

abbrev sum_of : Text → Text
sum_of s = replicate 64 b'e'

abbrev after : Index
after = (save codec sum_of no_fault one_file 500 empty).0

saved_now : save codec sum_of no_fault one_file 500 empty ≡ (after, ok tt)
unfolding save canonical validate is_repo_type ◌≟◌ validate_repo_id segment_re is_alnum
    contains_dotdot is_commit is_hex check_manifest_files sort_by check_manifest_file validate_path
    is_sha256
saved_now = refl

save-load_example : load codec sum_of (key_of one_file) after ≡ ok (sorted_files one_file, 500)
save-load_example =
    save-load codec sum_of one_file 500 empty after
      (
        (refl, (refl, (refl, (refl, (refl, (refl, (refl, tt))))))),
        (refl, tt),
        (refl, tt),
        ((refl, refl, refl), tt),
      )
      saved_now

-- Another commit is saved and deleted; then the collection is run on a disk with an unreferenced blob.
abbrev other : Manifest
other = record one_file { commit = replicate 40 b'd' }

abbrev changes : List Change
changes = saved no_fault other 600 ∷ deleted DeleteFault.none_fails (key_of other) ∷ []

save-gc_example :
    All
      (λ f.
        Same f.sha256 disk
          (gc none
            (referenced_blobs (apply_all codec sum_of changes after))
            (λ k. nothing_fails)
            (λ e. false)
            hour
            9000
            disk).2)
      one_file.files
save-gc_example =
    save-gc codec sum_of one_file 500 empty after changes none (λ k. nothing_fails) (λ e. false)
      hour 9000 disk saved_now (unfold same_key ◌≟◌ in (refl, (refl, tt)))
      (unfold has_key get in (refl, tt))

abbrev main : RefRow
main = record {
  repo_type = codes "model";
  repo_id = codes "o/m";
  name = codes "main";
  commit = replicate 40 b'a';
  resolved_at = 500;
}

-- The branch moves on, and a branch of the same name of a space is set between.
abbrev moves : List RefRow
moves =
    main
    ∷ record main { repo_type = codes "space"; commit = replicate 40 b'c' }
    ∷ record main { commit = replicate 40 b'd'; resolved_at = 700 }
    ∷ []

set_refs-resolve_ref_example :
    ((before : List RefRow) × (r : RefRow) × (later : List RefRow) × (moves ≡ before ++ r ∷ later)
      × IsOf (codes "model") (codes "o/m") (codes "main") r
      × All (λ q. ¬ IsOf (codes "model") (codes "o/m") (codes "main") q) later
      × (resolve_ref (codes "model") (codes "o/m") (codes "main") (set_refs moves after)
          ≡ ok (r.commit, r.resolved_at)))
    ⊎ (All (λ q. ¬ IsOf (codes "model") (codes "o/m") (codes "main") q) moves
        × (resolve_ref (codes "model") (codes "o/m") (codes "main") (set_refs moves after)
            ≡ resolve_ref (codes "model") (codes "o/m") (codes "main") after))
set_refs-resolve_ref_example =
    set_refs-resolve_ref moves after (codes "model") (codes "o/m") (codes "main")
