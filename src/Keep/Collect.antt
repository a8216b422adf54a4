-- ===== src/Keep/Collect.antt =====
-- internal/keep/gc.go: `GC`, over the store and the set of hashes that kept revisions need.
use weightkeep.Prelude.{
  ℕ, ◌+◌, ◌*◌, Text, List, [], ◌∷◌, ◌++◌, Bool, ltb, ◌==◌, if◌then◌else◌, Option, none, some, ok,
  err,
}
use weightkeep.Store.{Disk, StoreError}
use weightkeep.Store.Blobs.{BlobInfo, list_blobs, RemoveFault, remove_blob}
use weightkeep.Store.Cleanup.{CleanOptions, TmpEntry, TmpCleanup, clean_tmp}

pub record GcOptions : Type 0 where
  pub grace : ℕ
  pub partial_age : ℕ
  pub dry_run : Bool

pub record GcResult : Type 0 where
  pub blobs : List BlobInfo
  pub blob_bytes : ℕ
  pub protected : ℕ
  pub tmp : TmpCleanup

abbrev pub day : ℕ
day = 24 * 60 * 60

abbrev pub empty_result : GcResult
empty_result = record {
  blobs = [];
  blob_bytes = 0;
  protected = 0;
  tmp = record { locks = 0; partials = 0; bytes = 0 };
}

-- `now.Sub(b.ModTime) < opt.Grace`
unfoldable pub is_protected : GcOptions → ℕ → BlobInfo → Bool
is_protected opt now b = ltb now (b.mtime + opt.grace)

unfoldable pub add_blob : BlobInfo → GcResult → GcResult
add_blob b res = record res { blobs = res.blobs ++ b ∷ []; blob_bytes = res.blob_bytes + b.size }

-- The loop over the blobs: the error that ended it, if one did. `faults` says what fails in the removal
-- of a blob.
module _ (referenced : Text → Bool) (faults : Text → RemoveFault) (opt : GcOptions) (now : ℕ) where
  unfoldable pub collect : List BlobInfo → GcResult → Disk → Option StoreError × GcResult × Disk
  collect [] res d = (none, res, d)
  collect (b ∷ bs) res d =
      let go_on = collect bs res d in
      let protect = collect bs (record res { protected = res.protected + 1 }) d in
      let only_list = collect bs (add_blob b res) d in
      let (removed, d') = remove_blob (faults b.sha256) b.sha256 d in
      let delete = collect bs (add_blob b res) d' in
      if referenced b.sha256
      then go_on
      else if is_protected opt now b
      then protect
      else if opt.dry_run
      then only_list
      else elim removed [ ok _ ↦ delete | err e ↦ (some e, res, d') ]

-- The default of `PartialAge`.
unfoldable pub with_default : GcOptions → GcOptions
with_default opt = if opt.partial_age == 0 then record opt { partial_age = 7 * day } else opt

-- What `GC` does after the loop; `refused` says which entries of `tmp/` the system refuses to
-- remove.
unfoldable pub clean_up :
    (TmpEntry → Bool)
    → GcOptions
    → ℕ
    → Option StoreError × GcResult × Disk
    → Option StoreError × GcResult × Disk
clean_up refused opt now (some e, res, d) = (some e, res, d)
clean_up refused opt now (none, res, d) =
    let o : CleanOptions = record {
      now = now;
      lock_age = day;
      partial_age = opt.partial_age;
      dry_run = opt.dry_run;
      refused = refused;
    } in
    let (tmp, d') = clean_tmp o d in (none, record res { tmp = tmp }, d')

-- What `GC` does with the blobs that are listed; `unlisted` is the error of `ReferencedBlobs` or of
-- `Blobs`, if one fails, as it does when the context ends.
unfoldable pub collect_listed :
    Option StoreError
    → (Text → Bool)
    → (Text → RemoveFault)
    → GcOptions
    → ℕ
    → Disk
    → Option StoreError × GcResult × Disk
unfolding collect
collect_listed (some e) referenced faults opt now d = (some e, empty_result, d)
collect_listed none referenced faults opt now d =
    collect referenced faults opt now (list_blobs d.blobs) empty_result d

-- `GC`
unfoldable pub gc :
    Option StoreError
    → (Text → Bool)
    → (Text → RemoveFault)
    → (TmpEntry → Bool)
    → GcOptions
    → ℕ
    → Disk
    → Option StoreError × GcResult × Disk
unfolding collect_listed with_default clean_up
gc unlisted referenced faults tmp_refused opt now d =
    let o = with_default opt in
    clean_up tmp_refused o now (collect_listed unlisted referenced faults o now d)
