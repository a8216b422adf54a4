-- ===== src/Keep/Swept.antt =====
-- `GC` as a whole.
use mathlib.Core.Path.{subst}
use weightkeep.Prelude.{
  ℕ, ◌+◌, Text, Assoc, List, [], ◌∷◌, Bool, true, false, ◌||◌, ltb, ≟_iff, if_cases, Option, none,
  some, get, has_key, IsTable, All, ◌≡◌, refl, arith, ◌∙◌, sym, ap, inl, inr,
}
use weightkeep.Ids.{is_sha256}
use weightkeep.Store.{File, Disk, StoreError}
use weightkeep.Store.Blobs.{BlobInfo, RemoveFault, nothing_fails, list_blobs}
use weightkeep.Store.Cleanup.{TmpEntry}
use weightkeep.Store.Tmp.{KeepsBlobs, clean_tmp-KeepsBlobs}
use weightkeep.Keep.Collect.{
  GcOptions, empty_result, is_protected, with_default, collect, collect_listed, clean_up, gc,
}
use weightkeep.Keep.Sweeping.{IsSwept, unprotected, collect-IsSwept, collect-unprotected}
use weightkeep.Keep.Spared.{
  Same, Collected, Stays, collect-Same, collect-dry, collect-fewer, list_blobs-names,
  list_blobs-get,
}

clean_up-KeepsBlobs :
    (refused : TmpEntry → Bool) (opt : GcOptions) (now : ℕ) (r : Collected)
    → KeepsBlobs r.2 (clean_up refused opt now r).2
unfolding clean_up
clean_up-KeepsBlobs refused opt now (some e, res, d) = (refl, refl, refl)
clean_up-KeepsBlobs refused opt now (none, res, d) = clean_tmp-KeepsBlobs _ d

with_default-same :
    (opt : GcOptions)
    → ((with_default opt).grace ≡ opt.grace) × ((with_default opt).dry_run ≡ opt.dry_run)
unfolding with_default
with_default-same opt = ground arith

list_blobs-Stays :
    (referenced : Text → Bool) (opt : GcOptions) (now : ℕ) (k : Text) (fs : Assoc File)
    → IsTable fs
    → ((f : File) → get k fs ≡ some f → (referenced k || ltb now (f.mtime + opt.grace)) ≡ true)
    → All (Stays referenced opt now k) (list_blobs fs)
unfolding list_blobs get has_key
list_blobs-Stays referenced opt now k [] t h = tt
list_blobs-Stays referenced opt now k ((j, f) ∷ fs) (new, t) h =
    let rest =
      list_blobs-Stays referenced opt now k fs t (λ g q. h g (ground (arith, ≟_iff j k))) in
    if_cases (λ bs. All (Stays referenced opt now k) bs) (is_sha256 j) _ _
      (λ _. (λ e. unfold is_protected in ground (arith, ≟_iff j k, h f), rest)) (λ _. rest)

collect_listed-Same :
    (unlisted : Option StoreError) (referenced : Text → Bool) (faults : Text → RemoveFault)
    (opt : GcOptions) (now : ℕ) (d : Disk) (k : Text)
    → All (Stays referenced opt now k) (list_blobs d.blobs)
    → Same k d (collect_listed unlisted referenced faults opt now d).2
unfolding collect_listed
collect_listed-Same (some e) referenced faults opt now d k h = (refl, refl)
collect_listed-Same none referenced faults opt now d k h =
    collect-Same referenced faults opt now k (list_blobs d.blobs) empty_result d h

collect_listed-dry :
    (unlisted : Option StoreError) (referenced : Text → Bool) (faults : Text → RemoveFault)
    (opt : GcOptions) (now : ℕ) (d : Disk)
    → opt.dry_run ≡ true
    → (collect_listed unlisted referenced faults opt now d).2 ≡ d
unfolding collect_listed
collect_listed-dry (some e) referenced faults opt now d dry = refl
collect_listed-dry none referenced faults opt now d dry =
    collect-dry referenced faults opt now (list_blobs d.blobs) empty_result d dry

-- What is left after the loop was there before it, and was to stay if the loop ended without an error.
collect_listed-left :
    (unlisted : Option StoreError) (referenced : Text → Bool) (faults : Text → RemoveFault)
    (opt : GcOptions) (now : ℕ) (d : Disk) (k : Text) (f : File)
    → opt.dry_run ≡ false
    → is_sha256 k ≡ true
    → let r = collect_listed unlisted referenced faults opt now d in
      r.0 ≡ none → get k r.2.blobs ≡ some f → (referenced k || ltb now (f.mtime + opt.grace)) ≡ true
unfolding collect_listed
collect_listed-left (some e) referenced faults opt now d k f wet sha fine here = absurd (cc)
collect_listed-left none referenced faults opt now d k f wet sha fine here =
    let bs = list_blobs d.blobs in
    let run = collect referenced faults opt now bs empty_result d in
    let swept =
      collect-IsSwept referenced faults opt now bs empty_result d wet (list_blobs-names d.blobs)
        fine in
    let there = collect-fewer referenced faults opt now k f bs empty_result d here in
    elim (list_blobs-get (IsSwept referenced opt now run.2) k f d.blobs sha there swept) [
      | inl stays ↦ unfold is_protected in stays
      | inr gone ↦ absurd (gone f here)
    ]

-- `GC` leaves the file and the row of every blob that a kept revision references and of every blob
-- younger than the grace period, whatever else it removes and wherever it fails.
pub gc-Same :
    (unlisted : Option StoreError) (referenced : Text → Bool) (faults : Text → RemoveFault)
    (tmp_refused : TmpEntry → Bool) (opt : GcOptions) (now : ℕ) (d : Disk) (k : Text)
    → IsTable d.blobs
    → ((f : File) → get k d.blobs ≡ some f → (referenced k || ltb now (f.mtime + opt.grace)) ≡ true)
    → Same k d (gc unlisted referenced faults tmp_refused opt now d).2
unfolding gc
gc-Same unlisted referenced faults tmp_refused opt now d k t h =
    let o = with_default opt in
    let run = collect_listed unlisted referenced faults o now d in
    let (fb, fr) = collect_listed-Same unlisted referenced faults o now d k (
      list_blobs-Stays referenced o now k d.blobs t
        (λ f q. rw ((with_default-same opt).0) (h f q))) in
    let (cb, cr, _) = clean_up-KeepsBlobs tmp_refused o now run in
    (ap (get k) cb ∙ fb, ap (get k) cr ∙ fr)

-- A dry run changes no blob, no row and nothing in quarantine.
gc-dry :
    (unlisted : Option StoreError) (referenced : Text → Bool) (faults : Text → RemoveFault)
    (tmp_refused : TmpEntry → Bool) (opt : GcOptions) (now : ℕ) (d : Disk)
    → opt.dry_run ≡ true
    → KeepsBlobs d (gc unlisted referenced faults tmp_refused opt now d).2
unfolding gc
gc-dry unlisted referenced faults tmp_refused opt now d dry =
    let o = with_default opt in
    let run = collect_listed unlisted referenced faults o now d in
    let same : run.2 ≡ d =
      collect_listed-dry unlisted referenced faults o now d ((with_default-same opt).1 ∙ dry) in
    subst (λ x. KeepsBlobs x (clean_up tmp_refused o now run).2) same
      (clean_up-KeepsBlobs tmp_refused o now run)

clean_up-reports :
    (refused : TmpEntry → Bool) (opt : GcOptions) (now : ℕ) (r : Collected)
    → ((clean_up refused opt now r).0 ≡ r.0) × ((clean_up refused opt now r).1.blobs ≡ r.1.blobs)
unfolding clean_up
clean_up-reports refused opt now (some e, res, d) = (refl, refl)
clean_up-reports refused opt now (none, res, d) = (refl, refl)

with_default-unprotected :
    (referenced : Text → Bool) (opt : GcOptions) (now : ℕ) (bs : List BlobInfo)
    → unprotected referenced (with_default opt) now bs ≡ unprotected referenced opt now bs
unfolding is_protected
with_default-unprotected referenced opt now [] = refl
with_default-unprotected referenced opt now (b ∷ bs) =
    rw ((with_default-same opt).0, with_default-unprotected referenced opt now bs) refl

-- Where nothing fails, `GC` succeeds and reports exactly the blobs that no kept
-- revision references and that are past the grace period, in the order of the listing; a dry run
-- reports the same.
gc-reports :
    (referenced : Text → Bool) (faults : Text → RemoveFault) (tmp_refused : TmpEntry → Bool)
    (opt : GcOptions) (now : ℕ) (d : Disk)
    → ((s : Text) → faults s ≡ nothing_fails)
    → let r = gc none referenced faults tmp_refused opt now d in
      (r.0 ≡ none) × (r.1.blobs ≡ unprotected referenced opt now (list_blobs d.blobs))
unfolding gc collect_listed
gc-reports referenced faults tmp_refused opt now d fine =
    let o = with_default opt in
    let bs = list_blobs d.blobs in
    let run = collect referenced faults o now bs empty_result d in
    let (well, listed) =
      collect-unprotected referenced faults o now bs empty_result d fine
        (list_blobs-names d.blobs) in
    let (same, kept) = clean_up-reports tmp_refused o now run in
    (same ∙ well, kept ∙ (listed ∙ with_default-unprotected referenced opt now bs))

-- A run that ends without an error and is not dry leaves under the name of a hash only what a kept
-- revision references or what is younger than the grace period.
pub gc-sweeps :
    (unlisted : Option StoreError) (referenced : Text → Bool) (faults : Text → RemoveFault)
    (tmp_refused : TmpEntry → Bool) (opt : GcOptions) (now : ℕ) (d : Disk) (k : Text) (f : File)
    → (gc unlisted referenced faults tmp_refused opt now d).0 ≡ none
    → opt.dry_run ≡ false
    → is_sha256 k ≡ true
    → get k (gc unlisted referenced faults tmp_refused opt now d).2.blobs ≡ some f
    → (referenced k || ltb now (f.mtime + opt.grace)) ≡ true
unfolding gc
gc-sweeps unlisted referenced faults tmp_refused opt now d k f fine wet sha left =
    let o = with_default opt in
    let run = collect_listed unlisted referenced faults o now d in
    let (ended, _) = clean_up-reports tmp_refused o now run in
    let (cb, _, _) = clean_up-KeepsBlobs tmp_refused o now run in
    rw (← (with_default-same opt).0) (
      collect_listed-left unlisted referenced faults o now d k f ((with_default-same opt).1 ∙ wet)
        sha (sym ended ∙ fine) (ap (get k) (sym cb) ∙ left))
