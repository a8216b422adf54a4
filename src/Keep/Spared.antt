-- ===== src/Keep/Spared.antt =====
-- What `GC` removes and what it leaves.
use mathlib.Core.Path.{subst₂}
use weightkeep.Prelude.{
  ℕ, ◌+◌, Text, Assoc, List, [], ◌∷◌, Bool, true, false, not, ◌||◌, ◌≟◌, ≟_iff, if◌then◌else◌,
  if_cases, Option, some, Result, ok, err, get, get-remove, length, All, ◌≡◌, refl, arith, ◌∙◌,
  Bool-cases, inl, inr,
}
use weightkeep.Ids.{is_sha256}
use weightkeep.Store.{File, Disk, StoreError}
use weightkeep.Store.Blobs.{
  BlobInfo, list_blobs, RemoveFault, nothing_fails, file_stays, row_stays, remove_both, remove_blob,
}
use weightkeep.Keep.Collect.{GcOptions, GcResult, is_protected, add_blob, collect}

-- The file and the row under `k`.
abbrev pub Same : Text → Disk → Disk → Type 0
Same k d d' = (get k d'.blobs ≡ get k d.blobs) × (get k d'.rows ≡ get k d.rows)

remove_both-Same :
    (fault : RemoveFault) (sum k : Text) (d : Disk)
    → (sum ≟ k) ≡ false
    → Same k d (remove_both fault sum d).1
unfolding remove_both
remove_both-Same nothing_fails sum k d h =
    (rw (get-remove sum k d.blobs, h) refl, rw (get-remove sum k d.rows, h) refl)
remove_both-Same file_stays sum k d h = (refl, refl)
remove_both-Same row_stays sum k d h = (rw (get-remove sum k d.blobs, h) refl, refl)

remove_blob-Same :
    (fault : RemoveFault) (sum k : Text) (d : Disk)
    → (sum ≟ k) ≡ false
    → Same k d (remove_blob fault sum d).1
unfolding remove_blob
remove_blob-Same fault sum k d h =
    if_cases (λ (r : Result StoreError (Unit {0}) × Disk). Same k d r.1) (not (is_sha256 sum)) _ _
      (λ _. (refl, refl)) (λ _. remove_both-Same fault sum k d h)

abbrev pub Collected : Type 0
Collected = Option StoreError × GcResult × Disk

-- A property of the disk holds after a removal and what follows it, error or not.
pub after_removal :
    (P : Disk → Type 0) (d : Disk) (res : GcResult) (rest : Collected)
    (o : Result StoreError (Unit {0}))
    → P d
    → P rest.2
    → let r : Collected = elim o [ ok _ ↦ rest | err e ↦ (some e, res, d) ] in P r.2
after_removal P d res rest (ok _) stopped went_on = went_on
after_removal P d res rest (err e) stopped went_on = stopped

remove_blob-fewer :
    (fault : RemoveFault) (sum k : Text) (f : File) (d : Disk)
    → get k (remove_blob fault sum d).1.blobs ≡ some f
    → get k d.blobs ≡ some f
unfolding remove_blob remove_both
remove_blob-fewer nothing_fails sum k f d q = ground (arith, get-remove sum k d.blobs)
remove_blob-fewer file_stays sum k f d q = ground (arith, get-remove sum k d.blobs)
remove_blob-fewer row_stays sum k f d q = ground (arith, get-remove sum k d.blobs)

-- The listed blob is not the file under `k`, or it stays.
abbrev pub Stays : (Text → Bool) → GcOptions → ℕ → Text → BlobInfo → Type 0
Stays referenced opt now k b = b.sha256 ≡ k → (referenced k || is_protected opt now b) ≡ true

module _ (referenced : Text → Bool) (faults : Text → RemoveFault) (opt : GcOptions) (now : ℕ) where
  pub collect-Same :
      (k : Text) (bs : List BlobInfo) (res : GcResult) (d : Disk)
      → All (Stays referenced opt now k) bs
      → Same k d (collect referenced faults opt now bs res d).2
  unfolding collect
  collect-Same k [] res d h = (refl, refl)
  collect-Same k (b ∷ bs) res d (stays, h) =
      let P = λ (r : Collected). Same k d r.2 in
      if_cases P (referenced b.sha256) _ _ (λ _. collect-Same k bs res d h)
        (λ free.
          if_cases P (is_protected opt now b) _ _ (λ _. collect-Same k bs _ d h)
            (λ old.
              if_cases P opt.dry_run _ _ (λ _. collect-Same k bs _ d h)
                (λ _.
                  let other : (b.sha256 ≟ k) ≡ false = ground (arith, ≟_iff b.sha256 k) in
                  let same = remove_blob-Same (faults b.sha256) b.sha256 k d other in
                  let d' = (remove_blob (faults b.sha256) b.sha256 d).1 in
                  let (fb, fr) = collect-Same k bs (add_blob b res) d' h in
                  after_removal (Same k d) d' _ _ (remove_blob (faults b.sha256) b.sha256 d).0 same
                    (fb ∙ same.0, fr ∙ same.1))))

  pub collect-dry :
      (bs : List BlobInfo) (res : GcResult) (d : Disk)
      → opt.dry_run ≡ true
      → (collect referenced faults opt now bs res d).2 ≡ d
  unfolding collect
  collect-dry [] res d h = refl
  collect-dry (b ∷ bs) res d h = ground (
    arith,
    collect-dry bs res d,
    collect-dry bs (record res { protected = res.protected + 1 }) d,
    collect-dry bs (add_blob b res) d,
  )

  pub collect-fewer :
      (k : Text) (f : File) (bs : List BlobInfo) (res : GcResult) (d : Disk)
      → get k (collect referenced faults opt now bs res d).2.blobs ≡ some f
      → get k d.blobs ≡ some f
  unfolding collect
  collect-fewer k f [] res d = λ q. q
  collect-fewer k f (b ∷ bs) res d =
      let P = λ (r : Collected). get k r.2.blobs ≡ some f → get k d.blobs ≡ some f in
      let (o, d') = remove_blob (faults b.sha256) b.sha256 d in
      if_cases P (referenced b.sha256) _ _ (λ _. collect-fewer k f bs res d)
        (λ _.
          if_cases P (is_protected opt now b) _ _ (λ _. collect-fewer k f bs _ d)
            (λ _.
              if_cases P opt.dry_run _ _ (λ _. collect-fewer k f bs _ d)
                (λ _.
                  let back = remove_blob-fewer (faults b.sha256) b.sha256 k f d in
                  after_removal (λ x. get k x.blobs ≡ some f → get k d.blobs ≡ some f) d' _ _ o back
                    (λ q. back (collect-fewer k f bs (add_blob b res) d' q)))))

pub list_blobs-names :
    (fs : Assoc File) → All (λ (b : BlobInfo). is_sha256 b.sha256 ≡ true) (list_blobs fs)
unfolding list_blobs
list_blobs-names [] = tt
list_blobs-names ((k, f) ∷ fs) =
    if_cases (λ bs. All (λ (b : BlobInfo). is_sha256 b.sha256 ≡ true) bs) (is_sha256 k) _ _
      (λ e. (e, list_blobs-names fs)) (λ _. list_blobs-names fs)

All-if_head {ℓ κ} :
    {A : Type ℓ} (P : A → Type κ) (b : Bool) (x : A) (xs : List A)
    → b ≡ true
    → All P (if b then x ∷ xs else xs)
    → P x
All-if_head P true x xs e h = h.0
All-if_head P false x xs e h = cc

All-if_tail {ℓ κ} :
    {A : Type ℓ} (P : A → Type κ) (b : Bool) (x : A) (xs : List A)
    → All P (if b then x ∷ xs else xs)
    → All P xs
All-if_tail P true x xs h = h.1
All-if_tail P false x xs h = h

-- What is so of every listed blob is so of the file under a hash.
pub list_blobs-get {κ} :
    (P : BlobInfo → Type κ) (k : Text) (f : File) (fs : Assoc File)
    → is_sha256 k ≡ true
    → get k fs ≡ some f
    → All P (list_blobs fs)
    → P (record { sha256 = k; size = length f.content; mtime = f.mtime })
unfolding list_blobs get
list_blobs-get P k f [] sha q h = cc
list_blobs-get P k f ((j, g) ∷ fs) sha q h = elim (Bool-cases (j ≟ k)) [
  | inl same ↦
      let jk : j ≡ k = (≟_iff j k).0 same in
      let gf : g ≡ f = ground arith in
      subst₂ (λ n x. P (record { sha256 = n; size = length x.content; mtime = x.mtime })) jk gf
        (All-if_head P (is_sha256 j) _ (list_blobs fs) (rw jk sha) h)
  | inr differs ↦
      list_blobs-get P k f fs sha (ground arith) (All-if_tail P (is_sha256 j) _ (list_blobs fs) h)
]
