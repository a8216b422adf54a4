-- ===== src/Keep/Sweeping.antt =====
-- The loop of `GC` where the system refuses no removal.
use weightkeep.Prelude.{
  ℕ, ◌+◌, Text, List, [], ◌∷◌, Bool, true, false, ◌||◌, ≟_refl, if◌then◌else◌, if_cases, none, some,
  Result, ok, err, get, get-remove, All, ◌≡◌, ◌≢◌, refl, arith, ◌⊎◌, inl, inr, ◌∙◌, sym, ◌++◌,
  append-nil, append_assoc,
}
use weightkeep.Ids.{is_sha256}
use weightkeep.Store.{File, Disk, StoreError}
use weightkeep.Store.Blobs.{
  BlobInfo, RemoveFault, nothing_fails, file_stays, row_stays, remove_both, remove_blob,
}
use weightkeep.Keep.Collect.{GcOptions, GcResult, is_protected, add_blob, collect}
use weightkeep.Keep.Spared.{Collected, collect-fewer}

-- The blob was to stay, or its file is gone.
abbrev pub IsSwept : (Text → Bool) → GcOptions → ℕ → Disk → BlobInfo → Type 0
IsSwept referenced opt now d b =
    ((referenced b.sha256 || is_protected opt now b) ≡ true)
    ⊎ ((f : File) → get b.sha256 d.blobs ≢ some f)

remove_blob-gone :
    (fault : RemoveFault) (sum : Text) (d : Disk)
    → is_sha256 sum ≡ true
    → (remove_blob fault sum d).0 ≡ ok tt
    → get sum (remove_blob fault sum d).1.blobs ≡ none
unfolding remove_blob remove_both
remove_blob-gone nothing_fails sum d sha done =
    ground (arith, get-remove sum sum d.blobs, ≟_refl sum)
remove_blob-gone file_stays sum d sha done = ground arith
remove_blob-gone row_stays sum d sha done = ground arith

remove_blob-ok :
    (fault : RemoveFault) (sum : Text) (d : Disk)
    → fault ≡ nothing_fails
    → is_sha256 sum ≡ true
    → (remove_blob fault sum d).0 ≡ ok tt
unfolding remove_blob remove_both
remove_blob-ok nothing_fails sum d fine sha = ground arith
remove_blob-ok file_stays sum d fine sha = absurd (cc)
remove_blob-ok row_stays sum d fine sha = absurd (cc)

-- What holds of the rest holds after a removal that went well.
after_success {κ} :
    (P : Collected → Type κ) (d : Disk) (res : GcResult) (rest : Collected)
    (o : Result StoreError (Unit {0}))
    → o ≡ ok tt
    → P rest
    → P (elim o [ ok _ ↦ rest | err e ↦ (some e, res, d) ])
after_success P d res rest (ok _) e p = p
after_success P d res rest (err x) e p = cc

-- The same of a run that ends without an error, in which every removal went well.
after_good {κ} :
    (P : Disk → Type κ) (d : Disk) (res : GcResult) (rest : Collected)
    (o : Result StoreError (Unit {0}))
    → (o ≡ ok tt → rest.0 ≡ none → P rest.2)
    → let r : Collected = elim o [ ok _ ↦ rest | err e ↦ (some e, res, d) ] in r.0 ≡ none → P r.2
after_good P d res rest (ok tt) holds = holds refl
after_good P d res rest (err e) holds = λ fine. absurd (cc)

module _ (referenced : Text → Bool) (faults : Text → RemoveFault) (opt : GcOptions) (now : ℕ) where
  pub collect-IsSwept :
      (bs : List BlobInfo) (res : GcResult) (d : Disk)
      → opt.dry_run ≡ false
      → All (λ b. is_sha256 b.sha256 ≡ true) bs
      → let r = collect referenced faults opt now bs res d in
        r.0 ≡ none → All (IsSwept referenced opt now r.2) bs
  unfolding collect
  collect-IsSwept [] res d wet names = λ fine. tt
  collect-IsSwept (b ∷ bs) res d wet (sha, names) =
      let P = λ (r : Collected). r.0 ≡ none → All (IsSwept referenced opt now r.2) (b ∷ bs) in
      let (o, d') = remove_blob (faults b.sha256) b.sha256 d in
      if_cases P (referenced b.sha256) _ _
        (λ used fine. (inl (rw used refl), collect-IsSwept bs res d wet names fine))
        (λ free.
          if_cases P (is_protected opt now b) _ _
            (λ young fine. (inl (rw (free, young) refl), collect-IsSwept bs _ d wet names fine))
            (λ old.
              if_cases P opt.dry_run _ _ (λ dry. absurd (ground arith))
                (λ _.
                  after_good (λ x. All (IsSwept referenced opt now x) (b ∷ bs)) d' _
                    (collect referenced faults opt now bs (add_blob b res) d') o
                    (λ removed fine. (
                      inr (λ f q.
                          let back =
                            collect-fewer referenced faults opt now b.sha256 f bs (add_blob b res)
                              d' q in
                          cc (back, remove_blob-gone (faults b.sha256) b.sha256 d sha removed)),
                      collect-IsSwept bs (add_blob b res) d' wet names fine,
                    )))))

-- The blobs that nothing protects, in the order of the listing.
abbrev pub unprotected : (Text → Bool) → GcOptions → ℕ → List BlobInfo → List BlobInfo
unprotected referenced opt now [] = []
unprotected referenced opt now (b ∷ bs) =
    let rest = unprotected referenced opt now bs in
    if referenced b.sha256 || is_protected opt now b then rest else b ∷ rest

module _ (referenced : Text → Bool) (faults : Text → RemoveFault) (opt : GcOptions) (now : ℕ) where
  -- The loop reports the unprotected blobs, whether it deletes them or not.
  pub collect-unprotected :
      (bs : List BlobInfo) (res : GcResult) (d : Disk)
      → ((s : Text) → faults s ≡ nothing_fails)
      → All (λ b. is_sha256 b.sha256 ≡ true) bs
      → let r = collect referenced faults opt now bs res d in
        (r.0 ≡ none) × (r.1.blobs ≡ res.blobs ++ unprotected referenced opt now bs)
  unfolding collect add_blob
  collect-unprotected [] res d fine names = (refl, sym (append-nil {0} res.blobs))
  collect-unprotected (b ∷ bs) res d fine (sha, names) =
      let P = λ (r : Collected).
        (r.0 ≡ none) × (r.1.blobs ≡ res.blobs ++ unprotected referenced opt now (b ∷ bs)) in
      let (o, d') = remove_blob (faults b.sha256) b.sha256 d in
      if_cases P (referenced b.sha256) _ _
        (λ used. rw used (collect-unprotected bs res d fine names))
        (λ free.
          if_cases P (is_protected opt now b) _ _
            (λ young.
              rw (free, young)
                (collect-unprotected bs (record res { protected = res.protected + 1 }) d fine
                  names))
            (λ old.
              let found : (x : Disk) → P (collect referenced faults opt now bs (add_blob b res) x) =
                λ x.
                  let (well, listed) = collect-unprotected bs (add_blob b res) x fine names in
                  (well, rw (free, old) (listed ∙ append_assoc {0} res.blobs (b ∷ []) _)) in
              if_cases P opt.dry_run _ _ (λ _. found d)
                (λ _.
                  after_success P d' _ _ o
                    (remove_blob-ok (faults b.sha256) b.sha256 d (fine b.sha256) sha) (found d'))))
