-- ===== src/Store/Tmp.antt =====
-- What `CleanTmp` leaves alone.
use weightkeep.Prelude.{
  ℕ, Text, Assoc, List, [], ◌∷◌, true, false, not, ◌||◌, ltb, ◌≟◌, ≟_iff, any, if_cases, some, get,
  get-remove, has_key, IsTable, All, All-append, ◌≡◌, refl, arith, ◌∙◌, Bool-cases, inl, inr, ◌+◌,
  ◌⊎◌,
}
use weightkeep.Store.{File, Disk, is_key, is_locked}
use weightkeep.Store.Partials.{lock, unlock, without}
use weightkeep.Store.Cleanup.{
  TmpEntry, TmpCleanup, CleanOptions, lock_entries, part_entries, tmp_entries, is_young, touch_lock,
  clean_entry, clean_entries, clean_tmp,
}

-- `d'` has the blobs, the rows and the quarantine of `d`.
abbrev pub KeepsBlobs : Disk → Disk → Type 0
KeepsBlobs d d' = (d'.blobs ≡ d.blobs) × (d'.rows ≡ d.rows) × (d'.quarantine ≡ d.quarantine)

any-without :
    (k j : Text) (ks : List Text)
    → (j ≟ k) ≡ false
    → any (λ x. x ≟ k) (without j ks) ≡ any (λ x. x ≟ k) ks
unfolding without
any-without k j [] h = refl
any-without k j (x ∷ ks) h = ground (arith, any-without k j ks h, ≟_iff x j, ≟_iff j k, ≟_iff x k)

-- Taking and releasing a lock leaves the other keys' locks as they were.
touch_lock-is_locked :
    (now : ℕ) (k j : Text) (d : Disk)
    → (j ≟ k) ≡ false
    → is_locked k (touch_lock now j d) ≡ is_locked k d
unfolding is_locked touch_lock lock unlock
touch_lock-is_locked now k j d h = any-without k j (j ∷ d.locks) h ∙ rw h refl

clean_entry-KeepsBlobs :
    (o : CleanOptions) (e : TmpEntry) (acc : TmpCleanup × Disk)
    → KeepsBlobs acc.1 (clean_entry o e acc).1
unfolding clean_entry touch_lock lock unlock
clean_entry-KeepsBlobs o e (res, d) = ground arith

clean_entries-KeepsBlobs :
    (o : CleanOptions) (es : List TmpEntry) (acc : TmpCleanup × Disk)
    → KeepsBlobs acc.1 (clean_entries o es acc).1
unfolding clean_entries
clean_entries-KeepsBlobs o [] acc = (refl, refl, refl)
clean_entries-KeepsBlobs o (e ∷ es) acc =
    let (b1, r1, q1) = clean_entry-KeepsBlobs o e acc in
    let (b2, r2, q2) = clean_entries-KeepsBlobs o es (clean_entry o e acc) in
    (b2 ∙ b1, r2 ∙ r1, q2 ∙ q1)

pub clean_tmp-KeepsBlobs : (o : CleanOptions) (d : Disk) → KeepsBlobs d (clean_tmp o d).1
unfolding clean_tmp
clean_tmp-KeepsBlobs o d = clean_entries-KeepsBlobs o (tmp_entries d) _

-- The entry cannot cost the partial under `k` its file.
abbrev Spares : CleanOptions → Text → TmpEntry → Type 0
Spares o k e = e.key ≡ k → e.is_lock ≡ false → is_young o e ≡ true

clean_entry-part :
    (o : CleanOptions) (k : Text) (e : TmpEntry) (res : TmpCleanup) (d : Disk)
    → (is_locked k d ≡ true) ⊎ Spares o k e
    → get k (clean_entry o e (res, d)).1.parts ≡ get k d.parts
unfolding clean_entry touch_lock lock unlock
clean_entry-part o k e res d h = ground (arith, get-remove e.key k d.parts, ≟_iff e.key k)

clean_entry-is_locked :
    (o : CleanOptions) (k : Text) (e : TmpEntry) (res : TmpCleanup) (d : Disk)
    → is_locked k d ≡ true
    → is_locked k (clean_entry o e (res, d)).1 ≡ true
unfolding clean_entry
clean_entry-is_locked o k e res d held =
    let P = λ (r : TmpCleanup × Disk). is_locked k r.1 ≡ true in
    if_cases P (not (is_key e.key) || is_young o e || is_locked e.key d) _ _ (λ _. held)
      (λ free.
        let other : (e.key ≟ k) ≡ false = elim (Bool-cases (e.key ≟ k)) [
          | inl same ↦ absurd (let q = (≟_iff e.key k).0 same in ground arith)
          | inr differs ↦ differs
        ] in
        let still = touch_lock-is_locked o.now k e.key d other ∙ held in
        unfold is_locked in ground (arith, still))

clean_entries-part :
    (o : CleanOptions) (k : Text) (es : List TmpEntry) (acc : TmpCleanup × Disk)
    → (is_locked k acc.1 ≡ true) ⊎ All (Spares o k) es
    → get k (clean_entries o es acc).1.parts ≡ get k acc.1.parts
unfolding clean_entries
clean_entries-part o k [] acc h = refl
clean_entries-part o k (e ∷ es) (res, d) (inl held) =
    clean_entries-part o k es (clean_entry o e (res, d))
      (inl (clean_entry-is_locked o k e res d held))
    ∙ clean_entry-part o k e res d (inl held)
clean_entries-part o k (e ∷ es) (res, d) (inr (spare, spares)) =
    clean_entries-part o k es (clean_entry o e (res, d)) (inr spares)
    ∙ clean_entry-part o k e res d (inr spare)

lock_entries-Spares :
    (o : CleanOptions) (k : Text) (m : Assoc ℕ) → All (Spares o k) (lock_entries m)
unfolding lock_entries
lock_entries-Spares o k [] = tt
lock_entries-Spares o k ((j, t) ∷ m) = (λ e q. ground arith, lock_entries-Spares o k m)

has_key-some : (k : Text) (m : Assoc File) (g : File) → get k m ≡ some g → has_key k m ≡ true
unfolding has_key
has_key-some k m g q = ground arith

-- Every entry of a table stands under its key.
part_entries-Spares :
    (o : CleanOptions) (k : Text) (m : Assoc File)
    → IsTable m
    → ((f : File) → get k m ≡ some f → ltb o.now (f.mtime + o.partial_age) ≡ true)
    → All (Spares o k) (part_entries m)
unfolding part_entries get
part_entries-Spares o k [] t young = tt
part_entries-Spares o k ((j, f) ∷ m) (new, t) young = (
  λ e q. unfold is_young in ground (arith, ≟_iff j k, young f),
  part_entries-Spares o k m t (λ g q. young g (ground (arith, has_key-some k m g, ≟_iff j k))),
)

-- `CleanTmp` leaves a partial's file as it is while some process holds its lock, and while it is
-- younger than the age for partials.
pub clean_tmp-spares :
    (o : CleanOptions) (d : Disk) (k : Text)
    → IsTable d.parts
    → (is_locked k d ≡ true)
      ⊎ ((f : File) → get k d.parts ≡ some f → ltb o.now (f.mtime + o.partial_age) ≡ true)
    → get k (clean_tmp o d).1.parts ≡ get k d.parts
unfolding clean_tmp
clean_tmp-spares o d k t (inl held) = clean_entries-part o k (tmp_entries d) _ (inl held)
clean_tmp-spares o d k t (inr young) = clean_entries-part o k (tmp_entries d) _ (
    inr (
      unfold tmp_entries in
      All-append (Spares o k) (lock_entries d.lock_files) (part_entries d.parts)
        (lock_entries-Spares o k d.lock_files) (part_entries-Spares o k d.parts t young)))
