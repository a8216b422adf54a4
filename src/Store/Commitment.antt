-- ===== src/Store/Commitment.antt =====
-- `Commit` as a whole: soundness on every path, and what success means.
use weightkeep.Prelude.{
  ℕ, true, false, ◌&&◌, ltb, ≟_refl, Option, none, some, Result, ok, err, get, get-remove, ◌≡◌,
  refl, arith, Bool-cases, inl, inr, has_key, if_cases,
}
use weightkeep.Store.{Hashes, Blob, Disk, StoreError, has}
use weightkeep.Store.Partials.{Partial, unlock, abort}
use weightkeep.Store.Commits.{
  CommitFault, sync_failed, close_failed, chmod_failed, mkdir_failed, rename_failed, removal_failed,
  record_failed, rename_and_record_failed, removal_and_record_failed, blob_of, is_expected, moved,
  move_into_place, settle, after_move, install, after_hashing, check_and_install, commit,
}
use weightkeep.Store.Sound.{IsSound, InStep, IsSound-same, record_blob-IsSound}
use weightkeep.Store.Guarantee.{Describes, IsInPlace, blob_of-Describes, move_IsInPlace}

-- The partial's file is gone, unless neither its rename nor its removal was done.
abbrev pub IsCleared : CommitFault → Partial → Disk → Type 0
IsCleared removal_failed p d = Unit
IsCleared removal_and_record_failed p d = Unit
IsCleared _ p d = get p.key d.parts ≡ none

move_clears :
    (fault : CommitFault) (now : ℕ) (p : Partial) (b : Blob) (d d' : Disk)
    → move_into_place fault now p b d ≡ some d'
    → IsCleared fault p d'
unfolding move_into_place moved
move_clears removal_failed now p b d d' e = tt
move_clears removal_and_record_failed now p b d d' e = tt
move_clears rename_and_record_failed now p b d d' e =
    ground (arith, get-remove p.key p.key d.parts, ≟_refl p.key)
move_clears rename_failed now p b d d' e =
    ground (arith, get-remove p.key p.key d.parts, ≟_refl p.key)
move_clears fault now p b d d' e = ground (arith, get-remove p.key p.key d.parts, ≟_refl p.key)

module _ (h : Hashes) where
  -- What `Commit` has done where it returns a blob, and nothing where it returns an error.
  abbrev pub Done : CommitFault → Partial → Result StoreError Blob × Partial × Disk → Type 0
  Done fault p (ok b, p', d') =
      Describes h p.sha256_fed b
      × IsInPlace h fault p.sha256_fed b d'
      × IsCleared fault p d'
      × (p'.done ≡ true)
      × (is_expected p.exp b ≡ true)
  Done fault p (err e, p', d') = Unit

  settle-Done :
      (fault : CommitFault) (now : ℕ) (p : Partial) (b : Blob) (d : Disk)
      → Describes h p.sha256_fed b
      → IsSound h d
      → IsInPlace h fault p.sha256_fed b d
      → IsCleared fault p d
      → is_expected p.exp b ≡ true
      → IsSound h (settle fault now p b d).2 × Done fault p (settle fault now p b d)
  unfolding settle
  settle-Done record_failed now p b d desc sound place cleared fine =
      (IsSound-same refl refl sound, tt)
  settle-Done rename_and_record_failed now p b d desc sound place cleared fine =
      (IsSound-same refl refl sound, tt)
  settle-Done removal_and_record_failed now p b d desc sound place cleared fine =
      (IsSound-same refl refl sound, tt)
  settle-Done fault now p b d desc sound place cleared fine = (
    record_blob-IsSound now p.sha256_fed b desc.0 desc.1 desc.2
        (unfold unlock in IsSound-same refl refl sound),
    (desc, unfold has has_key in place, cleared, refl, fine),
  )

  finish-Done :
      (fault : CommitFault) (now : ℕ) (p : Partial) (b : Blob) (d : Disk) (o : Option Disk)
      → move_into_place fault now p b d ≡ o
      → InStep p d
      → IsSound h d
      → Describes h p.sha256_fed b
      → is_expected p.exp b ≡ true
      → IsSound h (after_move fault now p b d o).2 × Done fault p (after_move fault now p b d o)
  unfolding after_move
  finish-Done fault now p b d none e s sound desc fine = (sound, tt)
  finish-Done fault now p b d (some d') e s sound desc fine =
      let (sound', place) = move_IsInPlace h fault now p b d d' s desc sound e in
      settle-Done fault now p b d' desc sound' place (move_clears fault now p b d d' e) fine

  install-Done :
      (fault : CommitFault) (now : ℕ) (p : Partial) (b : Blob) (d : Disk)
      → InStep p d
      → IsSound h d
      → Describes h p.sha256_fed b
      → is_expected p.exp b ≡ true
      → IsSound h (install fault now p b d).2 × Done fault p (install fault now p b d)
  unfolding install
  install-Done sync_failed now p b d s sound desc fine = (sound, tt)
  install-Done close_failed now p b d s sound desc fine = (sound, tt)
  install-Done chmod_failed now p b d s sound desc fine = (sound, tt)
  install-Done mkdir_failed now p b d s sound desc fine = (sound, tt)
  install-Done fault now p b d s sound desc fine =
      finish-Done fault now p b d (move_into_place fault now p b d) refl s sound desc fine

  check-Done :
      (fault : CommitFault) (now : ℕ) (p : Partial) (d : Disk) (b : Blob)
      → InStep p d
      → IsSound h d
      → Describes h p.sha256_fed b
      → IsSound h (check_and_install fault now p d b).2
        × Done fault p (check_and_install fault now p d b)
  unfolding check_and_install abort unlock
  check-Done fault now p d b s sound desc = elim (Bool-cases (is_expected p.exp b)) [
    | inl fine ↦ rw fine (install-Done fault now p b d s sound desc fine)
    | inr wrong ↦ rw wrong (IsSound-same (ground arith) (ground arith) sound, tt)
  ]

  hashed-Done :
      (fault : CommitFault) (now : ℕ) (p : Partial) (d : Disk) (r : Result StoreError Blob)
      → blob_of h fault p d ≡ r
      → (p.exp.has_size && ltb p.n p.exp.size) ≡ false
      → InStep p d
      → IsSound h d
      → IsSound h (after_hashing fault now p d r).2 × Done fault p (after_hashing fault now p d r)
  unfolding after_hashing
  hashed-Done fault now p d (err e) eq full s sound = (sound, tt)
  hashed-Done fault now p d (ok b) eq full s sound =
      check-Done fault now p d b s sound (blob_of-Describes h fault p d b s full eq)

  -- Whatever the operating system refuses, and at whatever step, `Commit` of a partial that is in
  -- step keeps the store sound. Where it returns a blob, the blob tells the hash, the git id and the
  -- size of the bytes written, it is as expected, those bytes are under its hash (or another
  -- writer's with that hash), and the partial is closed; its file is gone unless neither the rename
  -- nor the removal that follows a failed rename was done.
  pub commit-Done :
      (fault : CommitFault) (now : ℕ) (p : Partial) (d : Disk)
      → InStep p d
      → IsSound h d
      → IsSound h (commit h fault now p d).2 × Done fault p (commit h fault now p d)
  unfolding commit
  commit-Done fault now p d s sound =
      let P = λ (r : Result StoreError Blob × Partial × Disk). IsSound h r.2 × Done fault p r in
      if_cases P p.done _ _ (λ _. (sound, tt))
        (λ _.
          if_cases P (p.exp.has_size && ltb p.n p.exp.size) _ _ (λ _. (sound, tt))
            (λ full. hashed-Done fault now p d (blob_of h fault p d) refl full s sound))
