-- ===== src/Store/Putting.antt =====
-- `Put`: reading to the end, then committing.
use mathlib.Core.Path.{subst}
use weightkeep.Prelude.{
  ℕ, zero, suc, Text, [], ◌∷◌, ◌++◌, Bool, true, ◌==◌, Option, none, some, Result, ok, err, get,
  length, take, append_assoc, append-nil, ◌≡◌, refl, ap, sym, ◌∙◌, arith,
}
use weightkeep.Store.{Hashes, Blob, Disk, StoreError, hash_mismatch}
use weightkeep.Store.Partials.{
  Expect, Partial, OpenFault, write, write_part, part_content, open_partial, abort, unlock, lock,
  create_part, truncated, resume, kept_bytes,
}
use weightkeep.Store.Commits.{
  CommitFault, Reader, chunk, end, broken, copy, commit, is_expected, abort_unless_mismatch,
  commit_or_abort, copy_and_commit, put_blob,
}
use weightkeep.Store.Sound.{IsSound, InStep, IsSound-same}
use weightkeep.Store.Progress.{write-InStep, open_partial-IsResumed}
use weightkeep.Store.Guarantee.{Describes, IsInPlace}
use weightkeep.Store.Commitment.{Done, commit-Done}

-- All that a reader yields.
abbrev pub bytes_of : Reader → Text
bytes_of (chunk b accepted rest) = b ++ bytes_of rest
bytes_of end = []
bytes_of (broken e) = []

take_full : (n : ℕ) (s : Text) → (length (take n s) == length s) ≡ true → take n s ≡ s
take_full zero [] h = refl
take_full zero (x ∷ s) h = ground arith
take_full (suc n) [] h = refl
take_full (suc n) (x ∷ s) h = ap (λ t. x ∷ t) (take_full n s (ground arith))

-- A write without an error has taken all the bytes.
write-none :
    (now accepted : ℕ) (b : Text) (p : Partial) (d : Disk)
    → (write now accepted b p d).0.1 ≡ none
    → (write now accepted b p d).1.sha256_fed ≡ p.sha256_fed ++ b
unfolding write
write-none now accepted b p d h = ground (arith, take_full accepted b)

-- A write touches no blob, no row, and only its own partial.
pub write-same :
    (now accepted : ℕ) (b : Text) (p : Partial) (d : Disk)
    → let (_, p', d') = write now accepted b p d in
      (d'.blobs ≡ d.blobs) × (d'.rows ≡ d.rows) × (p'.exp ≡ p.exp)
unfolding write write_part
write-same now accepted b p d = ground arith

abbrev Copied : Type 0
Copied = Option StoreError × Partial × Disk

-- The partial holds `s`, unless copying failed.
abbrev Holds : Text → Copied → Type 0
Holds s (none, p, d) = InStep p d × (p.sha256_fed ≡ s)
Holds s (some e, p, d) = Unit

module _ (h : Hashes) (exp : Expect) where
  abbrev IsCopied : Text → Copied → Type 0
  IsCopied s r = IsSound h r.2 × (r.1.exp ≡ exp) × Holds s r

  copy-IsCopied :
      (now : ℕ) (reader : Reader) (p : Partial) (d : Disk)
      → InStep p d
      → IsSound h d
      → p.exp ≡ exp
      → IsCopied (p.sha256_fed ++ bytes_of reader) (copy now reader p d)
  unfolding copy
  copy-IsCopied now end p d s sound e = (sound, e, (s, sym (append-nil {0} p.sha256_fed)))
  copy-IsCopied now (broken x) p d s sound e = (sound, e, tt)
  copy-IsCopied now (chunk b accepted rest) p d s sound e =
      let (r, p', d') = write now accepted b p d in
      let (eb, er, ee) = write-same now accepted b p d in
      go r.1 (λ stop. (IsSound-same eb er sound, ee ∙ e, tt))
        (λ went_on.
          let all : p'.sha256_fed ++ bytes_of rest ≡ p.sha256_fed ++ (b ++ bytes_of rest) =
            ap (λ t. t ++ bytes_of rest) (write-none now accepted b p d went_on)
            ∙ append_assoc {0} p.sha256_fed b (bytes_of rest) in
          subst (λ t. IsCopied t (copy now rest p' d')) all
            (copy-IsCopied now rest p' d' (write-InStep now accepted b p d s)
              (IsSound-same eb er sound) (ee ∙ e)))
    where
      go :
          (o : Option StoreError)
          → ((x : StoreError)
              → IsCopied
                  (p.sha256_fed ++ (b ++ bytes_of rest))
                  (some x, (write now accepted b p d).1, (write now accepted b p d).2))
          → (o ≡ none
              → IsCopied
                  (p.sha256_fed ++ (b ++ bytes_of rest))
                  (copy now rest (write now accepted b p d).1 (write now accepted b p d).2))
          → let r : Copied = elim o [
            | none ↦ copy now rest (write now accepted b p d).1 (write now accepted b p d).2
            | some x ↦ (some x, (write now accepted b p d).1, (write now accepted b p d).2)
          ] in
            IsCopied (p.sha256_fed ++ (b ++ bytes_of rest)) r
      go none stops goes_on = goes_on refl
      go (some x) stops goes_on = stops x

  -- What `Put` of `s` promises where it returns a blob.
  abbrev pub Placed : CommitFault → Text → Result StoreError Blob × Disk → Type 0
  Placed fault s (ok b, d) = Describes h s b × IsInPlace h fault s b d × (is_expected exp b ≡ true)
  Placed fault s (err e, d) = Unit

  abbrev IsPut : CommitFault → Text → Result StoreError Blob × Disk → Type 0
  IsPut fault s r = IsSound h r.1 × Placed fault s r

  abort-IsSound : (p : Partial) (d : Disk) → IsSound h d → IsSound h (abort p d).1
  unfolding abort unlock
  abort-IsSound p d sound = IsSound-same (ground arith) (ground arith) sound

  abort_unless_mismatch-IsPut :
      (fault : CommitFault) (p : Partial) (r : Result StoreError Blob × Partial × Disk)
      → p.exp ≡ exp
      → IsSound h r.2
      → Done h fault p r
      → IsPut fault p.sha256_fed (abort_unless_mismatch r)
  unfolding abort_unless_mismatch
  abort_unless_mismatch-IsPut fault p (ok b, p', d) e sound (desc, place, _, _, fine) =
      (sound, (desc, place, rw (← e) fine))
  abort_unless_mismatch-IsPut fault p (err hash_mismatch, p', d) e sound done = (sound, tt)
  abort_unless_mismatch-IsPut fault p (err _, p', d) e sound done = (abort-IsSound p' d sound, tt)

  commit_or_abort-IsPut :
      (fault : CommitFault) (now : ℕ) (s : Text) (r : Copied)
      → IsCopied s r
      → IsPut fault s (commit_or_abort h fault now r)
  unfolding commit_or_abort
  commit_or_abort-IsPut fault now s (some x, p, d) (sound, e, _) = (abort-IsSound p d sound, tt)
  commit_or_abort-IsPut fault now s (none, p, d) (sound, e, (step, fed)) =
      let (after, done) = commit-Done h fault now p d step sound in
      subst (λ t. IsPut fault t (commit_or_abort h fault now (none, p, d))) fed
        (unfold commit_or_abort in
          abort_unless_mismatch-IsPut fault p (commit h fault now p d) e after done)

pub open_partial-same :
    (ended : Bool) (fault : OpenFault) (now : ℕ) (key : Text) (exp : Expect) (d : Disk)
    → let d' = (open_partial ended fault now key exp d).1 in
      (d'.blobs ≡ d.blobs) × (d'.rows ≡ d.rows)
unfolding open_partial resume truncated create_part write_part lock unlock
open_partial-same ended fault now key exp d = ground arith

fresh_bytes :
    (exp : Expect) (key : Text) (d : Disk)
    → get key d.parts ≡ none
    → kept_bytes exp (part_content key d) ≡ []
unfolding kept_bytes part_content
fresh_bytes exp key d fresh = ground arith

module _ (h : Hashes) where
  -- Whatever the operating system refuses, `Put` into a sound store under a key that is not in use
  -- leaves the store sound. Where it returns a blob, the blob tells the hash, the git id and the
  -- size of everything the reader yielded, it is as expected, and those bytes (or another writer's
  -- with that hash) are in the store.
  pub put_blob-Placed :
      (ended : Bool) (open_fault : OpenFault) (fault : CommitFault) (now : ℕ) (key : Text)
      (exp : Expect) (reader : Reader) (d : Disk)
      → IsSound h d
      → get key d.parts ≡ none
      → let r = put_blob h ended open_fault fault now key exp reader d in
        IsSound h r.1 × Placed h exp fault (bytes_of reader) r
  unfolding put_blob
  put_blob-Placed ended open_fault fault now key exp reader d sound fresh =
      let (eb, er) = open_partial-same ended open_fault now key exp d in
      go (open_partial ended open_fault now key exp d) (IsSound-same eb er sound) (λ p e.
        let (step, _, same, fed, _) = open_partial-IsResumed ended open_fault now key exp d p e in
        (step, same, fed ∙ fresh_bytes exp key d fresh))
    where
      go :
          (r : Result StoreError Partial × Disk)
          → IsSound h r.1
          → ((p : Partial) → r.0 ≡ ok p → InStep p r.1 × (p.exp ≡ exp) × (p.sha256_fed ≡ []))
          → IsPut h exp fault (bytes_of reader) (copy_and_commit h fault now reader r)
      go (err x, d') kept opened = unfold copy_and_commit in (kept, tt)
      go (ok p, d') kept opened =
          let (step, same, empty) = opened p refl in
          unfold copy_and_commit in
          commit_or_abort-IsPut h exp fault now (bytes_of reader) (copy now reader p d') (
            subst (λ t. IsCopied h exp (t ++ bytes_of reader) (copy now reader p d')) empty
              (copy-IsCopied h exp now reader p d' step kept same))
