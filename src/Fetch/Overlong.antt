-- ===== src/Fetch/Overlong.antt =====
-- A body that is longer than the tree listing told `fetch` of internal/fetch/fetch.go.
use weightkeep.Prelude.{
  ℕ, suc, ◌+◌, ◌-◌, ◌≤◌, ◌<◌, Text, true, false, not, ◌&&◌, ltb, ◌==◌, if_cases, Option, none, some,
  Result, length, take, take_all, ◌≡◌, ◌⊎◌, inl, inr, refl, ap, ◌∙◌, arith,
}
use weightkeep.Store.{Hashes, Blob, Disk, StoreError, hash_mismatch}
use weightkeep.Store.Partials.{Partial, write}
use weightkeep.Store.Commits.{CommitFault, Reader, chunk, end, broken, copy}
use weightkeep.Fetch.Transfer.{
  Target, expect, FetchError, from_store, is_retryable, body, Round, after_copy, receive, transfer,
  goes_on, stop_or, after_transfer, fetch_loop,
}
use weightkeep.Fetch.Outcome.{IsOpen}

-- The reader yields more bytes than there is room for, and the file takes those that fit.
abbrev pub IsLong : ℕ → Reader → Type 0
IsLong room end = ⊥
IsLong room (broken e) = ⊥
IsLong room (chunk b accepted rest) =
    (room < length b) ⊎ ((length b ≤ room) × (length b ≤ accepted) × IsLong (room - length b) rest)

stopped_by :
    (e : StoreError) (o : Option StoreError) (again : Option StoreError × Partial × Disk)
    (p : Partial) (d : Disk)
    → o ≡ some e
    → (elim o as (λ x. Option StoreError × Partial × Disk) [
      | none ↦ again
      | some x ↦ (some x, p, d)
    ]).0
      ≡ some e
stopped_by e none again p d h = absurd (cc)
stopped_by e (some x) again p d h = h

passed_by :
    (e : StoreError) (o : Option StoreError) (again : Option StoreError × Partial × Disk)
    (p : Partial) (d : Disk)
    → o ≡ none
    → again.0 ≡ some e
    → (elim o as (λ x. Option StoreError × Partial × Disk) [
      | none ↦ again
      | some x ↦ (some x, p, d)
    ]).0
      ≡ some e
passed_by e none again p d h later = later
passed_by e (some x) again p d h later = absurd (cc)

write-long :
    (now accepted : ℕ) (b : Text) (p : Partial) (d : Disk)
    → p.exp.has_size ≡ true
    → p.exp.size < p.n + length b
    → (write now accepted b p d).0.1 ≡ some hash_mismatch
unfolding write
write-long now accepted b p d sized long = ground arith

-- What a write of bytes that fit does, if the file takes them all.
write-fits :
    (now accepted : ℕ) (b : Text) (p : Partial) (d : Disk)
    → p.n + length b ≤ p.exp.size
    → length b ≤ accepted
    → ((write now accepted b p d).0.1 ≡ none)
      × ((write now accepted b p d).1.n ≡ p.n + length b)
      × ((write now accepted b p d).1.exp ≡ p.exp)
unfolding write
write-fits now accepted b p d fits taken =
    let whole : take accepted b ≡ b = take_all accepted b taken in
    if_cases
      (λ (r : (ℕ × Option StoreError) × Partial × Disk).
        (r.0.1 ≡ none) × (r.1.n ≡ p.n + length b) × (r.1.exp ≡ p.exp))
      (p.exp.has_size && ltb p.exp.size (p.n + length b)) _ _ (λ long. absurd (ground arith))
      (λ _. (
        if_cases (λ o. o ≡ none) (length (take accepted b) == length b) _ _ (λ _. refl)
            (λ short. absurd (ground (arith, ap length whole))),
        ap (λ w. p.n + length w) whole,
        refl,
      ))

copy-long :
    (now : ℕ) (reader : Reader) (p : Partial) (d : Disk)
    → p.exp.has_size ≡ true
    → p.n ≤ p.exp.size
    → IsLong (p.exp.size - p.n) reader
    → (copy now reader p d).0 ≡ some hash_mismatch
unfolding copy
copy-long now end p d sized fits long = absurd long
copy-long now (broken e) p d sized fits long = absurd long
copy-long now (chunk b accepted rest) p d sized fits (inl over) =
    let (r, p', d') = write now accepted b p d in
    stopped_by hash_mismatch r.1 (copy now rest p' d') p' d'
      (write-long now accepted b p d sized (omega (arith, over, fits)))
copy-long now (chunk b accepted rest) p d sized fits (inr (room, taken, long)) =
    let (r, p', d') = write now accepted b p d in
    let (good, counted, same) = write-fits now accepted b p d (omega (arith, room, fits)) taken in
    let size : p'.exp.size ≡ p.exp.size = ap (λ e. e.size) same in
    let left : (p.exp.size - p.n) - length b ≡ p'.exp.size - p'.n = omega (arith, size, counted) in
    passed_by hash_mismatch r.1 (copy now rest p' d') p' d' good (
      copy-long now rest p' d' (ap (λ e. e.has_size) same ∙ sized)
        (omega (arith, size, counted, room, fits)) (rw (← left) long))

after_copy-mismatch :
    (t : Target) (r : Option StoreError × Partial × Disk)
    → r.0 ≡ some hash_mismatch
    → (after_copy t r).0 ≡ some (from_store hash_mismatch)
unfolding after_copy
after_copy-mismatch t (none, p, d) h = absurd (cc)
after_copy-mismatch t (some hash_mismatch, p, d) h = refl
after_copy-mismatch t (some e, p, d) h = absurd (cc)

mismatch_goes_on :
    (r : Round) (left : ℕ)
    → r.ended ≡ false
    → r.ended_waiting ≡ false
    → goes_on r (suc left) (from_store hash_mismatch) ≡ none
unfolding goes_on is_retryable
mismatch_goes_on r left running waiting = ground arith

module _ (h : Hashes) (t : Target) (fault : CommitFault) (now : ℕ) (env : ℕ → Round) where
  transfer-long :
      (r : Round) (reader : Reader) (p : Partial) (d : Disk)
      → IsOpen h t p d
      → p.n < t.size
      → r.download ≡ body p.n reader
      → IsLong (t.size - p.n) reader
      → (transfer now t r p d).0 ≡ some (from_store hash_mismatch)
  unfolding transfer receive expect
  transfer-long r reader p d (s, sound, e) short answered long =
      let size : p.exp.size ≡ t.size = ap (λ x. x.size) e in
      let sized : p.exp.has_size ≡ true = ap (λ x. x.has_size) e in
      let P = λ (o : Option FetchError × Partial × Disk). o.0 ≡ some (from_store hash_mismatch) in
      if_cases P (p.n == t.size) _ _ (λ full. absurd (ground arith))
        (λ _. rw answered (
          if_cases P (not (p.n == p.n)) _ _ (λ other. absurd (ground arith))
            (λ _.
              after_copy-mismatch t (copy now reader p d)
                (copy-long now reader p d sized (omega (arith, size, short)) (rw size long)))))

  after_mismatch :
      (r : Round) (left : ℕ) (again : Partial → Disk → Result FetchError Blob × Disk)
      (x : Option FetchError × Partial × Disk)
      → x.0 ≡ some (from_store hash_mismatch)
      → r.ended ≡ false
      → r.ended_waiting ≡ false
      → after_transfer h fault now t env r (suc left) again x ≡ again x.1 x.2
  unfolding after_transfer stop_or
  after_mismatch r left again (none, p, d) long running waiting = absurd (cc)
  after_mismatch r left again (some e, p, d) long running waiting =
      let same : e ≡ from_store hash_mismatch = cc in
      rw (same, mismatch_goes_on r left running waiting) refl

  -- A body that answers from where the partial stands, and has more bytes than the tree listing leaves
  -- room for, ends the transfer with a mismatch, whatever its chunks are, if the file takes the bytes
  -- that fit. Where the context goes on and a retry is left, the loop takes that for a failure of the
  -- network and tries again, from what the partial has then.
  pub fetch_loop-mismatch :
      (left attempt : ℕ) (reader : Reader) (p : Partial) (d : Disk)
      → IsOpen h t p d
      → p.n < t.size
      → (env attempt).download ≡ body p.n reader
      → IsLong (t.size - p.n) reader
      → (env attempt).ended ≡ false
      → (env attempt).ended_waiting ≡ false
      → let x = transfer now t (env attempt) p d in
        (x.0 ≡ some (from_store hash_mismatch))
        × (fetch_loop h fault now t env (suc left) attempt p d
            ≡ fetch_loop h fault now t env left (suc attempt) x.1 x.2)
  unfolding fetch_loop
  fetch_loop-mismatch left attempt reader p d opened short answered long running waiting =
      let mismatch = transfer-long (env attempt) reader p d opened short answered long in
      (
        mismatch,
        after_mismatch (env attempt) left
            (λ p' d'. fetch_loop h fault now t env left (suc attempt) p' d')
            (transfer now t (env attempt) p d) mismatch running waiting,
      )
