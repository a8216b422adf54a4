-- ===== src/Store/Upkeep.antt =====
-- The invariant under looking up, checking, removing and quarantining.
use weightkeep.Prelude.{
  ℕ, Text, [], ◌∷◌, Bool, true, false, not, ≟_iff, ≟_refl, Option, none, some, Result, ok, err, get,
  put, remove, get-remove, get-put_cases, IsTable, ◌≡◌, ◌≢◌, refl, ◌∙◌, arith, Assoc, if_cases,
  has_key, codes, ◌++◌,
}
use weightkeep.Ids.{is_sha256}
use weightkeep.Store.{Hashes, Blob, File, Row, Disk, StoreError, has}
use weightkeep.Store.Blobs.{
  text_of, row_with_git, if_kept, lookup_git_sha1, RemoveFault, nothing_fails, file_stays,
  row_stays, remove_both, remove_blob, Verdict, corrupt, touch, read_back, verify, quarantine_blob,
}
use weightkeep.Store.Sound.{git_id, RowIsSound, IsSound}

module _ (h : Hashes) where
  -- Taking files and rows away keeps a store sound.
  IsSound-fewer :
      (d d' : Disk)
      → ((k : Text) (f : File) → get k d'.blobs ≡ some f → get k d.blobs ≡ some f)
      → ((k : Text) (r : Row) → get k d'.rows ≡ some r → get k d.rows ≡ some r)
      → IsSound h d
      → IsSound h d'
  IsSound-fewer d d' fb fr s = record {
    named = λ k f e. s.named k f (fb k f e);
    rowed = λ k r e. s.rowed k r (fr k r e);
  }

  remove-fewer {ℓ} :
      {V : Type ℓ} (k j : Text) (v : V) (m : Assoc V)
      → get j (remove k m) ≡ some v
      → get j m ≡ some v
  remove-fewer k j v m e = ground (arith, get-remove k j m)

  remove_both-IsSound :
      (fault : RemoveFault) (sum : Text) (d : Disk)
      → IsSound h d
      → IsSound h (remove_both fault sum d).1
  unfolding remove_both
  remove_both-IsSound nothing_fails sum d s =
      IsSound-fewer d (record d { blobs = remove sum d.blobs; rows = remove sum d.rows })
        (λ k f e. remove-fewer sum k f d.blobs e) (λ k r e. remove-fewer sum k r d.rows e) s
  remove_both-IsSound file_stays sum d s = s
  remove_both-IsSound row_stays sum d s =
      IsSound-fewer d (record d { blobs = remove sum d.blobs })
        (λ k f e. remove-fewer sum k f d.blobs e) (λ k r e. e) s

  pub remove_blob-IsSound :
      (fault : RemoveFault) (sum : Text) (d : Disk)
      → IsSound h d
      → IsSound h (remove_blob fault sum d).1
  unfolding remove_blob
  remove_blob-IsSound fault sum d s =
      if_cases (λ (r : Result StoreError (Unit {0}) × Disk). IsSound h r.1) (not (is_sha256 sum)) _
        _ (λ _. s) (λ _. remove_both-IsSound fault sum d s)

  pub quarantine_blob-IsSound :
      (refused : Bool) (stamp sum : Text) (d : Disk)
      → IsSound h d
      → IsSound h (quarantine_blob refused stamp sum d).1
  unfolding quarantine_blob
  quarantine_blob-IsSound refused stamp sum d s =
      let P = λ (r : Result StoreError Text × Disk). IsSound h r.1 in
      if_cases P (not (has sum d)) _ _ (λ _. s)
        (λ _. if_cases P refused _ _ (λ _. s) (λ _. take_out (get sum d.blobs)))
    where
      take_out :
          (o : Option File)
          → let r : Result StoreError Text × Disk = elim o [
            | none ↦ (err StoreError.io, d)
            | some f ↦
                let dst = sum ++ codes "-" ++ stamp in
                (
                  ok dst,
                  record d { blobs = remove sum d.blobs; quarantine = (dst, f) ∷ d.quarantine },
                )
          ] in
            IsSound h r.1
      take_out none = s
      take_out (some f) = IsSound-fewer d _ (λ k x e. remove-fewer sum k x d.blobs e) (λ k r e. e) s

  touch-IsSound : (now : ℕ) (sum : Text) (d : Disk) → IsSound h d → IsSound h (touch now sum d)
  unfolding touch
  touch-IsSound now sum d s = go (get sum d.rows) refl
    where
      go :
          (o : Option Row)
          → get sum d.rows ≡ o
          → let d' : Disk = elim o [
            | none ↦ d
            | some r ↦ record d { rows = put sum (record r { verified_at = now }) d.rows }
          ] in
            IsSound h d'
      go none e = s
      go (some r) e =
          let old = s.rowed sum r e in
          record {
            named = s.named;
            rowed = λ k x q.
                get-put_cases (RowIsSound h) sum k (record r { verified_at = now }) x d.rows
                  (record { sized = old.sized; identified = old.identified }) (s.rowed k x) q;
          }

  read_back-IsSound :
      (broken : Bool) (now : ℕ) (sum : Text) (d : Disk) (o : Option File)
      → get sum d.blobs ≡ o
      → IsSound h d
      → ((got : Text) → (read_back h broken now sum d o).0 ≢ corrupt got)
        × IsSound h (read_back h broken now sum d o).1
  unfolding read_back
  read_back-IsSound broken now sum d none e s = (λ got q. cc, s)
  read_back-IsSound true now sum d (some f) e s = (λ got q. cc, s)
  read_back-IsSound false now sum d (some f) e s =
      rw ((≟_iff (h.sha256 f.content) sum).1 (s.named sum f e))
        (λ got q. cc, touch-IsSound now sum d s)

  -- In a sound store `Verify` finds no corrupt blob and leaves the store sound: what it reports as
  -- corrupt is what has happened to a file outside the program.
  pub verify-IsSound :
      (broken : Bool) (now : ℕ) (sum : Text) (d : Disk)
      → IsSound h d
      → ((got : Text) → (verify h broken now sum d).0 ≢ corrupt got)
        × IsSound h (verify h broken now sum d).1
  unfolding verify
  verify-IsSound broken now sum d s =
      if_cases (λ (r : Verdict × Disk). ((got : Text) → r.0 ≢ corrupt got) × IsSound h r.1)
        (not (is_sha256 sum)) _ _ (λ _. (λ got q. cc, s))
        (λ _. read_back-IsSound broken now sum d (get sum d.blobs) refl s)

  row_with_git-some :
      (sha1 k : Text) (r : Row) (rows : Assoc Row)
      → IsTable rows
      → row_with_git sha1 rows ≡ some (k, r)
      → (get k rows ≡ some r) × (r.git_sha1 ≡ some sha1)
  unfolding row_with_git get has_key
  row_with_git-some sha1 k r [] t e = cc
  row_with_git-some sha1 k r ((j, x) ∷ rows) (new, t) e = ground (
    arith,
    row_with_git-some sha1 k r rows t,
    ≟_iff (text_of x.git_sha1) sha1,
    ≟_iff j k,
    ≟_refl j,
  )

  if_kept_sound :
      (sha1 : Text) (d : Disk) (b : Blob) (o : Option (Text × Row))
      → row_with_git sha1 d.rows ≡ o
      → IsSound h d
      → IsTable d.rows
      → if_kept o d ≡ ok b
      → (has b.sha256 d ≡ true)
        × (b.git_sha1 ≡ sha1)
        × ((s : Text) × (h.sha256 s ≡ b.sha256) × (sha1 ≡ git_id h s))
  unfolding if_kept
  if_kept_sound sha1 d b none found sound t e = cc
  if_kept_sound sha1 d b (some (k, r)) found sound t e =
      let (at, git) = row_with_git-some sha1 k r d.rows t found in
      let (s, hashed, id) = (sound.rowed k r at).identified sha1 git in
      let key : k ≡ b.sha256 = ground arith in (ground arith, ground arith, (s, hashed ∙ key, id))

  -- The blob that `LookupGitSHA1` finds is in the store, and its git id is the one asked for, of
  -- some content with the blob's hash.
  pub lookup_git_sha1_sound :
      (sha1 : Text) (d : Disk) (b : Blob)
      → IsSound h d
      → IsTable d.rows
      → lookup_git_sha1 sha1 d ≡ ok b
      → (has b.sha256 d ≡ true)
        × (b.git_sha1 ≡ sha1)
        × ((s : Text) × (h.sha256 s ≡ b.sha256) × (sha1 ≡ git_id h s))
  unfolding lookup_git_sha1
  lookup_git_sha1_sound sha1 d b sound t e =
      if_kept_sound sha1 d b (row_with_git sha1 d.rows) refl sound t e
