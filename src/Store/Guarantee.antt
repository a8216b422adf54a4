-- ===== src/Store/Guarantee.antt =====
-- What `Commit` promises: the store stays sound whatever fails, and success means that the content
-- is in place under its hash and as expected.
use mathlib.Core.Path.{subst}
use weightkeep.Prelude.{
  ℕ, Text, [], ◌∷◌, ◌++◌, true, false, ◌&&◌, ltb, ≟_refl, Option, none, some, ok, get, put, has_key,
  get-put, length, take, ◌≡◌, ◌≢◌, refl, ap, ◌∙◌, arith, Bool-cases, inl, inr, >>=-eq-ok,
}
use weightkeep.Ids.{is_sha256}
use weightkeep.Store.{Hashes, git_header, Blob, File, Disk, has}
use weightkeep.Store.Partials.{Partial, part_content}
use weightkeep.Store.Commits.{
  CommitFault, rehash_failed, rename_failed, removal_failed, rename_and_record_failed,
  removal_and_record_failed, part_file, git_sum, blob_of, moved, move_into_place,
}
use weightkeep.Store.Sound.{git_id, IsSound, InStep, IsSound-same, put_blob_file-IsSound}

take_all : (s : Text) → take (length s) s ≡ s
take_all [] = refl
take_all (x ∷ s) = ap (λ t. x ∷ t) (take_all s)

-- The blob describes the content `s`.
abbrev pub Describes : Hashes → Text → Blob → Type 0
Describes h s b =
    (h.sha256 s ≡ b.sha256) × (b.size ≡ length s) × (b.git_sha1 ≢ [] → b.git_sha1 ≡ git_id h s)

-- At its full size, the SHA-1 of a partial has been fed what git hashes.
headed_all :
    (p : Partial) (d : Disk)
    → InStep p d
    → (p.exp.has_size && ltb p.n p.exp.size) ≡ false
    → (fed : Text) → p.sha1_fed ≡ some fed
    → fed ≡ git_header p.n ++ part_content p.key d
headed_all p d s full fed e = elim (Bool-cases p.exp.has_size) [
  | inl sized ↦
      let size : p.n ≡ p.exp.size = ground (arith, s.fits sized) in
      let headed : p.sha1_fed ≡ some (git_header p.exp.size ++ p.sha256_fed) = ground arith in
      cc (size, headed, s.content)
  | inr free ↦ let headed : p.sha1_fed ≡ none = ground arith in cc
]

module _ (h : Hashes) where
  reread :
      (n : ℕ) (content : Text)
      → n ≡ length content
      → h.sha1 (git_header n ++ take n content) ≡ git_id h content
  reread n content size = rw (size, take_all content)

  git_sum_sound :
      (fault : CommitFault) (o : Option Text) (n : ℕ) (content g : Text)
      → git_sum h fault o n content ≡ ok g
      → n ≡ length content
      → ((fed : Text) → o ≡ some fed → fed ≡ git_header n ++ content)
      → g ≢ []
      → g ≡ git_id h content
  unfolding git_sum
  git_sum_sound fault (some fed) n content g e size fed_all ne = cc (fed_all fed refl)
  git_sum_sound rehash_failed none n content g e size fed_all ne =
      ground (arith, reread n content size)
  git_sum_sound fault none n content g e size fed_all ne = ground (arith, reread n content size)

  pub blob_of-Describes :
      (fault : CommitFault) (p : Partial) (d : Disk) (b : Blob)
      → InStep p d
      → (p.exp.has_size && ltb p.n p.exp.size) ≡ false
      → blob_of h fault p d ≡ ok b
      → Describes h p.sha256_fed b
  unfolding blob_of
  blob_of-Describes fault p d b s full e =
      let (g, summed, made) =
        >>=-eq-ok (git_sum h fault p.sha1_fed p.n (part_content p.key d)) _ e in
      (
        cc,
        ground arith,
        λ ne.
            let git : g ≡ git_id h (part_content p.key d) =
              git_sum_sound fault p.sha1_fed p.n (part_content p.key d) g summed
                (cc (s.counted, s.content)) (headed_all p d s full) (λ z. ne (cc z)) in
            cc,
      )

part_file-content :
    (now : ℕ) (key : Text) (d : Disk) → (part_file now key d).content ≡ part_content key d
unfolding part_file part_content
part_file-content now key d = ground arith

-- The partial file got the blob's name.
abbrev pub IsRenamed : CommitFault → Type 0
IsRenamed rename_failed = ⊥
IsRenamed rename_and_record_failed = ⊥
IsRenamed removal_failed = ⊥
IsRenamed removal_and_record_failed = ⊥
IsRenamed _ = Unit

-- A file under the blob's name, with the partial's own content unless another writer was first.
abbrev pub IsInPlace : Hashes → CommitFault → Text → Blob → Disk → Type 0
IsInPlace h fault fed b d =
    (has b.sha256 d ≡ true)
    × ((f : File) × (get b.sha256 d.blobs ≡ some f)
        × (h.sha256 f.content ≡ b.sha256)
        × (IsRenamed fault → f.content ≡ fed))

has-get : (k : Text) (d : Disk) → has k d ≡ true → (f : File) × (get k d.blobs ≡ some f)
unfolding has has_key
has-get k d e = ground arith

get-has :
    (k : Text) (d : Disk) (f : File) → is_sha256 k ≡ true → get k d.blobs ≡ some f → has k d ≡ true
unfolding has has_key
get-has k d f shape e = ground arith

module _ (h : Hashes) where
  moved-IsInPlace :
      (now : ℕ) (fault : CommitFault) (p : Partial) (b : Blob) (d : Disk)
      → InStep p d
      → Describes h p.sha256_fed b
      → IsSound h d
      → IsSound h (moved now p b d) × IsInPlace h fault p.sha256_fed b (moved now p b d)
  unfolding moved
  moved-IsInPlace now fault p b d s desc sound =
      let f = part_file now p.key d in
      let content : f.content ≡ p.sha256_fed = part_file-content now p.key d ∙ s.content in
      let hashed : h.sha256 f.content ≡ b.sha256 = cc (content, desc.0) in
      let at : get b.sha256 (put b.sha256 f d.blobs) ≡ some f =
        ground (arith, get-put b.sha256 b.sha256 f d.blobs, ≟_refl b.sha256) in
      let shape : is_sha256 b.sha256 ≡ true = rw (← desc.0) (h.sha256_shape p.sha256_fed) in
      (
        IsSound-same refl refl (put_blob_file-IsSound b.sha256 f hashed sound),
        (get-has b.sha256 (moved now p b d) f shape at, (f, at, hashed, λ ne. content)),
      )

  raced_IsInPlace :
      (fault : CommitFault) (p : Partial) (b : Blob) (d d' : Disk)
      → ¬ IsRenamed fault
      → d'.blobs ≡ d.blobs
      → d'.rows ≡ d.rows
      → IsSound h d
      → has b.sha256 d ≡ true
      → IsSound h d' × IsInPlace h fault p.sha256_fed b d'
  raced_IsInPlace fault p b d d' unnamed eb er sound there =
      let (f, at) = has-get b.sha256 d there in
      let same : get b.sha256 d'.blobs ≡ some f = rw eb at in
      (
        IsSound-same eb er sound,
        (
          unfold has has_key in ground arith,
          (f, same, sound.named b.sha256 f at, λ named. absurd (unnamed named)),
        ),
      )

  pub move_IsInPlace :
      (fault : CommitFault) (now : ℕ) (p : Partial) (b : Blob) (d d' : Disk)
      → InStep p d
      → Describes h p.sha256_fed b
      → IsSound h d
      → move_into_place fault now p b d ≡ some d'
      → IsSound h d' × IsInPlace h fault p.sha256_fed b d'
  unfolding move_into_place
  move_IsInPlace rename_failed now p b d d' s desc sound e =
      raced_IsInPlace rename_failed p b d d' (λ x. x) (ground arith) (ground arith) sound
        (ground arith)
  move_IsInPlace rename_and_record_failed now p b d d' s desc sound e =
      raced_IsInPlace rename_and_record_failed p b d d' (λ x. x) (ground arith) (ground arith) sound
        (ground arith)
  move_IsInPlace removal_failed now p b d d' s desc sound e =
      raced_IsInPlace removal_failed p b d d' (λ x. x) (ground arith) (ground arith) sound
        (ground arith)
  move_IsInPlace removal_and_record_failed now p b d d' s desc sound e =
      raced_IsInPlace removal_and_record_failed p b d d' (λ x. x) (ground arith) (ground arith)
        sound (ground arith)
  move_IsInPlace fault now p b d d' s desc sound e =
      let same : moved now p b d ≡ d' = cc in
      subst (λ x. IsSound h x × IsInPlace h fault p.sha256_fed b x) same
        (moved-IsInPlace now fault p b d s desc sound)
