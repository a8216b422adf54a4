-- ===== src/Torrent/Writing.antt =====
-- internal/torrent/blobstorage.go: what `ReadAt` gives after a `WriteAt`.
use weightkeep.Prelude.{
  ℕ, zero, suc, ◌+◌, ◌-◌, Text, [], ◌∷◌, ◌++◌, true, false, ltb, leb, ≟-eq_false, ≟_refl, if_cases,
  Bool-cases, min, some, length, take, drop, take_all, length-append, length-take, append_assoc,
  get, put, get-put, Result, ok, inl, inr, ◌≡◌, ◌≢◌, refl, sym, ap, ◌∙◌, arith,
}
use weightkeep.Torrent.Pieces.{zeros}
use weightkeep.Torrent.Feeding.{length-zeros}
use weightkeep.Torrent.Storage.{
  Files, StorageError, PieceLoc, no_fault, read_file, read_at, overwrite, content, store_bytes,
  write_at,
}

drop-append_at : (s t : Text) (n : ℕ) → length s ≡ n → drop n (s ++ t) ≡ t
drop-append_at [] t zero e = refl
drop-append_at [] t (suc n) e = absurd (omega arith)
drop-append_at (c ∷ s) t zero e = absurd (omega arith)
drop-append_at (c ∷ s) t (suc n) e = drop-append_at s t n (omega arith)

take-append_at : (s t : Text) (n : ℕ) → length s ≡ n → take n (s ++ t) ≡ s
take-append_at [] t zero e = refl
take-append_at [] t (suc n) e = absurd (omega arith)
take-append_at (c ∷ s) t zero e = absurd (omega arith)
take-append_at (c ∷ s) t (suc n) e = ap (λ u. c ∷ u) (take-append_at s t n (omega arith))

-- Bytes that are written are read back.
take-overwrite : (at : ℕ) (b old : Text) → take (length b) (drop at (overwrite at b old)) ≡ b
unfolding overwrite
take-overwrite at [] old = refl
take-overwrite at (c ∷ b) old =
    let before = take at old ++ zeros (at - length old) in
    let after = drop (at + length (c ∷ b)) old in
    let size : length before ≡ at = omega (
      arith,
      length-append {0} (take at old) (zeros (at - length old)),
      length-take at old,
      length-zeros (at - length old),
    ) in
    ap (λ t. take (length (c ∷ b)) (drop at t)) (append_assoc {0} before (c ∷ b) after)
    ∙ ap (take (length (c ∷ b))) (drop-append_at before ((c ∷ b) ++ after) at size)
    ∙ take-append_at (c ∷ b) after (length (c ∷ b)) refl

take-min : (m : ℕ) (b : Text) → take (min (length b) m) b ≡ take m b
take-min m b = elim (Bool-cases (leb (length b) m)) [
  | inl short ↦ take_all (min (length b) m) b (ground arith) ∙ sym (take_all m b (ground arith))
  | inr long ↦ (let e : min (length b) m ≡ m = ground arith in ap (λ k. take k b) e)
]

read_file-back :
    (at : ℕ) (b old : Text) (size k : ℕ)
    → length b ≡ k
    → read_file (some (overwrite at b old)) at k size ≡ ok (b ++ zeros (size - k))
unfolding read_file
read_file-back at b old size k e =
    let back : take k (drop at (overwrite at b old)) ≡ b =
      ap (λ n. take n (drop at (overwrite at b old))) (sym e) ∙ take-overwrite at b old in
    rw back (
      if_cases (λ r. r ≡ ok (b ++ zeros (size - k))) (ltb (length b) k) _ _
        (λ short. absurd (ground arith)) (λ _. refl))

-- What a write of `b` at `off` leaves.
abbrev WroteTo : Files → PieceLoc → Text → ℕ → Files × Result StorageError ℕ → Type 0
WroteTo files loc b off after =
    (after.1 ≡ ok (length b))
    × (read_at after.0 loc (length b) off
        ≡ ok (take (loc.data_bytes - off) b ++ zeros (length b - (loc.data_bytes - off))))
    × ((p : Text) → p ≢ loc.path → get p after.0 ≡ get p files)

stored-WroteTo :
    (files : Files) (loc : PieceLoc) (b : Text) (off : ℕ)
    → ltb off loc.data_bytes ≡ true
    → (let kept = take (min (length b) (loc.data_bytes - off)) b in
        WroteTo files loc b off (
          put loc.path (overwrite (loc.file_off + off) kept (content (get loc.path files))) files,
          ok (length b),
        ))
unfolding read_at
stored-WroteTo files loc b off inside =
    let m = loc.data_bytes - off in
    let k = min (length b) m in
    let old = content (get loc.path files) in
    let new = overwrite (loc.file_off + off) (take k b) old in
    let size : length (take k b) ≡ k = omega (arith, length-take k b) in
    let zeros_left : length b - k ≡ length b - m = omega arith in
    (
      refl,
      if_cases (λ r. r ≡ ok (take m b ++ zeros (length b - m))) (ltb off loc.data_bytes) _ _
          (λ _.
            rw (get-put loc.path loc.path new files, ≟_refl loc.path)
              (read_file-back (loc.file_off + off) (take k b) old (length b) k size
                ∙ (rw (take-min m b, zeros_left) refl)))
          (λ outside. absurd (ground arith)),
      λ p other.
          get-put loc.path p new files ∙ (rw (≟-eq_false loc.path p (λ e. other (sym e))) refl),
    )

padding-WroteTo :
    (files : Files) (loc : PieceLoc) (b : Text) (off : ℕ)
    → ltb off loc.data_bytes ≡ false
    → WroteTo files loc b off (files, ok (length b))
unfolding read_at
padding-WroteTo files loc b off outside =
    let none_stored : loc.data_bytes - off ≡ 0 = ground arith in
    let all_zero : length b - 0 ≡ length b = omega arith in
    (
      refl,
      if_cases
          (λ r. r ≡ ok (take (loc.data_bytes - off) b ++ zeros (length b - (loc.data_bytes - off))))
          (ltb off loc.data_bytes) _ _ (λ inside. absurd (ground arith))
          (λ _. rw (none_stored, all_zero) refl),
      λ p other. refl,
    )

-- Bytes that are written to a piece, and meet no fault, are all accepted; the same place then reads as
-- those that are data of the piece, with zeros for those in the padding, and no other file has changed.
pub write_at-read_at :
    (files : Files) (loc : PieceLoc) (b : Text) (off : ℕ)
    → let after = write_at no_fault true files loc b off in
      (after.1 ≡ ok (length b))
      × (read_at after.0 loc (length b) off
          ≡ ok (take (loc.data_bytes - off) b ++ zeros (length b - (loc.data_bytes - off))))
      × ((p : Text) → p ≢ loc.path → get p after.0 ≡ get p files)
unfolding write_at store_bytes
write_at-read_at files loc b off =
    if_cases (WroteTo files loc b off) (ltb off loc.data_bytes) _ _ (stored-WroteTo files loc b off)
      (padding-WroteTo files loc b off)
