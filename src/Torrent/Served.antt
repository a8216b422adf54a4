-- ===== src/Torrent/Served.antt =====
-- The torrent that is built for some files, and the storage that serves them, agree.
use mathlib.Core.Path.{subst}
use weightkeep.Prelude.{
  ℕ, zero, suc, ◌+◌, ◌-◌, ◌*◌, ◌≤◌, ◌<◌, Text, List, [], ◌∷◌, ◌++◌, ◌==◌, Bool-cases, Option, none,
  some, map, concat, length, take, drop, drop-drop, drop-append_le, length-append, length-drop,
  append_assoc, All, get, Result, ok, ◌>>=◌, >>=-eq-ok, inl, inr, ◌≡◌, refl, sym, ap, ◌∙◌, arith,
}
use weightkeep.Torrent.Pieces.{Sums, zeros}
use weightkeep.Torrent.Blocks.{
  Fills, Fills-zero, blocks, sums_in, pieces_in, pieces_in-full, pieces_in-Fills,
}
use weightkeep.Torrent.Build.{TorrentFile, padding}
use weightkeep.Torrent.Hashing.{IsWhole, file_sums, padded}
use weightkeep.Torrent.Storage.{Files, PieceLoc, StorageError, read_at}
use weightkeep.Torrent.Serving.{locs, read_at-block}
use weightkeep.Torrent.Placing.{IsStored, file_locs, all_locs, count_all, disk_path}

module _ (h : Sums) (pl : ℕ) where
  -- The sums of the pieces that are read whole, in order: what a peer compares with the torrent.
  abbrev pub served : Files → List PieceLoc → Result StorageError Text
  served files [] = ok []
  served files (loc ∷ ls) =
      read_at files loc pl 0 >>= λ b. served files ls >>= λ rest. ok (h.sum1 b ++ rest)

  served-append :
      (files : Files) (xs ys : List PieceLoc) {a b : Text}
      → served files xs ≡ ok a
      → served files ys ≡ ok b
      → served files (xs ++ ys) ≡ ok (a ++ b)
  served-append files [] ys {a} {b} ex ey = let e : [] ≡ a = cc in ey ∙ ap (λ t. ok (t ++ b)) e
  served-append files (x ∷ xs) ys {a} {b} ex ey =
      let (p, e1, e2) =
        >>=-eq-ok (read_at files x pl 0) (λ p. served files xs >>= λ rest. ok (h.sum1 p ++ rest))
          ex in
      let (r, e3, e4) = >>=-eq-ok (served files xs) (λ rest. ok (h.sum1 p ++ rest)) e2 in
      let e5 : h.sum1 p ++ r ≡ a = cc in
      rw (e1, served-append files xs ys e3 ey)
        (ap ok (sym (append_assoc {0} (h.sum1 p) r b) ∙ ap (λ t. t ++ b) e5))

  next_start : (j size : ℕ) → (size - j * pl) - pl ≡ size - suc j * pl
  next_start j size = omega arith

  -- A next piece starts a whole piece further on.
  next_full :
      (q j size pad : ℕ)
      → Fills pl q ((size - j * pl) - pl)
      → (size - j * pl) + pad ≡ suc q * pl
      → 0 < q
      → (size - suc j * pl) + pad ≡ q * pl
  next_full zero j size pad fill full some_left = absurd (omega arith)
  next_full (suc q) j size pad fill full some_left = omega (arith, fill.0)

  next_blocks :
      (q j pad : ℕ) (bytes : Text)
      → Fills pl q ((length bytes - j * pl) - pl)
      → blocks pl q (drop (suc j * pl) bytes ++ zeros pad)
        ≡ blocks pl q (drop pl (drop (j * pl) bytes ++ zeros pad))
  next_blocks zero j pad bytes fill = refl
  next_blocks (suc q) j pad bytes fill =
      let e : j * pl + pl ≡ suc j * pl = omega arith in
      let within : pl ≤ length (drop (j * pl) bytes) =
        omega (arith, fill.0, length-drop (j * pl) bytes) in
      ap (λ t. blocks pl (suc q) t)
        (sym (
          drop-append_le pl (drop (j * pl) bytes) (zeros pad) within
          ∙ ap (λ t. t ++ zeros pad) (drop-drop pl (j * pl) bytes ∙ ap (λ n. drop n bytes) e)))

  served-locs :
      (q j pad : ℕ) (path bytes : Text) (files : Files)
      → 0 < pl
      → get path files ≡ some bytes
      → Fills pl q (length bytes - j * pl)
      → (0 < q → (length bytes - j * pl) + pad ≡ q * pl)
      → served files (locs pl q path (length bytes) j)
        ≡ ok (sums_in h pl (blocks pl q (drop (j * pl) bytes ++ zeros pad)))
  served-locs zero j pad path bytes files positive kept fill full = refl
  served-locs (suc q) j pad path bytes files positive kept fill full =
      rw
        (read_at-block pl path (length bytes) j q pad bytes files positive kept refl fill
          (full (omega arith)))
        (rw
          (served-locs q (suc j) pad path bytes files positive kept
              (subst (Fills pl q) (next_start j (length bytes)) fill.1)
              (next_full q j (length bytes) pad fill.1 (full (omega arith)))
            ∙ ap (λ bs. ok (sums_in h pl bs)) (next_blocks q j pad bytes fill.1))
          refl)

  length-sums_in : (q : ℕ) (s : Text) → length (sums_in h pl (blocks pl q s)) ≡ 20 * q
  length-sums_in zero s = omega arith
  length-sums_in (suc q) s = omega (
    arith,
    h.sum1_length (take pl s),
    length-append {0} (h.sum1 (take pl s)) (sums_in h pl (blocks pl q (drop pl s))),
    length-sums_in q (drop pl s),
  )

module _ (h : Sums) (pl : ℕ) (path_for : Text → Option Text) (positive : 0 < pl) where
  read_whole : (f : TorrentFile) → 0 < f.size → IsWhole f → length f.source.bytes ≡ f.size
  read_whole f some_bytes (inl e) = absurd (omega arith)
  read_whole f some_bytes (inr e) = e

  served-file :
      (files : Files) (f : TorrentFile)
      → IsWhole f
      → IsStored path_for files f
      → served h pl files (file_locs pl path_for positive f) ≡ ok (file_sums h pl f)
  served-file files f whole stored = elim (Bool-cases (f.size == 0)) [
    | inl is_zero ↦
        let e : f.size ≡ 0 = ground arith in
        let no_pieces_in : pieces_in pl f.size ≡ 0 =
          Fills-zero pl (pieces_in pl f.size)
            (subst (Fills pl (pieces_in pl f.size)) e (pieces_in-Fills pl f.size positive)) in
        rw no_pieces_in refl
    | inr nonzero ↦
        let q = pieces_in pl f.size in
        let some_bytes : 0 < f.size = ground arith in
        let (path, known, kept) = stored some_bytes in
        let size : length f.source.bytes ≡ f.size = read_whole f some_bytes whole in
        let at_path : disk_path pl path_for positive f ≡ path =
          ap (λ o. elim o [ none ↦ [] | some p ↦ p ]) known in
        let start : 0 * pl ≡ 0 = omega arith in
        let left : f.size ≡ length f.source.bytes - 0 * pl = omega (arith, size) in
        ap (λ p. served h pl files (locs pl q p f.size 0)) at_path
        ∙ ap (λ n. served h pl files (locs pl q path n 0)) (sym size)
        ∙ served-locs h pl q 0 (padding pl f.size) path f.source.bytes files positive kept
            (subst (Fills pl q) left (pieces_in-Fills pl f.size positive))
            (λ _. omega (arith, left, pieces_in-full pl f.size positive))
        ∙ ap
            (λ n.
              ok (sums_in h pl (blocks pl q (drop n f.source.bytes ++ zeros (padding pl f.size)))))
            start
  ]

  pub served-all_locs :
      (files : Files) (fs : List TorrentFile)
      → All IsWhole fs
      → All (IsStored path_for files) fs
      → served h pl files (all_locs pl path_for positive fs) ≡ ok (concat (map (file_sums h pl) fs))
  served-all_locs files [] whole stored = refl
  served-all_locs files (f ∷ fs) (whole, all_whole) (stored, all_stored) =
      served-append h pl files (file_locs pl path_for positive f) (all_locs pl path_for positive fs)
        (served-file files f whole stored) (served-all_locs files fs all_whole all_stored)

  pub length-sums :
      (fs : List TorrentFile)
      → length (concat (map (file_sums h pl) fs)) ≡ 20 * count_all pl path_for positive fs
  length-sums [] = omega arith
  length-sums (f ∷ fs) = omega (
    arith,
    length-append {0} (file_sums h pl f) (concat (map (file_sums h pl) fs)),
    length-sums_in h pl (pieces_in pl f.size) (padded pl f),
    length-sums fs,
  )
