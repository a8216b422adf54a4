-- ===== src/Torrent/Serving.antt =====
-- What the storage makes of the file list of a built torrent, and what it serves.
use mathlib.Core.Path.{subst}
use weightkeep.Prelude.{
  ℕ, zero, suc, ◌+◌, ◌-◌, ◌*◌, ◌≤◌, ◌<◌, Text, List, [], ◌∷◌, ◌++◌, not, ltb, leb, if_cases,
  Bool-cases, inl, inr, min, none, some, map, length, take, drop, replicate, length-append,
  length-take, length-drop, take_all, take-append_le, append_assoc, append-nil, get, Result, ok,
  ◌≡◌, refl, sym, ap, ◌∙◌, arith,
}
use weightkeep.Torrent.Pieces.{zeros}
use weightkeep.Torrent.Feeding.{length-zeros}
use weightkeep.Torrent.Blocks.{Fills, Fills-zero}
use weightkeep.Torrent.Storage.{
  Files, PieceLoc, StorageError, Slots, set_at, piece_of, assign, read_at, read_file,
}

-- The pieces of a file, from its piece `j`.
abbrev pub locs : ℕ → ℕ → Text → ℕ → ℕ → List PieceLoc
locs pl zero path size j = []
locs pl (suc q) path size j = piece_of pl path size j ∷ locs pl q path size (suc j)

-- Pieces that are assigned, with some after them that are not yet.
abbrev pub partly : List PieceLoc → ℕ → Slots
partly done more = map some done ++ replicate more none

set_at-partly :
    (done : List PieceLoc) (more i : ℕ) (loc : PieceLoc)
    → i ≡ length done
    → set_at i (some loc) (partly done (suc more)) ≡ partly (done ++ loc ∷ []) more
unfolding set_at
set_at-partly [] more zero loc e = refl
set_at-partly [] more (suc i) loc e = absurd (omega arith)
set_at-partly (d ∷ done) more zero loc e = absurd (omega arith)
set_at-partly (d ∷ done) more (suc i) loc e =
    ap (λ s. some d ∷ s) (set_at-partly done more i loc (omega arith))

length-partly : (done : List PieceLoc) (more : ℕ) → length (partly done more) ≡ length done + more
length-partly [] zero = omega arith
length-partly [] (suc more) = omega (arith, length-partly [] more)
length-partly (d ∷ done) more = omega (arith, length-partly done more)

pub nothing_more :
    (done : List PieceLoc) (more : ℕ)
    → ◌≡◌ {A = Result StorageError Slots}
        (ok (partly done (0 + more)))
        (ok (partly (done ++ []) more))
nothing_more done more =
    let e : 0 + more ≡ more = omega arith in rw (append-nil done) (ap (λ n. ok (partly done n)) e)

module _ (pl : ℕ) (path : Text) (first size : ℕ) (positive : 0 < pl) where
  -- The loop over a file's pieces assigns them, and leaves the others.
  pub assign-locs :
      (q rounds j more : ℕ) (done : List PieceLoc)
      → Fills pl q (size - j * pl)
      → size - j * pl ≤ rounds
      → length done ≡ first + j
      → assign pl rounds path first size j (partly done (q + more))
        ≡ ok (partly (done ++ locs pl q path size j) more)
  unfolding assign
  assign-locs zero zero j more done fill enough at = nothing_more done more
  assign-locs zero (suc rounds) j more done fill enough at =
      if_cases (λ r. r ≡ ok (partly (done ++ []) more)) (not (ltb (j * pl) size)) _ _
        (λ _. nothing_more done more) (λ lt. absurd (ground arith))
  assign-locs (suc q) zero j more done fill enough at = absurd (omega (arith, fill.0))
  assign-locs (suc q) (suc rounds) j more done (some_left, fill) enough at =
      let loc = piece_of pl path size j in
      let e : suc q + more ≡ suc (q + more) = omega arith in
      let next : (size - j * pl) - pl ≡ size - suc j * pl = omega arith in
      let one_more : length (done ++ loc ∷ []) ≡ length done + 1 = length-append done (loc ∷ []) in
      if_cases (λ r. r ≡ ok (partly (done ++ locs pl (suc q) path size j) more))
        (not (ltb (j * pl) size)) _ _ (λ none_left. absurd (ground arith))
        (λ lt.
          if_cases (λ r. r ≡ ok (partly (done ++ locs pl (suc q) path size j) more))
            (leb (length (partly done (suc q + more))) (first + j)) _ _
            (λ full. absurd (ground (arith, length-partly done (suc q + more))))
            (λ room.
              ap (assign pl rounds path first size (suc j)) (
                ap (λ n. set_at (first + j) (some loc) (partly done n)) e
                ∙ set_at-partly done (q + more) (first + j) loc (sym at))
              ∙ assign-locs q rounds (suc j) more (done ++ loc ∷ []) (subst (Fills pl q) next fill)
                  (omega arith) (omega (arith, one_more))
              ∙ ap (λ l. ok (partly l more))
                  (append_assoc done (loc ∷ []) (locs pl q path size (suc j)))))

-- The data of a piece and the zeros after it are the piece of the padded rest of the file.
padded_block :
    (pl q left pad : ℕ) (rest : Text)
    → length rest ≡ left
    → Fills pl (suc q) left
    → left + pad ≡ suc q * pl
    → take (min pl left) rest ++ zeros (pl - min pl left) ≡ take pl (rest ++ zeros pad)
padded_block pl q left pad rest whole (some_left, fill) full = elim (Bool-cases (leb pl left)) [
  | inl le ↦
      let want : min pl left ≡ pl = ground arith in
      let rest_full : pl - pl ≡ 0 = omega arith in
      rw (want, rest_full, append-nil (take pl rest))
        (sym (take-append_le pl rest (zeros pad) (ground arith)))
  | inr gt ↦
      let want : min pl left ≡ left = ground arith in
      let over : left - pl ≡ 0 = ground arith in
      let last : q ≡ 0 = Fills-zero pl q (subst (Fills pl q) over fill) in
      let one : suc q * pl ≡ pl = ap (λ n. suc n * pl) last ∙ omega arith in
      let short : pl - left ≡ pad = omega arith in
      rw (want, short, take_all left rest (omega arith))
        (sym (
          take_all pl (rest ++ zeros pad)
            (omega (arith, length-append {0} rest (zeros pad), length-zeros pad))))
]

read_file-some :
    (bytes : Text) (at want size : ℕ)
    → want ≤ length (drop at bytes)
    → read_file (some bytes) at want size ≡ ok (take want (drop at bytes) ++ zeros (size - want))
unfolding read_file
read_file-some bytes at want size enough =
    if_cases (λ r. r ≡ ok (take want (drop at bytes) ++ zeros (size - want)))
      (ltb (length (take want (drop at bytes))) want) _ _
      (λ short. absurd (ground (arith, length-take want (drop at bytes)))) (λ _. refl)

-- What stands in a piece is served as it is in the padded file.
pub read_at-block :
    (pl : ℕ) (path : Text) (size j q pad : ℕ) (bytes : Text) (files : Files)
    → 0 < pl
    → get path files ≡ some bytes
    → length bytes ≡ size
    → Fills pl (suc q) (size - j * pl)
    → (size - j * pl) + pad ≡ suc q * pl
    → read_at files (piece_of pl path size j) pl 0 ≡ ok (take pl (drop (j * pl) bytes ++ zeros pad))
unfolding read_at piece_of
read_at-block pl path size j q pad bytes files positive kept whole fill full =
    let left = size - j * pl in
    let size_left : length (drop (j * pl) bytes) ≡ left =
      length-drop (j * pl) bytes ∙ ap (λ n. n - j * pl) whole in
    let start : j * pl + 0 ≡ j * pl = omega arith in
    let want : min pl (min pl left - 0) ≡ min pl left = omega arith in
    if_cases (λ r. r ≡ ok (take pl (drop (j * pl) bytes ++ zeros pad))) (ltb 0 (min pl left)) _ _
      (λ _.
        rw (kept, start, want)
          (read_file-some bytes (j * pl) (min pl left) pl (omega (arith, size_left))
            ∙ ap ok (padded_block pl q left pad (drop (j * pl) bytes) size_left fill full)))
      (λ none. absurd (ground (arith, fill.0)))
