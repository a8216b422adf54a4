-- ===== src/Torrent/Adding.antt =====
-- What the loop of `Build` over the files makes of them all.
use mathlib.Core.Path.{subst}
use weightkeep.Prelude.{
  ℕ, ◌<◌, Text, List, [], ◌∷◌, ◌++◌, map, concat, All, append_assoc, append-nil, Result, ok, err,
  >>=_cases, ◌≡◌, refl, sym, ap, ◌∙◌,
}
use weightkeep.Torrent.Pieces.{Sums, V1Pieces, finish_pieces}
use weightkeep.Torrent.Hashing.{IsWhole, file_sums, file_infos, Hashed, hash_file-Hashed}
use weightkeep.Torrent.Build.{
  TorrentFile, BuildError, Merkle, FileSums, InfoFile, Layout, hash_file, info_files, pad_file,
  add_files,
}

module _ (h : Sums) (merkle : Merkle) (pl : ℕ) (positive : 0 < pl) where
  -- What the loop of `Build` makes of the files that are left, from an empty piece.
  abbrev pub Added : List TorrentFile → List InfoFile → V1Pieces → Result BuildError Layout → Type 0
  Added fs infos v (err e) = Unit
  Added fs infos v (ok layout) =
      All IsWhole fs
      × (layout.piece_length ≡ pl)
      × (layout.files ≡ infos ++ file_infos pl fs)
      × (layout.pieces ≡ v.pieces ++ concat (map (file_sums h pl) fs))

  Added-step :
      (f : TorrentFile) (fs : List TorrentFile) (infos : List InfoFile) (v : V1Pieces)
      (r : Result BuildError Layout)
      → IsWhole f
      → Added fs
          (infos ++ info_files pl f)
          (record { cur = []; pieces = v.pieces ++ file_sums h pl f })
          r
      → Added (f ∷ fs) infos v r
  Added-step f fs infos v (err e) whole rest = tt
  Added-step f fs infos v (ok layout) whole (all, length_ok, files_ok, pieces_ok) = (
    (whole, all),
    length_ok,
    files_ok ∙ append_assoc infos (info_files pl f) (file_infos pl fs),
    pieces_ok ∙ append_assoc {0} v.pieces (file_sums h pl f) (concat (map (file_sums h pl) fs)),
  )

  pub add_files-Added :
      (fs : List TorrentFile) (infos : List InfoFile) (sums : List (Text × FileSums)) (v : V1Pieces)
      → v.cur ≡ []
      → Added fs infos v (add_files h merkle pl fs infos sums v)
  unfolding add_files
  add_files-Added [] infos sums v empty = (
    tt,
    refl,
    sym (append-nil infos),
    unfold finish_pieces in rw (empty, append-nil v.pieces) refl,
  )
  add_files-Added (f ∷ fs) infos sums v empty =
      >>=_cases (Added (f ∷ fs) infos v) (hash_file h merkle pl f v)
        (λ r.
          add_files h merkle pl fs (infos ++ info_files pl f) (sums ++ (f.path, r.0) ∷ [])
            (pad_file h pl f.size r.1))
        (λ e. tt)
        (λ r e.
          let (whole, fed) =
            subst (Hashed h merkle pl positive f v) e
              (hash_file-Hashed h merkle pl positive f v empty) in
          Added-step f fs infos v _ whole (
            subst
              (λ w. Added fs (infos ++ info_files pl f) w (
                add_files h merkle pl fs (infos ++ info_files pl f) (sums ++ (f.path, r.0) ∷ [])
                  (pad_file h pl f.size r.1)))
              fed
              (add_files-Added fs (infos ++ info_files pl f) (sums ++ (f.path, r.0) ∷ [])
                (pad_file h pl f.size r.1) (ap (λ w. w.cur) fed))))
