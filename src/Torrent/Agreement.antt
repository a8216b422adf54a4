-- ===== src/Torrent/Agreement.antt =====
-- internal/torrent: the torrent that `Build` makes and the storage that `newAlignedStorage` makes for
-- it agree.
use mathlib.Core.Path.{subst}
use weightkeep.Prelude.{
  ℕ, suc, ◌+◌, ◌/◌, ◌<◌, Text, List, [], ◌∷◌, Bool, true, not, ◌||◌, ◌==◌, ◌≟◌, if◌then◌else◌,
  if_cases, Option, none, some, map, concat, length, contains_byte, sort_by-All, All, Result, ok,
  err, >>=-eq-ok, any, ◌≡◌, refl, sym, ap, ◌∙◌, arith,
}
use weightkeep.Ids.{slash, backslash}
use weightkeep.Torrent.Length.{piece_length_for, is_piece_length}
use weightkeep.Torrent.Pieces.{Sums, no_pieces}
use weightkeep.Torrent.Build.{
  TorrentFile, BuildError, duplicate_path, Merkle, Layout, path_less, first_duplicate, add_files,
  total_size, sort_files, build_layout, build, info_keys, add_extra,
}
use weightkeep.Torrent.Hashing.{IsWhole, file_sums, file_infos}
use weightkeep.Torrent.Adding.{add_files-Added, Added}
use weightkeep.Torrent.Storage.{
  Files, PieceLoc, AlignedStorage, PlacedFile, all_assigned, new_aligned_storage,
}
use weightkeep.Torrent.Serving.{partly}
use weightkeep.Torrent.Served.{served, served-all_locs, length-sums}
use weightkeep.Torrent.Offsets.{IsPlaced, at_offsets, IsPlaced-at_offsets}
use weightkeep.Torrent.Placing.{IsStored, all_locs, count_all, place_files-at_offsets}

all_assigned-some : (i : ℕ) (done : List PieceLoc) → all_assigned i (partly done 0) ≡ ok done
unfolding all_assigned
all_assigned-some i [] = refl
all_assigned-some i (d ∷ done) = rw (all_assigned-some (suc i) done) refl

pub positive_length : (pl : ℕ) → is_piece_length pl ≡ true → 0 < pl
unfolding is_piece_length
positive_length pl valid = ground arith

module _ (h : Sums) (merkle : Merkle) where
  -- What a successful build says of its layout.
  abbrev pub BuiltFrom : List TorrentFile → Result BuildError Layout → Type 0
  BuiltFrom files (err e) = Unit
  BuiltFrom files (ok layout) =
      (0 < layout.piece_length)
      × All IsWhole (sort_files files)
      × (layout.files ≡ file_infos layout.piece_length (sort_files files))
      × (layout.pieces ≡ concat (map (file_sums h layout.piece_length) (sort_files files)))

  Added-BuiltFrom :
      (pl : ℕ) (positive : 0 < pl) (files : List TorrentFile) (r : Result BuildError Layout)
      → Added h merkle pl positive (sort_files files) [] no_pieces r
      → BuiltFrom files r
  Added-BuiltFrom pl positive files (err e) added = tt
  Added-BuiltFrom pl positive files (ok layout) (whole, length_ok, files_ok, pieces_ok) =
      (rw length_ok positive, whole, rw (length_ok, files_ok) refl, rw (length_ok, pieces_ok) refl)

  checked :
      (pl : ℕ)
      → 0 < pl
      → (files : List TorrentFile) (duplicate : Option Text)
      → BuiltFrom files (elim duplicate [
        | some path ↦ err (duplicate_path path)
        | none ↦ add_files h merkle pl (sort_files files) [] [] no_pieces
      ])
  checked pl positive files (some path) = tt
  checked pl positive files none =
      Added-BuiltFrom pl positive files _
        (add_files-Added h merkle pl positive (sort_files files) [] [] no_pieces refl)

  build_layout-BuiltFrom :
      (name : Text) (files : List TorrentFile) (opt : ℕ)
      → BuiltFrom files (build_layout h merkle name files opt)
  unfolding build_layout
  build_layout-BuiltFrom name files opt =
      let pl = if opt == 0 then piece_length_for (total_size files) else opt in
      if_cases (BuiltFrom files)
        (name ≟ [] || contains_byte slash name || contains_byte backslash name) _ _ (λ _. tt)
        (λ _.
          if_cases (BuiltFrom files) (length files == 0) _ _ (λ _. tt)
            (λ _.
              if_cases (BuiltFrom files) (not (is_piece_length pl)) _ _ (λ _. tt)
                (λ valid.
                  checked pl (positive_length pl (ground arith)) files
                    (first_duplicate (sort_files files)))))

-- The keys that are added leave the layout as it is.
add_extra-same :
    (v1_only : Bool) (keys : List Text) (layout out : Layout)
    → add_extra v1_only keys layout ≡ ok out
    → layout ≡ out
unfolding add_extra
add_extra-same v1_only [] layout out = λ e. cc
add_extra-same v1_only (k ∷ keys) layout out =
    if_cases (λ r. r ≡ ok out → layout ≡ out) (any (λ taken. taken ≟ k) (info_keys v1_only)) _ _
      (λ taken e. absurd (cc)) (λ free e. add_extra-same v1_only keys layout out e)

pub build-BuiltFrom :
    (h : Sums) (merkle : Merkle) (name : Text) (files : List TorrentFile) (opt : ℕ) (v1_only : Bool)
    (extra : List Text) (layout : Layout)
    → build h merkle name files opt v1_only extra ≡ ok layout
    → BuiltFrom h merkle files (ok layout)
unfolding build
build-BuiltFrom h merkle name files opt v1_only extra layout built =
    let (first, laid_out, added) =
      >>=-eq-ok (build_layout h merkle name files opt) (add_extra v1_only extra) built in
    let same = add_extra-same v1_only extra first layout added in
    subst (BuiltFrom h merkle files) (laid_out ∙ ap ok same)
      (build_layout-BuiltFrom h merkle name files opt)

-- The storage for the file list of a torrent that was built, over files on disk that hold what the
-- builder read, is made without an error; and if every piece is read from it whole and hashed, the sums
-- are those in the torrent, so every peer accepts what it serves.
pub build-served :
    (h : Sums) (merkle : Merkle) (name : Text) (files : List TorrentFile) (opt : ℕ)
    (layout : Layout) (placed : List PlacedFile) (path_for : Text → Option Text) (disk : Files)
    (writable v1_only : Bool) (extra : List Text)
    → build h merkle name files opt v1_only extra ≡ ok layout
    → IsPlaced 0 layout.files placed
    → All (IsStored path_for disk) files
    → (storage : AlignedStorage) × (new_aligned_storage layout.piece_length
          (length layout.pieces / 20)
          placed
          path_for
          writable
        ≡ ok storage)
      × (served h layout.piece_length disk storage.pieces ≡ ok layout.pieces)
unfolding new_aligned_storage
build-served h merkle name files opt layout placed path_for disk writable v1_only extra built at
      stored =
    let pl = layout.piece_length in
    let sorted = sort_files files in
    let (positive, whole, files_ok, pieces_ok) =
      build-BuiltFrom h merkle name files opt v1_only extra layout built in
    let all_stored : All (IsStored path_for disk) sorted =
      (unfold sort_files in
        sort_by-All (IsStored path_for disk) (λ f g. path_less f.path g.path) files stored) in
    let number = count_all pl path_for positive sorted in
    let count : length layout.pieces / 20 ≡ number + 0 =
      omega (arith, ap length pieces_ok, length-sums h pl path_for positive sorted) in
    let offsets : placed ≡ at_offsets 0 (file_infos pl sorted) =
      IsPlaced-at_offsets 0 layout.files placed at ∙ ap (at_offsets 0) files_ok in
    let slots =
      place_files-at_offsets pl path_for positive disk sorted 0 0 [] all_stored (omega arith) in
    (
      record { pieces = all_locs pl path_for positive sorted; writable = writable; done = [] },
      rw (count, offsets, slots, all_assigned-some 0 (all_locs pl path_for positive sorted)) refl,
      served-all_locs h pl path_for positive disk sorted whole all_stored ∙ ap ok (sym pieces_ok),
    )
