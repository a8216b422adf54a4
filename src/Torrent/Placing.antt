-- ===== src/Torrent/Placing.antt =====
-- The storage that is made for the file list of a built torrent.
use mathlib.Core.Path.{subst}
use weightkeep.Prelude.{
  ℕ, zero, suc, ◌+◌, ◌-◌, ◌*◌, ◌/◌, ◌%◌, ◌<◌, Text, List, [], ◌∷◌, ◌++◌, Bool, true, false, not,
  ◌==◌, if◌then◌else◌, if_cases, Option, none, some, split, codes, format_int, length,
  length-append, append_assoc, All, get, Result, ok, >>=-eq-ok, ◌≡◌, refl, sym, ap, ◌∙◌, arith,
}
use weightkeep.Ids.{slash}
use weightkeep.Torrent.Blocks.{
  Fills, Fills-zero, mul-mod, mul-div, pieces_in, pieces_in-full, pieces_in-Fills,
}
use weightkeep.Torrent.Build.{TorrentFile, InfoFile, padding, info_files}
use weightkeep.Torrent.Hashing.{file_infos}
use weightkeep.Torrent.Offsets.{at_offsets, total, at_offsets-append, join_path-split}
use weightkeep.Torrent.Storage.{
  Files, PieceLoc, PlacedFile, StorageError, Slots, join_path, assign, assign_found, place_file,
  place_files,
}
use weightkeep.Torrent.Serving.{locs, partly, nothing_more, assign-locs}

module _ (path_for : Text → Option Text) where
  -- The data of a file that is not empty is on disk, under the path that stands for it.
  abbrev pub IsStored : Files → TorrentFile → Type 0
  IsStored files f =
      0 < f.size → (p : Text) × (path_for f.path ≡ some p) × (get p files ≡ some f.source.bytes)

module _ (pl : ℕ) (path_for : Text → Option Text) (positive : 0 < pl) where
  -- The path of a file's data, and the pieces of the files.
  abbrev pub disk_path : TorrentFile → Text
  disk_path f = elim (path_for f.path) [ none ↦ [] | some p ↦ p ]

  abbrev pub file_locs : TorrentFile → List PieceLoc
  file_locs f = locs pl (pieces_in pl f.size) (disk_path f) f.size 0

  abbrev pub all_locs : List TorrentFile → List PieceLoc
  all_locs [] = []
  all_locs (f ∷ fs) = file_locs f ++ all_locs fs

  abbrev pub count_all : List TorrentFile → ℕ
  count_all [] = 0
  count_all (f ∷ fs) = pieces_in pl f.size + count_all fs

  place_files-append :
      (ps qs : List PlacedFile) (slots after : Slots)
      → place_files pl path_for ps slots ≡ ok after
      → place_files pl path_for (ps ++ qs) slots ≡ place_files pl path_for qs after
  unfolding place_files
  place_files-append [] qs slots after e =
      let s : slots ≡ after = cc in ap (place_files pl path_for qs) s
  place_files-append (p ∷ ps) qs slots after e =
      let (mid, e1, e2) =
        >>=-eq-ok (place_file pl path_for p slots) (place_files pl path_for ps) e in
      rw e1 (place_files-append ps qs mid after e2)

  place_pad :
      (b : Bool) (off : ℕ) (i : InfoFile) (slots : Slots)
      → i.is_pad ≡ true
      → place_files pl path_for (at_offsets off (if b then [] else i ∷ [])) slots ≡ ok slots
  unfolding place_files place_file
  place_pad true off i slots pad = refl
  place_pad false off i slots pad = rw pad refl

  total-info_files : (f : TorrentFile) → total (info_files pl f) ≡ f.size + padding pl f.size
  unfolding info_files padding
  total-info_files f =
      ap (λ t. f.size + t)
        (go (f.size % pl == 0) (pl - f.size % pl)
          (codes ".pad" ∷ format_int (padding pl f.size) ∷ []))
    where
      go :
          (whole : Bool) (pad : ℕ) (path : List Text)
          → total (
              if whole
              then []
              else record { is_pad = true; length = if whole then 0 else pad; path = path } ∷ [])
            ≡ (if whole then 0 else pad)
      go true pad path = refl
      go false pad path = omega arith

  abbrev data_file : TorrentFile → InfoFile
  data_file f = record { is_pad = false; length = f.size; path = split slash f.path }

  find :
      (f : TorrentFile) (off : ℕ) (path : Text) (slots : Slots)
      → path_for f.path ≡ some path
      → assign_found pl
          (record { file = data_file f; torrent_offset = off })
          (path_for (join_path (split slash f.path)))
          slots
        ≡ assign pl f.size path (off / pl) f.size 0 slots
  unfolding assign_found
  find f off path slots known = rw (join_path-split f.path, known) refl

  place_data :
      (files : Files) (f : TorrentFile) (off more : ℕ) (done : List PieceLoc)
      → IsStored path_for files f
      → off ≡ length done * pl
      → place_file pl path_for
          (record { file = data_file f; torrent_offset = off })
          (partly done (pieces_in pl f.size + more))
        ≡ ok (partly (done ++ file_locs f) more)
  unfolding place_file
  place_data files f off more done stored at =
      let q = pieces_in pl f.size in
      let need = pieces_in-Fills pl f.size positive in
      let start : off / pl ≡ length done =
        ap (λ n. n / pl) at ∙ mul-div (length done) pl positive in
      let aligned : off % pl ≡ 0 = ap (λ n. n % pl) at ∙ mul-mod (length done) pl positive in
      let Placed : Result StorageError Slots → Type 0 =
        λ r. r ≡ ok (partly (done ++ file_locs f) more) in
      if_cases Placed (f.size == 0) _ _
        (λ is_zero.
          let e : f.size ≡ 0 = ground arith in
          let zero_pieces : q ≡ 0 = Fills-zero pl q (subst (Fills pl q) e need) in
          rw zero_pieces (nothing_more done more))
        (λ nonzero.
          if_cases Placed (not (off % pl == 0)) _ _ (λ unaligned. absurd (ground arith))
            (λ _.
              let (path, known, kept) = stored (ground arith) in
              let all_left : f.size ≡ f.size - 0 * pl = omega arith in
              let at_path : disk_path f ≡ path =
                ap (λ o. elim o [ none ↦ [] | some p ↦ p ]) known in
              find f off path (partly done (q + more)) known
              ∙ assign-locs pl path (off / pl) f.size positive q f.size 0 more done
                  (subst (Fills pl q) all_left need) (omega arith) (omega (arith, start))
              ∙ ap (λ p. ok (partly (done ++ locs pl q p f.size 0) more)) (sym at_path)))

  place_file_infos :
      (files : Files) (f : TorrentFile) (off more : ℕ) (done : List PieceLoc)
      → IsStored path_for files f
      → off ≡ length done * pl
      → place_files pl path_for
          (at_offsets off (info_files pl f))
          (partly done (pieces_in pl f.size + more))
        ≡ ok (partly (done ++ file_locs f) more)
  unfolding info_files place_files
  place_file_infos files f off more done stored at =
      rw (place_data files f off more done stored at)
        (place_pad (f.size % pl == 0) (off + f.size) _ (partly (done ++ file_locs f) more) refl)

  pub length-locs : (q : ℕ) (path : Text) (size j : ℕ) → length (locs pl q path size j) ≡ q
  length-locs zero path size j = refl
  length-locs (suc q) path size j = omega (arith, length-locs q path size (suc j))

  pub place_files-at_offsets :
      (files : Files) (fs : List TorrentFile) (off more : ℕ) (done : List PieceLoc)
      → All (IsStored path_for files) fs
      → off ≡ length done * pl
      → place_files pl path_for
          (at_offsets off (file_infos pl fs))
          (partly done (count_all fs + more))
        ≡ ok (partly (done ++ all_locs fs) more)
  unfolding place_files
  place_files-at_offsets files [] off more done stored at = nothing_more done more
  place_files-at_offsets files (f ∷ fs) off more done (stored, all_stored) at =
      let q = pieces_in pl f.size in
      let e : (q + count_all fs) + more ≡ q + (count_all fs + more) = omega arith in
      let longer : length (done ++ file_locs f) ≡ length done + q =
        omega (arith, length-append done (file_locs f), length-locs q (disk_path f) f.size 0) in
      let next : off + total (info_files pl f) ≡ length (done ++ file_locs f) * pl = omega (
        arith,
        at,
        total-info_files f,
        ap (λ n. n * pl) longer,
        pieces_in-full pl f.size positive,
      ) in
      ap (place_files pl path_for (at_offsets off (file_infos pl (f ∷ fs)))) (ap (partly done) e)
      ∙ ap (λ ps. place_files pl path_for ps (partly done (q + (count_all fs + more))))
          (at_offsets-append off (info_files pl f) (file_infos pl fs))
      ∙ place_files-append (at_offsets off (info_files pl f)) _ _ _
          (place_file_infos files f off (count_all fs + more) done stored at)
      ∙ place_files-at_offsets files fs (off + total (info_files pl f)) more (done ++ file_locs f)
          all_stored next
      ∙ ap (λ l. ok (partly l more)) (append_assoc done (file_locs f) (all_locs fs))
