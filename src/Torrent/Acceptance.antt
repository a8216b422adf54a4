-- ===== src/Torrent/Acceptance.antt =====
-- internal/torrent/build.go: the inputs for which `Build` gives a torrent.
use mathlib.Core.Path.{subst}
use weightkeep.Prelude.{
  Bool, any, map, concat, ℕ, zero, suc, ◌-◌, ◌≤◌, ◌<◌, Text, List, [], ◌∷◌, ◌++◌, true, false, not,
  ◌||◌, ltb, ◌==◌, ◌≟◌, if◌then◌else◌, if_cases, min, none, contains_byte, length, take, drop,
  length-take, length-drop, All, sort_by-All, Result, ok, err, ◌>>=◌, ◌⊎◌, inl, inr, ◌≡◌, refl, ap,
  ◌∙◌, arith,
}
use weightkeep.Ids.{slash, backslash}
use weightkeep.Torrent.Length.{piece_length_for, is_piece_length}
use weightkeep.Torrent.Pieces.{Sums, V1Pieces, no_pieces, write_pieces}
use weightkeep.Torrent.Feeding.{HasRoom}
use weightkeep.Torrent.Build.{
  TorrentFile, BuildError, cannot_open, Merkle, FileSums, Layout, InfoFile, path_less,
  first_duplicate, piece_hash, read_rounds, sums_of, hash_file, add_files, total_size, sort_files,
  build_layout, build, info_keys, add_extra,
}
use weightkeep.Torrent.Hashing.{Hashed, Read, read_rounds-Read, hash_file-Hashed, file_sums}
use weightkeep.Torrent.Agreement.{positive_length, build-BuiltFrom}

abbrev IsOk : {A : Type 0} → Result BuildError A → Type 0
IsOk (ok a) = Unit
IsOk (err e) = ⊥

IsOk-ok : {A : Type 0} (r : Result BuildError A) → IsOk r → (a : A) × (r ≡ ok a)
IsOk-ok (ok a) good = (a, refl)
IsOk-ok (err e) good = absurd good

IsOk->>= :
    {A B : Type 0} (r : Result BuildError A) (next : A → Result BuildError B)
    → IsOk r
    → ((a : A) → r ≡ ok a → IsOk (next a))
    → IsOk (r >>= next)
IsOk->>= (ok a) next good then_good = then_good a refl
IsOk->>= (err e) next good then_good = absurd good

-- A file that can be read, and has the size that the builder is told.
abbrev pub IsReadable : TorrentFile → Type 0
IsReadable f = (f.size ≡ 0) ⊎ ((f.source.opens ≡ true) × (length f.source.bytes ≡ f.size))

no_text : (s : Text) → length s ≡ 0 → s ≡ []
no_text [] e = refl
no_text (c ∷ s) e = absurd (omega arith)

module _ (h : Sums) (merkle : Merkle) (pl : ℕ) (positive : 0 < pl) where
  read_rounds-IsOk :
      (rounds : ℕ) (f : TorrentFile) (left : ℕ) (rest : Text) (hashes : List Text) (v : V1Pieces)
      → left ≤ rounds
      → left ≤ length rest
      → IsOk (read_rounds h merkle pl rounds f left rest hashes v)
  unfolding read_rounds
  read_rounds-IsOk zero f zero rest hashes v enough long = tt
  read_rounds-IsOk zero f (suc left) rest hashes v enough long = absurd (omega arith)
  read_rounds-IsOk (suc rounds) f zero rest hashes v enough long = tt
  read_rounds-IsOk (suc rounds) f (suc left) rest hashes v enough long =
      let want = min pl (suc left) in
      let piece = take want rest in
      if_cases IsOk (ltb (length piece) want) _ _
        (λ short. absurd (ground (arith, length-take want rest)))
        (λ _.
          read_rounds-IsOk rounds f (suc left - want) (drop want rest)
            (hashes ++ piece_hash h merkle pl f.size piece ∷ []) (write_pieces h pl piece v)
            (omega arith) (omega (arith, length-drop want rest)))

  sums_of-IsOk :
      (f : TorrentFile) (hashes : List Text) (v : V1Pieces)
      → IsOk (sums_of h merkle pl f (hashes, [], v))
  unfolding sums_of ◌≟◌
  sums_of-IsOk f hashes v = if_cases IsOk (ltb pl f.size) _ _ (λ _. tt) (λ _. tt)

  sums_of-Read :
      (f : TorrentFile) (v : V1Pieces) (r : List Text × Text × V1Pieces)
      → length f.source.bytes ≡ f.size
      → Read h merkle pl positive f.size f.source.bytes v (ok r)
      → IsOk (sums_of h merkle pl f r)
  sums_of-Read f v (hashes, unread, w) whole (enough, e, fed) =
      let nothing_left : unread ≡ [] =
        e
        ∙ no_text (drop f.size f.source.bytes) (omega (arith, length-drop f.size f.source.bytes)) in
      rw nothing_left (sums_of-IsOk f hashes w)

  hash_file-IsOk :
      (f : TorrentFile) (v : V1Pieces)
      → HasRoom h pl v
      → IsReadable f
      → IsOk (hash_file h merkle pl f v)
  unfolding hash_file
  hash_file-IsOk f v room readable =
      if_cases IsOk (f.size == 0) _ _ (λ _. tt) (λ nonzero. go nonzero readable)
    where
      go :
          f.size == 0 ≡ false
          → IsReadable f
          → IsOk (
              if not f.source.opens
              then err (cannot_open f.path)
              else read_rounds h merkle pl f.size f f.size f.source.bytes [] v
                >>= sums_of h merkle pl f)
      go nonzero (inl e) = absurd (ground arith)
      go nonzero (inr (opens, whole)) =
          if_cases IsOk (not f.source.opens) _ _ (λ closed. absurd (ground arith))
            (λ _.
              IsOk->>= (read_rounds h merkle pl f.size f f.size f.source.bytes [] v)
                (sums_of h merkle pl f)
                (read_rounds-IsOk f.size f f.size f.source.bytes [] v (omega arith) (omega arith))
                (λ r e. sums_of-Read f v r whole (
                  subst (Read h merkle pl positive f.size f.source.bytes v) e (
                    read_rounds-Read h merkle pl positive f.size f f.size f.source.bytes [] v
                      (omega arith) room))))

  add_files-IsOk :
      (fs : List TorrentFile) (infos : List InfoFile) (sums : List (Text × FileSums)) (v : V1Pieces)
      → v.cur ≡ []
      → All IsReadable fs
      → IsOk (add_files h merkle pl fs infos sums v)
  unfolding add_files
  add_files-IsOk [] infos sums v empty readable = tt
  add_files-IsOk (f ∷ fs) infos sums v empty (readable, all_readable) =
      IsOk->>= (hash_file h merkle pl f v) _ (hash_file-IsOk f v (rw empty positive) readable)
        (λ r e.
          let (whole, fed) =
            subst (Hashed h merkle pl positive f v) e
              (hash_file-Hashed h merkle pl positive f v empty) in
          add_files-IsOk fs _ _ _ (ap (λ w. w.cur) fed) all_readable)

build_layout-IsOk :
    (h : Sums) (merkle : Merkle) (name : Text) (files : List TorrentFile) (opt : ℕ)
    → (name ≟ [] || contains_byte slash name || contains_byte backslash name) ≡ false
    → 0 < length files
    → is_piece_length (if opt == 0 then piece_length_for (total_size files) else opt) ≡ true
    → first_duplicate (sort_files files) ≡ none
    → All IsReadable files
    → IsOk (build_layout h merkle name files opt)
unfolding build_layout
build_layout-IsOk h merkle name files opt named some_files valid distinct readable =
    let pl = if opt == 0 then piece_length_for (total_size files) else opt in
    let sorted_readable : All IsReadable (sort_files files) =
      (unfold sort_files in
        sort_by-All IsReadable (λ f g. path_less f.path g.path) files readable) in
    if_cases IsOk (name ≟ [] || contains_byte slash name || contains_byte backslash name) _ _
      (λ bad. absurd (ground arith))
      (λ _.
        if_cases IsOk (length files == 0) _ _ (λ is_zero. absurd (ground arith))
          (λ _.
            if_cases IsOk (not (is_piece_length pl)) _ _ (λ bad. absurd (ground arith))
              (λ _. rw distinct (
                add_files-IsOk h merkle pl (positive_length pl valid) (sort_files files) [] []
                  no_pieces refl sorted_readable))))

-- A key that is not one of the dictionary's own.
abbrev pub IsFree : Bool → Text → Type 0
IsFree v1_only k = any (λ taken. taken ≟ k) (info_keys v1_only) ≡ false

add_extra-IsOk :
    (v1_only : Bool) (keys : List Text) (layout : Layout)
    → All (IsFree v1_only) keys
    → IsOk (add_extra v1_only keys layout)
unfolding add_extra
add_extra-IsOk v1_only [] layout free = tt
add_extra-IsOk v1_only (k ∷ keys) layout (here, free) =
    if_cases IsOk (any (λ taken. taken ≟ k) (info_keys v1_only)) _ _
      (λ taken. absurd (ground arith)) (λ _. add_extra-IsOk v1_only keys layout free)

-- If the name is one segment of a path, there are files, the piece length is a power of two that is
-- large enough, no path is doubled, every file that is not empty opens and has the size that is told,
-- and no extra key is one of the dictionary's own, then `Build` comes to the encoding without an
-- error, and its pieces are the sums of the blocks of the padded files, in the order of their paths.
pub build_accepts :
    (h : Sums) (merkle : Merkle) (name : Text) (files : List TorrentFile) (opt : ℕ) (v1_only : Bool)
    (extra : List Text)
    → (name ≟ [] || contains_byte slash name || contains_byte backslash name) ≡ false
    → 0 < length files
    → is_piece_length (if opt == 0 then piece_length_for (total_size files) else opt) ≡ true
    → first_duplicate (sort_files files) ≡ none
    → All IsReadable files
    → All (IsFree v1_only) extra
    → (layout : Layout) × (build h merkle name files opt v1_only extra ≡ ok layout)
      × (layout.pieces ≡ concat (map (file_sums h layout.piece_length) (sort_files files)))
unfolding build
build_accepts h merkle name files opt v1_only extra named some_files valid distinct readable free =
    let (layout, built) = IsOk-ok (build h merkle name files opt v1_only extra) (
      IsOk->>= (build_layout h merkle name files opt) (add_extra v1_only extra)
        (build_layout-IsOk h merkle name files opt named some_files valid distinct readable)
        (λ first _. add_extra-IsOk v1_only extra first free)) in
    let (_, _, _, pieces_ok) = build-BuiltFrom h merkle name files opt v1_only extra layout built in
    (layout, built, pieces_ok)
