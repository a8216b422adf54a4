-- ===== src/Torrent/Build.antt =====
-- internal/torrent/build.go: `Build` up to the dictionary that it encodes, with `hashFile`,
-- `padHash` and `pathLess`.
use weightkeep.Prelude.{
  ℕ, zero, suc, ◌+◌, ◌-◌, ◌/◌, ◌%◌, Text, codes, List, [], ◌∷◌, ◌++◌, Bool, true, false, not, ◌||◌,
  ltb, ◌==◌, ◌≟◌, if◌then◌else◌, Option, none, some, Result, ok, err, ◌>>=◌, min, length, take,
  drop, split, contains_byte, format_int, sort_by, text_less, concat, any,
}
use weightkeep.Ids.{slash, backslash}
use weightkeep.Torrent.Length.{block_size, piece_length_for, is_piece_length}
use weightkeep.Torrent.Pieces.{
  Sums, zeros, V1Pieces, no_pieces, write_pieces, write_zeros, finish_pieces,
}

-- What opening and reading a file gives: nothing, or bytes with an end or an error after them.
pub record Source : Type 0 where
  pub opens : Bool
  pub bytes : Text
  pub breaks : Bool

pub record TorrentFile : Type 0 where
  pub path : Text
  pub size : ℕ
  pub source : Source

pub data BuildError : Type 0 where
  bad_name no_files bad_piece_length : BuildError
  duplicate_path cannot_open cannot_read too_short too_long reserved_key : Text → BuildError
  -- The model's own: a loop has no rounds left.
  out_of_rounds : Text → BuildError

-- The Merkle trees of github.com/anacrolix/torrent/merkle: the root of the blocks of a piece, the
-- same padded to a length, and the root over the hashes of pieces with a padding hash.
pub record Merkle : Type 0 where
  pub sum : Text → Text
  pub sum_min_length : ℕ → Text → Text
  pub root_with_pad_hash : List Text → Text → Text

-- What `hashFile` returns: the pieces root, the piece layer and the SHA-256.
pub record FileSums : Type 0 where
  pub root : Text
  pub layer : Text
  pub sum : Text

-- An entry of the file list of the info dictionary.
pub record InfoFile : Type 0 where
  pub is_pad : Bool
  pub length : ℕ
  pub path : List Text

-- What the dictionary is made of.
pub record Layout : Type 0 where
  pub piece_length : ℕ
  pub files : List InfoFile
  pub pieces : Text
  pub sums : List (Text × FileSums)

-- `pathLess`, on the components.
unfoldable pub parts_less : List Text → List Text → Bool
parts_less [] [] = false
parts_less [] (b ∷ qs) = true
parts_less (a ∷ ps) [] = false
parts_less (a ∷ ps) (b ∷ qs) =
    let rest = parts_less ps qs in if not (a ≟ b) then text_less a b else rest

unfoldable pub path_less : Text → Text → Bool
unfolding parts_less
path_less a b = parts_less (split slash a) (split slash b)

-- The loop that looks for a duplicate among neighbours.
unfoldable pub first_duplicate : List TorrentFile → Option Text
first_duplicate [] = none
first_duplicate (f ∷ []) = none
first_duplicate (f ∷ g ∷ fs) =
    let rest = first_duplicate (g ∷ fs) in if g.path ≟ f.path then some g.path else rest

module _ (pl : ℕ) where
  -- The bytes that fill the last piece of a file of this size.
  unfoldable pub padding : ℕ → ℕ
  padding size = if size % pl == 0 then 0 else pl - size % pl

  unfoldable pub info_files : TorrentFile → List InfoFile
  unfolding padding
  info_files f =
      record { is_pad = false; length = f.size; path = split slash f.path }
      ∷ (if f.size % pl == 0
          then []
          else record {
            is_pad = true;
            length = padding f.size;
            path = codes ".pad" ∷ format_int (padding f.size) ∷ [];
          }
            ∷ [])

module _ (h : Sums) (pl : ℕ) where
  unfoldable pub pad_file : ℕ → V1Pieces → V1Pieces
  unfolding padding
  pad_file size v = if size % pl == 0 then v else write_zeros h pl (padding pl size) v

module _ (h : Sums) (merkle : Merkle) (pl : ℕ) where
  -- The loop of `padHash`, with the rounds that are left.
  unfoldable pub pad_rounds : ℕ → ℕ → Text → Text
  pad_rounds zero n s = s
  pad_rounds (suc rounds) n s =
      let more = pad_rounds rounds (n / 2) (h.sum256 (s ++ s)) in if ltb 1 n then more else s

  unfoldable pub pad_hash : Text
  unfolding pad_rounds
  pad_hash = pad_rounds pl (pl / block_size) (zeros 32)

  unfoldable pub piece_hash : ℕ → Text → Text
  piece_hash size s = if ltb pl size then merkle.sum_min_length pl s else merkle.sum s

  -- The loop of `hashFile`: `left` bytes of the size are still to be read, `rest` is what the reader
  -- still has. To have no rounds left before the size is read is an error of its own.
  unfoldable pub read_rounds :
      ℕ
      → TorrentFile
      → ℕ
      → Text
      → List Text
      → V1Pieces
      → Result BuildError (List Text × Text × V1Pieces)
  unfolding piece_hash
  read_rounds zero f zero rest hashes v = ok (hashes, rest, v)
  read_rounds zero f (suc left) rest hashes v = err (out_of_rounds f.path)
  read_rounds (suc rounds) f zero rest hashes v = ok (hashes, rest, v)
  read_rounds (suc rounds) f (suc left) rest hashes v =
      let want = min pl (suc left) in
      let piece = take want rest in
      let more =
        read_rounds rounds f (suc left - want) (drop want rest)
          (hashes ++ piece_hash f.size piece ∷ []) (write_pieces h pl piece v) in
      if ltb (length piece) want
      then err (if f.source.breaks then cannot_read f.path else too_short f.path)
      else more

  -- What `hashFile` does after the loop.
  unfoldable pub sums_of :
      TorrentFile → List Text × Text × V1Pieces → Result BuildError (FileSums × V1Pieces)
  sums_of f (hashes, rest, v) =
      let sum = h.sum256 (take f.size f.source.bytes) in
      if not (rest ≟ [])
      then err (too_long f.path)
      else if ltb pl f.size
      then ok (
        record {
          root = merkle.root_with_pad_hash hashes pad_hash;
          layer = concat hashes;
          sum = sum;
        },
        v,
      )
      else ok (record { root = concat (take 1 hashes); layer = []; sum = sum }, v)

  unfoldable pub hash_file : TorrentFile → V1Pieces → Result BuildError (FileSums × V1Pieces)
  unfolding read_rounds sums_of
  hash_file f v =
      if f.size == 0
      then ok (record { root = zeros 32; layer = []; sum = h.sum256 [] }, v)
      else if not f.source.opens
      then err (cannot_open f.path)
      else read_rounds f.size f f.size f.source.bytes [] v >>= sums_of f

  -- The loop of `Build` over the sorted files.
  unfoldable pub add_files :
      List TorrentFile
      → List InfoFile
      → List (Text × FileSums)
      → V1Pieces
      → Result BuildError Layout
  unfolding info_files
  add_files [] infos sums v = ok (record {
    piece_length = pl;
    files = infos;
    pieces = (finish_pieces h pl v).pieces;
    sums = sums;
  })
  add_files (f ∷ fs) infos sums v = hash_file f v >>= λ r.
      add_files fs (infos ++ info_files pl f) (sums ++ (f.path, r.0) ∷ [])
        (pad_file h pl f.size r.1)

abbrev pub total_size : List TorrentFile → ℕ
total_size [] = 0
total_size (f ∷ fs) = f.size + total_size fs

unfoldable pub sort_files : List TorrentFile → List TorrentFile
unfolding path_less
sort_files files = sort_by (λ f g. path_less f.path g.path) files

-- `Build` up to the info dictionary, with the piece length of the options; zero picks one.
unfoldable pub build_layout : Sums → Merkle → Text → List TorrentFile → ℕ → Result BuildError Layout
unfolding sort_files first_duplicate
build_layout h merkle name files length_option =
    let pl = if length_option == 0 then piece_length_for (total_size files) else length_option in
    let sorted = sort_files files in
    if name ≟ [] || contains_byte slash name || contains_byte backslash name
    then err bad_name
    else if length files == 0
    then err no_files
    else if not (is_piece_length pl)
    then err bad_piece_length
    else elim (first_duplicate sorted) [
      | some path ↦ err (duplicate_path path)
      | none ↦ add_files h merkle pl sorted [] [] no_pieces
    ]

-- The keys of the info dictionary, which `InfoExtra` may not have.
abbrev pub info_keys : Bool → List Text
info_keys v1_only =
    codes "files"
    ∷ codes "name"
    ∷ codes "piece length"
    ∷ codes "pieces"
    ∷ (if v1_only then [] else codes "file tree" ∷ codes "meta version" ∷ [])

unfoldable pub add_extra : Bool → List Text → Layout → Result BuildError Layout
add_extra v1_only [] layout = ok layout
add_extra v1_only (k ∷ keys) layout =
    let rest = add_extra v1_only keys layout in
    if any (λ taken. taken ≟ k) (info_keys v1_only) then err (reserved_key k) else rest

-- `Build` up to the encoding, with the keys of `InfoExtra`.
unfoldable pub build :
    Sums → Merkle → Text → List TorrentFile → ℕ → Bool → List Text → Result BuildError Layout
unfolding build_layout add_extra
build h merkle name files length_option v1_only extra =
    build_layout h merkle name files length_option >>= add_extra v1_only extra
