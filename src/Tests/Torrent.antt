-- ===== src/Tests/Torrent.antt =====
-- A torrent of two small files.
use weightkeep.Prelude.{
  concat, map, ℕ, zero, suc, ◌*◌, ◌^◌, ◌/◌, codes, Text, List, [], ◌∷◌, true, false, none, some,
  Option, length, replicate, contains_byte, sort_by, text_less, ◌||◌, ok, get, ◌≟◌, if◌then◌else◌,
  ◌≡◌, refl, arith, inr, ◌≢◌,
}
use weightkeep.Ids.{slash, backslash}
use weightkeep.Torrent.Length.{
  IsChosen, is_piece_length, piece_length_for, piece_length_for-IsChosen,
}
use weightkeep.Torrent.Pieces.{Sums, no_pieces, write_pieces}
use weightkeep.Torrent.Feeding.{feed, write_pieces-feed}
use weightkeep.Torrent.Build.{TorrentFile, Merkle, Layout, build, first_duplicate, sort_files}
use weightkeep.Torrent.Storage.{
  PieceLoc, AlignedStorage, Files, new_aligned_storage, no_fault, read_at, write_at,
}
use weightkeep.Torrent.Offsets.{at_offsets, at_offsets-IsPlaced}
use weightkeep.Torrent.Served.{served}
use weightkeep.Torrent.Hashing.{file_sums}
use weightkeep.Torrent.Agreement.{build-served}
use weightkeep.Torrent.Acceptance.{build_accepts}
use weightkeep.Torrent.Writing.{write_at-read_at}

piece_length_for-IsChosen_example : IsChosen (3 * 10 ^ 11) (16 * 2 ^ 20)
unfolding piece_length_for
piece_length_for-IsChosen_example = piece_length_for-IsChosen (3 * 10 ^ 11)

length-replicate : (n b : ℕ) → length (replicate n b) ≡ n
length-replicate zero b = refl
length-replicate (suc n) b = omega (arith, length-replicate n b)

-- A toy hash: as many bytes as it should have, all the length of the text.
abbrev sums : Sums
sums = record {
  sum1 = λ s. replicate 20 (length s);
  sum256 = λ s. replicate 32 (length s);
  sum1_length = λ s. length-replicate 20 (length s);
  sum256_length = λ s. length-replicate 32 (length s);
}

abbrev merkle : Merkle
merkle = record {
  sum = λ s. replicate 32 (length s);
  sum_min_length = λ n s. replicate 32 (length s);
  root_with_pad_hash = λ hashes pad. replicate 32 (length hashes);
}

-- Pieces of four bytes: two are full, and one byte is left.
nine_bytes :
    write_pieces sums 4 (codes "123456789") no_pieces
    ≡ record { cur = codes "9"; pieces = replicate 40 4 }
unfolding write_pieces
nine_bytes = refl

write_pieces-feed_example :
    write_pieces sums 4 (codes "123456789") no_pieces ≡ feed sums 4 (codes "123456789") no_pieces
write_pieces-feed_example = write_pieces-feed sums 4 (codes "123456789") no_pieces (omega arith)

abbrev file_of : Text → Text → TorrentFile
file_of path bytes = record {
  path = path;
  size = length bytes;
  source = record { opens = true; bytes = bytes; breaks = false };
}

abbrev files : List TorrentFile
files = file_of (codes "b/c") (codes "there") ∷ file_of (codes "a") (codes "hi") ∷ []

sorted : first_duplicate (sort_files files) ≡ none
unfolding first_duplicate sort_files sort_by ◌≟◌ text_less
sorted = refl

named :
    (codes "0123" ≟ []
      || contains_byte slash (codes "0123")
      || contains_byte backslash (codes "0123"))
    ≡ false
unfolding ◌≟◌
named = refl

valid : is_piece_length 16384 ≡ true
unfolding is_piece_length
valid = refl

-- One key of `InfoExtra`.
abbrev comment : List Text
comment = codes "source" ∷ []

abbrev built :
    (layout : Layout) × (build sums merkle (codes "0123") files 16384 false comment ≡ ok layout)
    × (layout.pieces ≡ concat (map (file_sums sums layout.piece_length) (sort_files files)))
built =
    build_accepts sums merkle (codes "0123") files 16384 false comment named (omega arith) valid
      sorted (inr (refl, refl), (inr (refl, refl), tt)) (unfold ◌≟◌ in (refl, tt))

build_accepts_example :
    (layout : Layout) × (build sums merkle (codes "0123") files 16384 false comment ≡ ok layout)
    × (layout.pieces ≡ concat (map (file_sums sums layout.piece_length) (sort_files files)))
build_accepts_example =
    build_accepts sums merkle (codes "0123") files 16384 false comment named (omega arith) valid
      sorted (inr (refl, refl), (inr (refl, refl), tt)) (unfold ◌≟◌ in (refl, tt))

-- The store has the files under other names.
abbrev path_for : Text → Option Text
path_for p =
    if p ≟ codes "a"
    then some (codes "blobs/1")
    else if p ≟ codes "b/c"
    then some (codes "blobs/2")
    else none

abbrev disk : Files
disk = (codes "blobs/1", codes "hi") ∷ (codes "blobs/2", codes "there") ∷ []

build-served_example :
    (storage : AlignedStorage) × (new_aligned_storage built.0.piece_length
        (length built.0.pieces / 20)
        (at_offsets 0 built.0.files)
        path_for
        false
      ≡ ok storage)
    × (served sums built.0.piece_length disk storage.pieces ≡ ok built.0.pieces)
unfolding get ◌≟◌
build-served_example =
    build-served sums merkle (codes "0123") files 16384 built.0 (at_offsets 0 built.0.files)
      path_for disk false false comment built.1 (at_offsets-IsPlaced 0 built.0.files)
      ((λ _. (codes "blobs/2", refl, refl)), ((λ _. (codes "blobs/1", refl, refl)), tt))

-- A piece of three bytes of data in a file that has two of them; the last two bytes are padding.
abbrev loc : PieceLoc
loc = record { path = codes "f"; file_off = 4; data_bytes = 3 }

abbrev part : Files
part = (codes "f", codes "abcdef") ∷ []

write_at-read_at_example :
    let after = write_at no_fault true part loc (codes "XYZ") 1 in
    (after.1 ≡ ok 3)
    × (read_at after.0 loc 3 1 ≡ ok (88 ∷ 89 ∷ 0 ∷ []))
    × ((p : Text) → p ≢ codes "f" → get p after.0 ≡ get p part)
write_at-read_at_example = write_at-read_at part loc (codes "XYZ") 1
