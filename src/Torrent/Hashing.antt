-- ===== src/Torrent/Hashing.antt =====
-- What `hashFile`, the padding and the loop of `Build` feed to the piece hasher.
use mathlib.Core.Path.{subst}
use weightkeep.Prelude.{
  ℕ, zero, suc, ◌+◌, ◌-◌, ◌*◌, ◌%◌, ◌≤◌, ◌<◌, Text, List, [], ◌∷◌, ◌++◌, Bool, true, false, not,
  ltb, ◌==◌, ◌≟◌, ≟_iff, if◌then◌else◌, if_cases, min, length, take, drop, length-append,
  length-take, length-drop, drop-drop, take_all, append-nil, Result, ok, err, >>=_cases, ◌≡◌, refl,
  sym, ap, ◌∙◌, ◌⊎◌, inl, inr, arith,
}
use weightkeep.Torrent.Pieces.{Sums, zeros, V1Pieces, write_pieces, write_zeros}
use weightkeep.Torrent.Feeding.{
  length-zeros, feed, feed-append, HasRoom, feed-HasRoom, write_pieces-feed, write_zeros-feed,
}
use weightkeep.Torrent.Blocks.{
  pieces_in, pieces_in-full, pieces_in-Fills, Fills, Fills-zero, blocks, sums_in, feed-blocks,
}
use weightkeep.Torrent.Build.{
  TorrentFile, BuildError, Merkle, FileSums, piece_hash, InfoFile, read_rounds, sums_of, hash_file,
  padding, info_files, pad_file,
}

-- Two ways to take more of a text.
take-take-drop : (k n : ℕ) (s : Text) → k ≤ n → take k s ++ take (n - k) (drop k s) ≡ take n s
take-take-drop zero n s le = let e : n - 0 ≡ n = omega arith in ap (λ m. take m s) e
take-take-drop (suc k) zero s le = absurd (omega arith)
take-take-drop (suc k) (suc n) [] le = take_all (suc n - suc k) [] (omega arith)
take-take-drop (suc k) (suc n) (c ∷ s) le =
    let e : suc n - suc k ≡ n - k = omega arith in rw (e, take-take-drop k n s (omega arith)) refl

-- An empty file is not read; any other has exactly the size that the builder was told.
abbrev pub IsWhole : TorrentFile → Type 0
IsWhole f = (f.size ≡ 0) ⊎ (length f.source.bytes ≡ f.size)

-- A file followed by its padding, and the sums of its pieces.
abbrev pub padded : ℕ → TorrentFile → Text
padded pl f = f.source.bytes ++ zeros (padding pl f.size)

abbrev pub file_sums : Sums → ℕ → TorrentFile → Text
file_sums h pl f = sums_in h pl (blocks pl (pieces_in pl f.size) (padded pl f))

abbrev pub file_infos : ℕ → List TorrentFile → List InfoFile
file_infos pl [] = []
file_infos pl (f ∷ fs) = info_files pl f ++ file_infos pl fs

module _ (h : Sums) (merkle : Merkle) (pl : ℕ) (positive : 0 < pl) where
  -- What a successful loop has read and fed.
  abbrev pub Read : ℕ → Text → V1Pieces → Result BuildError (List Text × Text × V1Pieces) → Type 0
  Read left rest v (err e) = Unit
  Read left rest v (ok (hashes, unread, w)) =
      (left ≤ length rest) × (unread ≡ drop left rest) × (w ≡ feed h pl (take left rest) v)

  Read-step :
      (k left : ℕ) (rest : Text) (v : V1Pieces)
      (r : Result BuildError (List Text × Text × V1Pieces))
      → k ≤ left
      → k ≤ length rest
      → Read (left - k) (drop k rest) (feed h pl (take k rest) v) r
      → Read left rest v r
  Read-step k left rest v (err e) le room step = tt
  Read-step k left rest v (ok (hashes, unread, w)) le room (enough, e, fed) = (
    omega (arith, enough, length-drop k rest),
    e
        ∙ drop-drop (left - k) k rest
        ∙ (let s : k + (left - k) ≡ left = omega arith in ap (λ m. drop m rest) s),
    fed
        ∙ sym (feed-append h pl (take k rest) (take (left - k) (drop k rest)) v)
        ∙ ap (λ t. feed h pl t v) (take-take-drop k left rest le),
  )

  pub read_rounds-Read :
      (rounds : ℕ) (f : TorrentFile) (left : ℕ) (rest : Text) (hashes : List Text) (v : V1Pieces)
      → left ≤ rounds
      → HasRoom h pl v
      → Read left rest v (read_rounds h merkle pl rounds f left rest hashes v)
  unfolding read_rounds
  read_rounds-Read zero f zero rest hashes v enough room = (omega arith, refl, unfold feed in refl)
  read_rounds-Read zero f (suc left) rest hashes v enough room = absurd (omega arith)
  read_rounds-Read (suc rounds) f zero rest hashes v enough room =
      (omega arith, refl, unfold feed in refl)
  read_rounds-Read (suc rounds) f (suc left) rest hashes v enough room =
      let want = min pl (suc left) in
      let piece = take want rest in
      let more_hashes = hashes ++ piece_hash h merkle pl f.size piece ∷ [] in
      if_cases (Read (suc left) rest v) (ltb (length piece) want) _ _ (λ short. tt)
        (λ full.
          let fits : want ≤ length rest = ground (arith, length-take want rest) in
          let w = write_pieces h pl piece v in
          let fed : w ≡ feed h pl piece v = write_pieces-feed h pl piece v room in
          Read-step want (suc left) rest v _ (omega arith) fits (
            subst
              (λ u.
                Read (suc left - want) (drop want rest) u (
                  read_rounds h merkle pl rounds f (suc left - want) (drop want rest) more_hashes
                    w))
              fed
              (read_rounds-Read rounds f (suc left - want) (drop want rest) more_hashes w
                (omega (arith, enough)) (rw fed (feed-HasRoom h pl piece v room)))))

  -- What a file adds to an empty piece, once it is padded.
  abbrev pub Hashed : TorrentFile → V1Pieces → Result BuildError (FileSums × V1Pieces) → Type 0
  Hashed f v (err e) = Unit
  Hashed f v (ok (sums, w)) =
      IsWhole f
      × (pad_file h pl f.size w ≡ record { cur = []; pieces = v.pieces ++ file_sums h pl f })

  pad_file-feed :
      (size : ℕ) (v : V1Pieces)
      → HasRoom h pl v
      → pad_file h pl size v ≡ feed h pl (zeros (padding pl size)) v
  unfolding pad_file padding
  pad_file-feed size v room = go (size % pl == 0) (pl - size % pl)
    where
      go :
          (whole : Bool) (pad : ℕ)
          → (if whole then v else write_zeros h pl (if whole then 0 else pad) v)
            ≡ feed h pl (zeros (if whole then 0 else pad)) v
      go true pad = unfold feed in refl
      go false pad = write_zeros-feed h pl pad v room

  hash_file-empty :
      (f : TorrentFile) (v : V1Pieces)
      → f.size ≡ 0
      → v.cur ≡ []
      → pad_file h pl f.size v ≡ record { cur = []; pieces = v.pieces ++ file_sums h pl f }
  hash_file-empty f v none empty =
      let q : pieces_in pl f.size ≡ 0 =
        Fills-zero pl (pieces_in pl f.size)
          (subst (Fills pl (pieces_in pl f.size)) none (pieces_in-Fills pl f.size positive)) in
      let full : f.size + padding pl f.size ≡ 0 * pl =
        pieces_in-full pl f.size positive ∙ ap (λ n. n * pl) q in
      let pad : padding pl f.size ≡ 0 = omega arith in
      pad_file-feed f.size v (rw empty positive)
      ∙ (unfold feed in rw (pad, q, empty, append-nil v.pieces) refl)

  hash_file-whole :
      (f : TorrentFile) (v : V1Pieces)
      → length f.source.bytes ≡ f.size
      → v.cur ≡ []
      → pad_file h pl f.size (feed h pl f.source.bytes v)
        ≡ record { cur = []; pieces = v.pieces ++ file_sums h pl f }
  hash_file-whole f v whole empty =
      let room : HasRoom h pl v = rw empty positive in
      pad_file-feed f.size (feed h pl f.source.bytes v) (feed-HasRoom h pl f.source.bytes v room)
      ∙ sym (feed-append h pl f.source.bytes (zeros (padding pl f.size)) v)
      ∙ feed-blocks h pl (pieces_in pl f.size) (padded pl f) v positive
          (length-append {0} f.source.bytes (zeros (padding pl f.size))
            ∙ omega
                (arith, whole, length-zeros (padding pl f.size), pieces_in-full pl f.size positive))
          empty

  sums_of-Hashed :
      (f : TorrentFile) (v : V1Pieces) (r : List Text × Text × V1Pieces)
      → v.cur ≡ []
      → Read f.size f.source.bytes v (ok r)
      → Hashed f v (sums_of h merkle pl f r)
  unfolding sums_of
  sums_of-Hashed f v (hashes, unread, w) empty (enough, e, fed) =
      if_cases (Hashed f v) (not (unread ≟ [])) _ _ (λ extra. tt)
        (λ none_left.
          let size : length f.source.bytes ≡ f.size = omega (
            arith,
            enough,
            ap length e,
            length-drop f.size f.source.bytes,
            ap length ((≟_iff unread []).0 (ground arith)),
          ) in
          let whole : w ≡ feed h pl f.source.bytes v =
            fed ∙ ap (λ t. feed h pl t v) (take_all f.size f.source.bytes (omega (arith, size))) in
          let padded_up = ap (pad_file h pl f.size) whole ∙ hash_file-whole f v size empty in
          if_cases (Hashed f v) (ltb pl f.size) _ _ (λ _. (inr size, padded_up))
            (λ _. (inr size, padded_up)))

  pub hash_file-Hashed :
      (f : TorrentFile) (v : V1Pieces) → v.cur ≡ [] → Hashed f v (hash_file h merkle pl f v)
  unfolding hash_file
  hash_file-Hashed f v empty =
      if_cases (Hashed f v) (f.size == 0) _ _
        (λ none. let e : f.size ≡ 0 = ground arith in (inl e, hash_file-empty f v e empty))
        (λ some.
          if_cases (Hashed f v) (not f.source.opens) _ _ (λ _. tt)
            (λ _.
              >>=_cases (Hashed f v) (read_rounds h merkle pl f.size f f.size f.source.bytes [] v)
                (sums_of h merkle pl f) (λ e. tt)
                (λ r e. sums_of-Hashed f v r empty (
                  subst (Read f.size f.source.bytes v) e (
                    read_rounds-Read f.size f f.size f.source.bytes [] v (omega arith)
                      (rw empty positive))))))
