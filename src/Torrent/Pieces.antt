-- ===== src/Torrent/Pieces.antt =====
-- internal/torrent/build.go: `v1Pieces`, which hashes all files and their padding in pieces.
use weightkeep.Prelude.{
  ℕ, zero, suc, ◌-◌, Text, [], ◌∷◌, ◌++◌, ltb, ◌==◌, if◌then◌else◌, min, length, take, drop,
  replicate, ◌≡◌,
}

-- What the builder relies on of crypto/sha1 and crypto/sha256: raw sums of 20 and 32 bytes.
pub record Sums : Type 0 where
  pub sum1 : Text → Text
  pub sum256 : Text → Text
  pub sum1_length : (s : Text) → length (sum1 s) ≡ 20
  pub sum256_length : (s : Text) → length (sum256 s) ≡ 32

abbrev pub zeros : ℕ → Text
zeros count = replicate count 0

-- The length of a piece is an argument of the operations.
pub record V1Pieces : Type 0 where
  pub cur : Text
  pub pieces : Text

abbrev pub no_pieces : V1Pieces
no_pieces = record { cur = []; pieces = [] }

module _ (h : Sums) (n : ℕ) where
  unfoldable pub flush : V1Pieces → V1Pieces
  flush v = record { cur = []; pieces = v.pieces ++ h.sum1 v.cur }

  unfoldable pub flush_full : V1Pieces → V1Pieces
  unfolding flush
  flush_full v = if length v.cur == n then flush v else v

  -- One round of the loop in `Write`, which takes `min(v.length-len(v.cur), len(p))` bytes.
  unfoldable pub write_round : Text → V1Pieces → V1Pieces
  unfolding flush_full
  write_round p v =
      flush_full (record v { cur = v.cur ++ take (min (n - length v.cur) (length p)) p })

  -- The loop in `Write`: a round takes at least one byte, so the length of `p` bounds the rounds.
  unfoldable pub write_rounds : ℕ → Text → V1Pieces → V1Pieces
  unfolding write_round
  write_rounds zero p v = v
  write_rounds (suc rounds) [] v = v
  write_rounds (suc rounds) (c ∷ p) v =
      let k = min (n - length v.cur) (length (c ∷ p)) in
      write_rounds rounds (drop k (c ∷ p)) (write_round (c ∷ p) v)

  -- `Write`
  unfoldable pub write_pieces : Text → V1Pieces → V1Pieces
  unfolding write_rounds
  write_pieces p v = write_rounds (length p) p v

  -- The loop of `writeZeros`, which writes at most `most` zeros at a time.
  unfoldable pub zero_rounds : ℕ → ℕ → ℕ → V1Pieces → V1Pieces
  unfolding write_pieces
  zero_rounds zero most count v = v
  zero_rounds (suc rounds) most zero v = v
  zero_rounds (suc rounds) most (suc count) v =
      let k = min (suc count) most in
      zero_rounds rounds most (suc count - k) (write_pieces (zeros k) v)

  -- `writeZeros`
  unfoldable pub write_zeros : ℕ → V1Pieces → V1Pieces
  unfolding zero_rounds
  write_zeros count v = zero_rounds count (min count 1048576) count v

  unfoldable pub finish_pieces : V1Pieces → V1Pieces
  unfolding flush
  finish_pieces v = if ltb 0 (length v.cur) then flush v else v
