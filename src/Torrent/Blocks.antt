-- ===== src/Torrent/Blocks.antt =====
-- Padded texts as the pieces they are made of, and what the piece hasher makes of them.
use weightkeep.Prelude.{
  ℕ, zero, suc, ◌+◌, ◌-◌, ◌*◌, ◌/◌, ◌%◌, ◌<◌, Text, List, [], ◌∷◌, ◌++◌, ◌==◌, if_cases, length,
  take, drop, map, concat, length-take, length-drop, take-append-drop, append_assoc, append-nil,
  ◌≡◌, refl, sym, ap, ◌∙◌, arith,
}
use weightkeep.Torrent.Pieces.{Sums, V1Pieces, flush, flush_full}
use weightkeep.Torrent.Feeding.{feed, feed-append, feed_within}
use weightkeep.Torrent.Build.{padding}

pub mul-mod : (n m : ℕ) → 0 < m → (n * m) % m ≡ 0
mul-mod n m positive = grind arith

pub mul-div : (n m : ℕ) → 0 < m → (n * m) / m ≡ n
mul-div n m positive = grind arith

module _ (pl : ℕ) where
  -- The number of pieces that hold `size` bytes, padded.
  unfoldable pub pieces_in : ℕ → ℕ
  pieces_in size = (size + padding pl size) / pl

  abbrev pub blocks : ℕ → Text → List Text
  blocks zero s = []
  blocks (suc q) s = take pl s ∷ blocks q (drop pl s)

  -- It takes exactly `q` pieces to hold `left` bytes.
  abbrev pub Fills : ℕ → ℕ → Type 0
  Fills zero left = left ≡ 0
  Fills (suc q) left = (0 < left) × Fills q (left - pl)

  pub Fills-zero : (q : ℕ) → Fills q 0 → q ≡ 0
  Fills-zero zero f = refl
  Fills-zero (suc q) (some, f) = absurd (omega arith)

  padding-full : (size : ℕ) → 0 < pl → ((size + padding pl size) % pl ≡ 0) × (padding pl size < pl)
  unfolding padding
  padding-full size positive =
      if_cases (λ pad. ((size + pad) % pl ≡ 0) × (pad < pl)) (size % pl == 0) 0 (pl - size % pl)
        (λ whole. (ground arith, positive))
        (λ part. (
          let e : size + (pl - size % pl) ≡ suc (size / pl) * pl = omega arith in
              rw (e, mul-mod (suc (size / pl)) pl positive) refl,
          ground arith,
        ))

  pub pieces_in-full : (size : ℕ) → 0 < pl → size + padding pl size ≡ pieces_in size * pl
  unfolding pieces_in
  pieces_in-full size positive = omega (arith, padding-full size positive)

  fills : (q left pad : ℕ) → pad < pl → left + pad ≡ q * pl → Fills q left
  fills zero left pad short full = omega arith
  fills (suc zero) left pad short full = (omega arith, omega arith)
  fills (suc (suc q)) left pad short full =
      (omega arith, fills (suc q) (left - pl) pad short (omega arith))

  pub pieces_in-Fills : (size : ℕ) → 0 < pl → Fills (pieces_in size) size
  pieces_in-Fills size positive =
      fills (pieces_in size) size (padding pl size) (padding-full size positive).1
        (pieces_in-full size positive)

module _ (h : Sums) (pl : ℕ) where
  abbrev pub sums_in : List Text → Text
  sums_in bs = concat (map h.sum1 bs)

  feed_piece :
      (p : Text) (v : V1Pieces)
      → 0 < pl
      → length p ≡ pl
      → v.cur ≡ []
      → feed h pl p v ≡ record { cur = []; pieces = v.pieces ++ h.sum1 p }
  unfolding flush_full flush
  feed_piece [] v positive full empty = absurd (omega arith)
  feed_piece (c ∷ p) v positive full empty =
      feed_within h pl c p v (rw empty (omega arith)) ∙ rw empty (ground arith)

  -- From an empty piece the hasher appends the sums of whole pieces, and its piece is empty again.
  pub feed-blocks :
      (q : ℕ) (s : Text) (v : V1Pieces)
      → 0 < pl
      → length s ≡ q * pl
      → v.cur ≡ []
      → feed h pl s v ≡ record { cur = []; pieces = v.pieces ++ sums_in (blocks pl q s) }
  feed-blocks zero [] v positive full empty = unfold feed in rw (empty, append-nil v.pieces) refl
  feed-blocks zero (c ∷ s) v positive full empty = absurd (omega arith)
  feed-blocks (suc q) s v positive full empty =
      let p = take pl s in
      let next : V1Pieces = record { cur = []; pieces = v.pieces ++ h.sum1 p } in
      sym (ap (λ t. feed h pl t v) (take-append-drop pl s))
      ∙ feed-append h pl p (drop pl s) v
      ∙ ap (feed h pl (drop pl s)) (feed_piece p v positive (omega (arith, length-take pl s)) empty)
      ∙ feed-blocks q (drop pl s) next positive (omega (arith, length-drop pl s)) refl
      ∙ ap (λ t. record { cur = []; pieces = t })
          (append_assoc {0} v.pieces (h.sum1 p) (sums_in (blocks pl q (drop pl s))))
