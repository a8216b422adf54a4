-- ===== src/Torrent/Feeding.antt =====
-- `Write` of `v1Pieces` against a machine that takes one byte at a time.
use weightkeep.Prelude.{
  ℕ, zero, suc, ◌+◌, ◌-◌, ◌≤◌, ◌<◌, Text, [], ◌∷◌, ◌++◌, min, length, take, drop, length-append,
  length-take, length-drop, take-append-drop, append_assoc, ◌≡◌, refl, sym, ap, ◌∙◌, arith,
}
use weightkeep.Torrent.Pieces.{
  Sums, zeros, V1Pieces, flush, flush_full, write_round, write_rounds, write_pieces, zero_rounds,
  write_zeros,
}

pub length-zeros : (k : ℕ) → length (zeros k) ≡ k
length-zeros zero = refl
length-zeros (suc k) = omega (arith, length-zeros k)

zeros-split : (k n : ℕ) → k ≤ n → zeros k ++ zeros (n - k) ≡ zeros n
zeros-split zero n le = ap zeros (omega arith)
zeros-split (suc k) zero le = absurd (omega arith)
zeros-split (suc k) (suc n) le =
    ap (λ t. 0 ∷ zeros k ++ zeros t) (omega arith) ∙ ap (λ t. 0 ∷ t) (zeros-split k n (omega arith))

module _ (h : Sums) (n : ℕ) where
  unfoldable pub feed_byte : ℕ → V1Pieces → V1Pieces
  unfolding flush_full
  feed_byte c v = flush_full h n (record v { cur = v.cur ++ c ∷ [] })

  unfoldable pub feed : Text → V1Pieces → V1Pieces
  unfolding feed_byte
  feed [] v = v
  feed (c ∷ s) v = feed s (feed_byte c v)

  pub feed-append : (s t : Text) (v : V1Pieces) → feed (s ++ t) v ≡ feed t (feed s v)
  unfolding feed
  feed-append [] t v = refl
  feed-append (c ∷ s) t v = feed-append s t (feed_byte c v)

  -- A piece that is not full is kept.
  flush_full_room : (v : V1Pieces) → length v.cur < n → flush_full h n v ≡ v
  unfolding flush_full
  flush_full_room v room = ground arith

  -- Bytes that at most fill the current piece are kept, and hashed when they fill it.
  pub feed_within :
      (c : ℕ) (s : Text) (v : V1Pieces)
      → length v.cur + length (c ∷ s) ≤ n
      → feed (c ∷ s) v ≡ flush_full h n (record v { cur = v.cur ++ c ∷ s })
  unfolding feed feed_byte
  feed_within c [] v within = refl
  feed_within c (d ∷ s) v within =
      let bigger : V1Pieces = record v { cur = v.cur ++ c ∷ [] } in
      let size : length bigger.cur ≡ length v.cur + 1 = length-append {0} v.cur (c ∷ []) in
      let kept : flush_full h n bigger ≡ bigger =
        flush_full_room bigger (omega (arith, size, within)) in
      ap (feed (d ∷ s)) kept
      ∙ feed_within d s bigger (omega (arith, size, within))
      ∙ ap (λ t. flush_full h n (record v { cur = t })) (append_assoc {0} v.cur (c ∷ []) (d ∷ s))

  -- There is room in the current piece.
  abbrev pub HasRoom : V1Pieces → Type 0
  HasRoom v = length v.cur < n

  flush_full-HasRoom : (v : V1Pieces) → 0 < n → length v.cur ≤ n → HasRoom (flush_full h n v)
  unfolding flush_full flush
  flush_full-HasRoom v positive within = ground arith

  pub feed-HasRoom : (s : Text) (v : V1Pieces) → HasRoom v → HasRoom (feed s v)
  unfolding feed feed_byte
  feed-HasRoom [] v room = room
  feed-HasRoom (c ∷ s) v room = feed-HasRoom s (feed_byte c v) (
      flush_full-HasRoom (record v { cur = v.cur ++ c ∷ [] }) (omega (arith, room))
        (omega (arith, room, length-append {0} v.cur (c ∷ []))))

  write_round-feed :
      (c : ℕ) (p : Text) (v : V1Pieces)
      → HasRoom v
      → write_round h n (c ∷ p) v ≡ feed (take (min (n - length v.cur) (length (c ∷ p))) (c ∷ p)) v
  unfolding write_round
  write_round-feed c p v room =
      go (min (n - length v.cur) (length (c ∷ p))) (omega (arith, room)) (omega (arith, room))
    where
      go :
          (k : ℕ)
          → 0 < k
          → length v.cur + k ≤ n
          → flush_full h n (record v { cur = v.cur ++ take k (c ∷ p) }) ≡ feed (take k (c ∷ p)) v
      go zero some within = absurd (omega arith)
      go (suc k) some within =
          sym (feed_within c (take k p) v (omega (arith, within, length-take k p)))

  write_rounds-feed :
      (rounds : ℕ) (p : Text) (v : V1Pieces)
      → length p ≤ rounds
      → HasRoom v
      → write_rounds h n rounds p v ≡ feed p v
  unfolding write_rounds
  write_rounds-feed zero [] v enough room = unfold feed in refl
  write_rounds-feed zero (c ∷ p) v enough room = absurd (omega arith)
  write_rounds-feed (suc rounds) [] v enough room = unfold feed in refl
  write_rounds-feed (suc rounds) (c ∷ p) v enough room =
      let k = min (n - length v.cur) (length (c ∷ p)) in
      let step : write_round h n (c ∷ p) v ≡ feed (take k (c ∷ p)) v =
        write_round-feed c p v room in
      ap (write_rounds h n rounds (drop k (c ∷ p))) step
      ∙ write_rounds-feed rounds (drop k (c ∷ p)) (feed (take k (c ∷ p)) v)
          (omega (arith, length-drop k (c ∷ p), enough, room))
          (feed-HasRoom (take k (c ∷ p)) v room)
      ∙ sym (feed-append (take k (c ∷ p)) (drop k (c ∷ p)) v)
      ∙ ap (λ t. feed t v) (take-append-drop k (c ∷ p))

  -- `Write` takes all its bytes, and does what the machine does with them one by one.
  pub write_pieces-feed : (p : Text) (v : V1Pieces) → HasRoom v → write_pieces h n p v ≡ feed p v
  unfolding write_pieces
  write_pieces-feed p v room = write_rounds-feed (length p) p v (omega arith) room

  zero_rounds-feed :
      (rounds most count : ℕ) (v : V1Pieces)
      → count ≤ rounds
      → (0 < count → 0 < most)
      → HasRoom v
      → zero_rounds h n rounds most count v ≡ feed (zeros count) v
  unfolding zero_rounds
  zero_rounds-feed zero most zero v enough some room = unfold feed in refl
  zero_rounds-feed zero most (suc count) v enough some room = absurd (omega arith)
  zero_rounds-feed (suc rounds) most zero v enough some room = unfold feed in refl
  zero_rounds-feed (suc rounds) most (suc count) v enough some room =
      let k = min (suc count) most in
      let positive = some (omega arith) in
      ap (zero_rounds h n rounds most (suc count - k)) (write_pieces-feed (zeros k) v room)
      ∙ zero_rounds-feed rounds most (suc count - k) (feed (zeros k) v)
          (omega (arith, enough, positive)) (λ _. positive) (feed-HasRoom (zeros k) v room)
      ∙ sym (feed-append (zeros k) (zeros (suc count - k)) v)
      ∙ ap (λ t. feed t v) (zeros-split k (suc count) (omega arith))

  pub write_zeros-feed :
      (count : ℕ) (v : V1Pieces) → HasRoom v → write_zeros h n count v ≡ feed (zeros count) v
  unfolding write_zeros
  write_zeros-feed count v room =
      zero_rounds-feed count (min count 1048576) count v (omega arith) (λ p. omega arith) room
