-- ===== src/Torrent/Length.antt =====
-- internal/torrent/build.go: `PieceLengthFor`, and the test that `Build` makes of a piece length.
use Prim.Native.Nat.{bit_and}
use weightkeep.Prelude.{
  ℕ, zero, suc, ◌-◌, ◌*◌, ◌/◌, ◌^◌, ◌≤◌, ◌<◌, Bool, true, false, not, ◌&&◌, ◌||◌, ltb, ◌==◌, ◌≡◌,
  ◌⊎◌, inl, inr, refl, arith,
}

abbrev pub least_length : ℕ
least_length = 4 * 2 ^ 20

abbrev pub greatest_length : ℕ
greatest_length = 64 * 2 ^ 20

abbrev pub most_pieces : ℕ
most_pieces = 20_000

-- The condition of the loop.
unfoldable pub is_too_fine : ℕ → ℕ → Bool
is_too_fine total l = ltb l greatest_length && ltb most_pieces (total / l)

-- The loop, with the rounds that are left.
unfoldable pub double_while : ℕ → ℕ → ℕ → ℕ
unfolding is_too_fine
double_while zero total l = l
double_while (suc rounds) total l = elim (is_too_fine total l) [
  | true ↦ double_while rounds total (l * 2)
  | false ↦ l
]

-- From the least length the greatest is four doublings away.
unfoldable pub piece_length_for : ℕ → ℕ
unfolding double_while
piece_length_for total = double_while 4 total least_length

-- `merkle.BlockSize`
abbrev pub block_size : ℕ
block_size = 16 * 2 ^ 10

-- `!(pl < merkle.BlockSize || pl&(pl-1) != 0)`
unfoldable pub is_piece_length : ℕ → Bool
is_piece_length pl = not (ltb pl block_size || not (bit_and pl (pl - 1) == 0))

-- What the loop leaves: a length of the list, and no smaller one that would do.
abbrev pub IsChosen : ℕ → ℕ → Type 0
IsChosen total l =
    (is_piece_length l ≡ true)
    × (least_length ≤ l)
    × (l ≤ greatest_length)
    × (is_too_fine total l ≡ false)
    × ((l ≡ least_length) ⊎ (most_pieces < total / (l / 2)))

double_cases :
    (rounds total l : ℕ)
    → (is_too_fine total l ≡ true → IsChosen total (double_while rounds total (l * 2)))
    → (is_too_fine total l ≡ false → IsChosen total l)
    → IsChosen total (double_while (suc rounds) total l)
unfolding double_while
double_cases rounds total l more enough = go (is_too_fine total l) more enough
  where
    go :
        (b : Bool)
        → (b ≡ true → IsChosen total (double_while rounds total (l * 2)))
        → (b ≡ false → IsChosen total l)
        → IsChosen total (elim b [ true ↦ double_while rounds total (l * 2) | false ↦ l ])
    go true more enough = more refl
    go false more enough = enough refl

too_fine-lt : (total l : ℕ) → is_too_fine total l ≡ true → most_pieces < total / l
unfolding is_too_fine
too_fine-lt total l h = ground arith

greatest_is_enough : (total : ℕ) → is_too_fine total greatest_length ≡ false
unfolding is_too_fine
greatest_is_enough total = refl

-- Whatever the total, the piece length that is picked is one that `Build` accepts, from 4 to 64 MiB;
-- the loop has ended by its condition, so there are at most 20,000 full pieces or the length is the
-- greatest; and half of it would give more than that, unless it is the least.
pub piece_length_for-IsChosen : (total : ℕ) → IsChosen total (piece_length_for total)
unfolding piece_length_for is_piece_length
piece_length_for-IsChosen total =
    double_cases 3 total least_length
      (λ f1.
        double_cases 2 total (least_length * 2)
          (λ f2.
            double_cases 1 total (least_length * 4)
              (λ f3.
                double_cases 0 total (least_length * 8)
                  (λ f4.
                    unfold double_while in
                    (
                      refl,
                      omega arith,
                      omega arith,
                      greatest_is_enough total,
                      inr (too_fine-lt total (least_length * 8) f4),
                    ))
                  (λ e. (
                    refl,
                    omega arith,
                    omega arith,
                    e,
                    inr (too_fine-lt total (least_length * 4) f3),
                  )))
              (λ e.
                (refl, omega arith, omega arith, e, inr (too_fine-lt total (least_length * 2) f2))))
          (λ e. (refl, omega arith, omega arith, e, inr (too_fine-lt total least_length f1))))
      (λ e. (refl, omega arith, omega arith, e, inl refl))
