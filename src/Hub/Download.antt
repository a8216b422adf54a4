-- ===== src/Hub/Download.antt =====
-- internal/hub/client.go: `parseContentRange`, and what `Download` makes of an answer.
use weightkeep.Prelude.{
  ℕ, ◌+◌, ◌-◌, ◌*◌, ◌^◌, Text, codes, [], ◌∷◌, Bool, ◌&&◌, ltb, leb, ◌==◌, ◌≟◌, if◌then◌else◌,
  Option, none, some, Result, ok, err, cut, trim_prefix,
}
use weightkeep.Hub.Errors.{Response, HubError, answered, transport, classify}

-- The value of a sequence of decimal digits after `n`.
unfoldable pub digits_from : ℕ → Text → Option ℕ
digits_from n [] = some n
digits_from n (c ∷ s) =
    let rest = digits_from (n * 10 + (c - 48)) s in if leb b'0' c && leb c b'9' then rest else none

-- At least one digit, and a value below the limit.
unfoldable pub digits_below : ℕ → Text → Option ℕ
digits_below limit [] = none
digits_below limit (c ∷ s) = elim (digits_from 0 (c ∷ s)) [
  | none ↦ none
  | some n ↦ if ltb n limit then some n else none
]

-- An `int64`: a magnitude with its sign.
pub data Int64 : Type 0 where
  plus minus : ℕ → Int64

abbrev map_sign : (ℕ → Int64) → Option ℕ → Option Int64
map_sign sign none = none
map_sign sign (some n) = some (sign n)

-- `strconv.ParseInt(s, 10, 64)`
unfoldable pub parse_int : Text → Option Int64
parse_int [] = none
parse_int (c ∷ s) =
    if c == b'-'
    then map_sign minus (digits_below (2 ^ 63 + 1) s)
    else if c == b'+'
    then map_sign plus (digits_below (2 ^ 63) s)
    else map_sign plus (digits_below (2 ^ 63) (c ∷ s))

-- The total of a range: -1 for "*".
unfoldable pub parse_total : Text → Option Int64
parse_total s = if s ≟ codes "*" then some (minus 1) else parse_int s

abbrev pair_with : Option Int64 → Option Int64 → Option (Int64 × Int64)
pair_with (some start) (some total) = some (start, total)
pair_with _ _ = none

unfoldable pub parse_content_range : Text → Option (Int64 × Int64)
parse_content_range h = elim (trim_prefix h (codes "bytes ")) [
  | none ↦ none
  | some rest ↦ elim (cut b'/' rest) [
    | none ↦ none
    | some (range, total) ↦ elim (cut b'-' range) [
      | none ↦ none
      | some (first, _) ↦ pair_with (parse_int first) (parse_total total)
    ]
  ]
]

pub record Body : Type 0 where
  pub offset : Int64
  pub total : Int64

abbrev pub is_at : Int64 → ℕ → Bool
is_at (plus n) offset = n == offset
is_at (minus n) offset = n == 0 && offset == 0

-- A partial answer is taken only where it starts at the byte that was asked for.
unfoldable pub partial_body : ℕ → Option (Int64 × Int64) → Result HubError Body
partial_body offset none = err transport
partial_body offset (some (start, total)) =
    if is_at start offset then ok (record { offset = start; total = total }) else err transport

-- `Download` after the request: the answer, its `Content-Range` and its length. An error that is not
-- an answer of the Hub counts as one of the transport.
unfoldable pub download_body : ℕ → Response → Text → Int64 → Result HubError Body
unfolding partial_body
download_body offset r range length =
    if r.status == 200
    then ok (record { offset = plus 0; total = length })
    else if r.status == 206
    then partial_body offset (parse_content_range range)
    else err (answered (classify r))
