-- ===== src/Hub/Escape.antt =====
-- `url.PathEscape` and `url.PathUnescape`, of which the program escapes ids and paths segment by
-- segment (`escapedID`, `escapePath` of internal/hub/repo.go) and unescapes routes.
use weightkeep.Prelude.{
  ℕ, ◌+◌, ◌-◌, ◌*◌, ◌/◌, ◌%◌, ◌<◌, Text, List, [], ◌∷◌, ◌++◌, Bool, true, false, ◌&&◌, ◌||◌, ltb,
  leb, ◌==◌, if◌then◌else◌, Option, none, some, ◌≡◌, refl, ap, arith, All, map, split, join,
  contains_byte,
}
use weightkeep.Ids.{slash, is_alnum}
use weightkeep.Hub.Repo.{Repo}

-- Bytes that stand for themselves in a path segment.
unfoldable pub is_plain_byte : ℕ → Bool
unfolding is_alnum
is_plain_byte c =
    is_alnum c
    || (c == b'-' || c == b'_' || c == b'.' || c == b'~')
    || (c == b'$' || c == b'&' || c == b'+' || c == b':' || c == b'=' || c == b'@')

unfoldable pub hex_digit : ℕ → ℕ
hex_digit n = if ltb n 10 then n + 48 else n + 55

unfoldable pub unhex : ℕ → Option ℕ
unhex c =
    if leb b'0' c && leb c b'9'
    then some (c - 48)
    else if leb b'a' c && leb c b'f'
    then some (c - 87)
    else if leb b'A' c && leb c b'F'
    then some (c - 55)
    else none

unfoldable pub path_escape : Text → Text
path_escape [] = []
path_escape (c ∷ s) =
    if is_plain_byte c
    then c ∷ path_escape s
    else b'%' ∷ hex_digit (c / 16) ∷ hex_digit (c % 16) ∷ path_escape s

cons_byte : ℕ → Option Text → Option Text
cons_byte c none = none
cons_byte c (some s) = some (c ∷ s)

pair_byte : Option ℕ → Option ℕ → Option Text → Option Text
unfolding cons_byte
pair_byte (some hi) (some lo) rest = cons_byte (hi * 16 + lo) rest
pair_byte _ _ rest = none

-- `none` where a percent sign is not followed by two hexadecimal digits.
unfoldable pub path_unescape : Text → Option Text
unfolding cons_byte pair_byte
path_unescape [] = some []
path_unescape (c ∷ []) = if c == b'%' then none else some (c ∷ [])
path_unescape (c ∷ d ∷ []) = if c == b'%' then none else cons_byte c (path_unescape (d ∷ []))
path_unescape (c ∷ d ∷ e ∷ s) = elim (c == b'%') [
  | true ↦ pair_byte (unhex d) (unhex e) (path_unescape s)
  | false ↦ cons_byte c (path_unescape (d ∷ e ∷ s))
]

abbrev pub IsByte : ℕ → Type 0
IsByte c = c < 256

unhex-hex_digit : (n : ℕ) → n < 16 → unhex (hex_digit n) ≡ some n
unfolding unhex hex_digit
unhex-hex_digit n h = ground arith

plain-not_percent : (c : ℕ) → is_plain_byte c ≡ true → (c == b'%') ≡ false
unfolding is_plain_byte
plain-not_percent c h = ground arith

unescape-plain :
    (c : ℕ) (s : Text) → (c == b'%') ≡ false → path_unescape (c ∷ s) ≡ cons_byte c (path_unescape s)
unfolding path_unescape
unescape-plain c [] h = rw h
unescape-plain c (d ∷ []) h = rw h
unescape-plain c (d ∷ e ∷ s) h = ground arith

unescape-percent :
    (c : ℕ) (s : Text)
    → c < 256
    → path_unescape (b'%' ∷ hex_digit (c / 16) ∷ hex_digit (c % 16) ∷ s)
      ≡ cons_byte c (path_unescape s)
unfolding path_unescape
unescape-percent c s h =
    rw (unhex-hex_digit (c / 16) (omega arith), unhex-hex_digit (c % 16) (omega arith))
      (ap (λ n. cons_byte n (path_unescape s)) (omega arith))

-- Unescaping undoes escaping, on bytes.
pub path_unescape-path_escape : (s : Text) → All IsByte s → path_unescape (path_escape s) ≡ some s
unfolding path_escape cons_byte
path_unescape-path_escape [] h = unfold path_unescape in refl
path_unescape-path_escape (c ∷ s) (hc, hs) = ground (
  arith,
  plain-not_percent c,
  unescape-plain c (path_escape s),
  unescape-percent c (path_escape s) hc,
  path_unescape-path_escape s hs,
)

-- The loops of `escapedID` and `escapePath`: each segment is escaped in its place.
unfoldable pub escape_path : Text → Text
escape_path p = join slash (map path_escape (split slash p))

-- `escapedID`
unfoldable pub escaped_id : Repo → Text
unfolding escape_path
escaped_id r = escape_path r.id

hex_digit-not_slash : (n : ℕ) → n < 16 → (hex_digit n == slash) ≡ false
unfolding hex_digit
hex_digit-not_slash n h = ground arith

plain-not_slash : (c : ℕ) → is_plain_byte c ≡ true → (c == slash) ≡ false
unfolding is_plain_byte is_alnum
plain-not_slash c h = ground arith

-- An escaped segment holds no slash.
pub path_escape-Lacks : (s : Text) → All IsByte s → contains_byte slash (path_escape s) ≡ false
unfolding path_escape
path_escape-Lacks [] h = refl
path_escape-Lacks (c ∷ s) (hc, hs) = ground (
  arith,
  path_escape-Lacks s hs,
  plain-not_slash c,
  hex_digit-not_slash (c / 16) (omega arith),
  hex_digit-not_slash (c % 16) (omega arith),
)

split-plain : (s : Text) → contains_byte slash s ≡ false → split slash s ≡ s ∷ []
split-plain [] h = refl
split-plain (c ∷ s) h = ground (arith, split-plain s)

split-append :
    (s rest : Text)
    → contains_byte slash s ≡ false
    → split slash (s ++ slash ∷ rest) ≡ s ∷ split slash rest
split-append [] rest h = refl
split-append (c ∷ s) rest h = ground (arith, split-append s rest)

pub split-join :
    (p : Text) (ps : List Text)
    → All (λ q. contains_byte slash q ≡ false) (p ∷ ps)
    → split slash (join slash (p ∷ ps)) ≡ p ∷ ps
split-join p [] (h, _) = split-plain p h
split-join p (q ∷ ps) (h, hs) = rw (split-append p (join slash (q ∷ ps)) h, split-join q ps hs)
