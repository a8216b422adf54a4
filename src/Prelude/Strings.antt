-- ===== src/Prelude/Strings.antt =====
-- Go strings as lists of bytes, and what the program uses of the package `strings`.
use Prim.Native.Nat.{ℕ}
use Prim.Native.Char.{code}
use Prim.Native.String.{String}
use mathlib.Core.Path.{◌≡◌, refl}
use mathlib.Core.Logic.{◌↔◌, ◌≢◌}
use mathlib.Core.Bool.{Bool, true, false, ◌&&◌, ◌||◌}
use mathlib.Core.Option.{Option, none, some}
use mathlib.Core.List.{List, [], ◌∷◌, ◌++◌}
use native.Mathlib.Omega.{arith}
use weightkeep.Prelude.Tests.{◌==◌, ltb, if◌then◌else◌}

abbrev pub Text : Type 0
Text = List ℕ

-- The bytes of an ASCII literal.
abbrev pub codes : String → Text
codes String.[] = []
codes (String.◌∷◌ c s) = code c ∷ codes s

infix 50 ◌≟◌
unfoldable pub ◌≟◌ : Text → Text → Bool
[] ≟ [] = true
[] ≟ (y ∷ ys) = false
(x ∷ xs) ≟ [] = false
(x ∷ xs) ≟ (y ∷ ys) = (x == y) && (xs ≟ ys)

pub ≟_iff : (s t : Text) → ((s ≟ t) ≡ true) ↔ (s ≡ t)
unfolding ◌≟◌
≟_iff [] [] = (λ h. refl, λ h. refl)
≟_iff [] (y ∷ ys) = ground arith
≟_iff (x ∷ xs) [] = ground arith
≟_iff (x ∷ xs) (y ∷ ys) = ground (arith, ≟_iff xs ys)

pub ≟_refl : (s : Text) → (s ≟ s) ≡ true
≟_refl s = (≟_iff s s).1 refl

pub ≟-eq_false : (s t : Text) → s ≢ t → (s ≟ t) ≡ false
≟-eq_false s t h = ground (arith, ≟_iff s t)

-- `s < t`, byte by byte
unfoldable pub text_less : Text → Text → Bool
text_less s [] = false
text_less [] (y ∷ t) = true
text_less (x ∷ s) (y ∷ t) = let rest = text_less s t in if x == y then rest else ltb x y

pub text_less_asym : (s t : Text) → text_less s t ≡ true → text_less t s ≡ false
unfolding text_less
text_less_asym [] [] h = refl
text_less_asym [] (y ∷ t) h = refl
text_less_asym (x ∷ s) [] h = absurd (ground arith)
text_less_asym (x ∷ s) (y ∷ t) h = ground (arith, text_less_asym s t)

-- `strings.HasPrefix(s, p)`
abbrev pub has_prefix : Text → Text → Bool
has_prefix s [] = true
has_prefix [] (y ∷ p) = false
has_prefix (x ∷ s) (y ∷ p) = (x == y) && has_prefix s p

-- `strings.CutPrefix(s, p)`: what follows the prefix, if it is one.
abbrev pub trim_prefix : Text → Text → Option Text
trim_prefix s [] = some s
trim_prefix [] (y ∷ p) = none
trim_prefix (x ∷ s) (y ∷ p) = if x == y then trim_prefix s p else none

-- `strings.Contains` and `strings.ContainsAny` with one-byte needles
abbrev pub contains_byte : ℕ → Text → Bool
contains_byte b [] = false
contains_byte b (c ∷ s) = (c == b) || contains_byte b s

-- `strings.Split(s, sep)` at a one-byte separator: never empty.
abbrev pub push_head : ℕ → List Text → List Text
push_head c [] = (c ∷ []) ∷ []
push_head c (p ∷ ps) = (c ∷ p) ∷ ps

abbrev pub split : ℕ → Text → List Text
split sep [] = [] ∷ []
split sep (c ∷ s) = if c == sep then [] ∷ split sep s else push_head c (split sep s)

-- `strings.Join(parts, sep)`
abbrev pub join : ℕ → List Text → Text
join sep [] = []
join sep (p ∷ []) = p
join sep (p ∷ q ∷ ps) = p ++ sep ∷ join sep (q ∷ ps)

abbrev cons_first : ℕ → Option (Text × Text) → Option (Text × Text)
cons_first c none = none
cons_first c (some (a, b)) = some (c ∷ a, b)

-- `strings.Cut(s, sep)`: `none` where there is no separator.
abbrev pub cut : ℕ → Text → Option (Text × Text)
cut sep [] = none
cut sep (c ∷ s) = if c == sep then some ([], s) else cons_first c (cut sep s)
