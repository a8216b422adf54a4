-- ===== src/Policy/Texts.antt =====
-- The comparison of licence texts in internal/policy/policy.go. Letters and white space are those
-- of ASCII; other bytes are compared as they are.
use weightkeep.Prelude.{
  ℕ, ◌+◌, Text, codes, ◌≟◌, List, [], ◌∷◌, ◌++◌, Bool, true, false, not, ◌&&◌, ◌||◌, leb, ◌==◌,
  if◌then◌else◌, has_prefix, contains_byte, map, any,
}
use mathlib.Core.List.{reverse}

unfoldable pub lower : ℕ → ℕ
lower x = if leb b'A' x && leb x b'Z' then x + 32 else x

-- `strings.ToLower`
unfoldable pub to_lower : Text → Text
unfolding lower
to_lower s = map lower s

-- `\s` and `unicode.IsSpace` on ASCII, which also counts the vertical tab.
abbrev pub is_re_space : ℕ → Bool
is_re_space x = x == 9 || x == 10 || x == 12 || x == 13 || x == 32

abbrev pub is_space : ℕ → Bool
is_space x = is_re_space x || x == 11

unfoldable pub trim_left : Text → Text
trim_left [] = []
trim_left (x ∷ s) = if is_space x then trim_left s else x ∷ s

-- `strings.TrimSpace`
unfoldable pub trim_space : Text → Text
unfolding trim_left
trim_space s = reverse (trim_left (reverse (trim_left s)))

-- `\s+` replaced by one space; the first argument says that the byte before was white space.
unfoldable pub squeeze : Bool → Text → Text
squeeze inside [] = []
squeeze inside (x ∷ s) =
    if is_re_space x
    then (if inside then squeeze true s else 32 ∷ squeeze true s)
    else x ∷ squeeze false s

unfoldable pub normalize : Text → Text
unfolding squeeze to_lower
normalize s = squeeze false (to_lower s)

-- `strings.Contains`
unfoldable pub contains : Text → Text → Bool
contains [] p = has_prefix [] p
contains (x ∷ s) p = has_prefix (x ∷ s) p || contains s p

unfoldable pub has_all : Text → List Text → Bool
unfolding contains
has_all t [] = true
has_all t (p ∷ ps) = if not (contains t p) then false else has_all t ps

unfoldable pub matches : Text → List Text → Bool
unfolding normalize has_all
matches text prints = has_all (normalize text) prints

-- `(?i)^(licen[cs]e|copying)(\.(md|txt|rst))?$` on a path with no slash.
abbrev stems : List Text
stems = codes "licence" ∷ codes "license" ∷ codes "copying" ∷ []

abbrev suffixes : List Text
suffixes = [] ∷ codes ".md" ∷ codes ".txt" ∷ codes ".rst" ∷ []

unfoldable pub is_licence_file : Text → Bool
unfolding ◌≟◌ to_lower
is_licence_file path =
    not (contains_byte b'/' path)
    && any (λ stem. any (λ suffix. to_lower path ≟ (stem ++ suffix)) suffixes) stems
