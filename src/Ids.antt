-- ===== src/Ids.antt =====
-- internal/ids/ids.go: the identifiers that become file names. The three regular expressions are
-- tests on the bytes of the text; `$` with no flag matches at the end of the text only.
pub mod Paths
pub mod Names
use weightkeep.Prelude.{
  ℕ, Text, codes, ◌≟◌, List, [], ◌∷◌, Bool, true, false, not, ◌&&◌, ◌||◌, ltb, leb, ◌==◌,
  if◌then◌else◌, all, length, has_prefix, contains_byte, split, Result, ok, err,
}

-- The errors of the package, with the name that `%q` prints.
pub data IdError : Type 0 where
  expected_namespace_name : IdError
  not_a_valid_name : Text → IdError
  invalid_repo_path : IdError

abbrev pub slash : ℕ
slash = b'/'

abbrev pub backslash : ℕ
backslash = b'\\'

unfoldable pub is_alnum : ℕ → Bool
is_alnum c = (leb b'A' c && leb c b'Z') || (leb b'a' c && leb c b'z') || (leb b'0' c && leb c b'9')

unfoldable pub is_name_byte : ℕ → Bool
is_name_byte c = is_alnum c || c == b'.' || c == b'_' || c == b'-'

-- `[0-9a-f]`
unfoldable pub is_hex : ℕ → Bool
is_hex c = (leb b'0' c && leb c b'9') || (leb b'a' c && leb c b'f')

-- `^[A-Za-z0-9][A-Za-z0-9._-]{0,95}$`
unfoldable pub segment_re : Text → Bool
segment_re [] = false
segment_re (c ∷ s) = is_alnum c && (leb (length s) 95 && all is_name_byte s)

-- `^[0-9a-f]{40}$`
unfoldable pub is_commit : Text → Bool
is_commit s = length s == 40 && all is_hex s

-- `^[0-9a-f]{64}$`
unfoldable pub is_sha256 : Text → Bool
is_sha256 s = length s == 64 && all is_hex s

-- `strings.Contains(p, "..")`
unfoldable pub contains_dotdot : Text → Bool
contains_dotdot [] = false
contains_dotdot (c ∷ s) = (c == b'.' && has_prefix s (b'.' ∷ [])) || contains_dotdot s

-- The loop over the parts of a repo id.
unfoldable pub check_names : List Text → Result IdError (Unit {0})
check_names [] = ok tt
check_names (p ∷ ps) =
    if not (segment_re p) || contains_dotdot p then err (not_a_valid_name p) else check_names ps

unfoldable pub validate_repo_id : Text → Result IdError (Unit {0})
unfolding check_names
validate_repo_id id =
    let parts = split slash id in
    if ltb 2 (length parts) then err expected_namespace_name else check_names parts

-- The loop over the segments of a path.
unfoldable pub check_segments : List Text → Result IdError (Unit {0})
unfolding ◌≟◌
check_segments [] = ok tt
check_segments (seg ∷ segs) =
    if seg ≟ [] || seg ≟ codes "." || seg ≟ codes ".."
    then err invalid_repo_path
    else check_segments segs

unfoldable pub validate_path : Text → Result IdError (Unit {0})
unfolding check_segments ◌≟◌
validate_path p =
    if p ≟ [] || has_prefix p (slash ∷ []) || (contains_byte backslash p || contains_byte 0 p)
    then err invalid_repo_path
    else check_segments (split slash p)
