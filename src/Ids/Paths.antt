-- ===== src/Ids/Paths.antt =====
-- What `ValidatePath` guarantees to the code that joins an accepted path onto a directory.
use mathlib.Core.List.{reverse, reverse-cons}
use weightkeep.Prelude.{
  ℕ, Text, codes, ◌≟◌, ≟_iff, List, [], ◌∷◌, ◌++◌, append_assoc, append-nil, false, ◌||◌, ◌==◌,
  if◌then◌else◌, contains_byte, split, ok, Option, none, some, ◌≡◌, ◌≢◌, ◌↔◌, refl, arith, All, map,
}
use weightkeep.Ids.{slash, backslash, check_segments, validate_path}

-- A path segment that names an entry of its directory.
abbrev pub IsEntry : Text → Type 0
IsEntry seg = (seg ≢ []) × (seg ≢ codes ".") × (seg ≢ codes "..")

pub check_segments_iff : (segs : List Text) → (check_segments segs ≡ ok tt) ↔ All IsEntry segs
unfolding check_segments
check_segments_iff [] = (λ h. tt, λ h. refl)
check_segments_iff (seg ∷ segs) =
    ground
      (arith, ≟_iff seg [], ≟_iff seg (codes "."), ≟_iff seg (codes ".."), check_segments_iff segs)

-- `ValidatePath` accepts a path exactly when it holds no backslash and no NUL and every segment
-- between slashes names an entry; the tests for the empty and the absolute path add nothing.
pub validate_path_iff :
    (p : Text)
    → (validate_path p ≡ ok tt) ↔ (
        (contains_byte backslash p ≡ false)
        × (contains_byte 0 p ≡ false)
        × All IsEntry (split slash p))
unfolding validate_path ◌≟◌
validate_path_iff [] = ground arith
validate_path_iff (c ∷ p) = ground (arith, check_segments_iff (split slash (c ∷ p)))

-- How an operating system reads one segment in a directory, innermost entry first: the empty
-- segment and "." stay, ".." leaves the directory, and fails at the top.
unfoldable pub enter : List Text → Text → Option (List Text)
unfolding ◌≟◌
enter dir seg =
    if seg ≟ [] || seg ≟ codes "."
    then some dir
    else if seg ≟ codes ".."
    then elim dir [ [] ↦ none | _ ∷ up ↦ some up ]
    else some (seg ∷ dir)

unfoldable pub walk : List Text → List Text → Option (List Text)
walk dir [] = some dir
walk dir (seg ∷ segs) = elim (enter dir seg) [ none ↦ none | some dir' ↦ walk dir' segs ]

enter-IsEntry : (dir : List Text) (seg : Text) → IsEntry seg → enter dir seg ≡ some (seg ∷ dir)
unfolding enter
enter-IsEntry dir seg h =
    ground (arith, ≟_iff seg [], ≟_iff seg (codes "."), ≟_iff seg (codes ".."))

pub walk-entries :
    (dir segs : List Text) → All IsEntry segs → walk dir segs ≡ some (reverse segs ++ dir)
unfolding walk
walk-entries dir [] h = refl
walk-entries dir (seg ∷ segs) (h, hs) =
    rw (enter-IsEntry dir seg h, walk, reverse-cons, append_assoc)
      (walk-entries (seg ∷ dir) segs hs)

-- Windows separates by both slashes.
abbrev pub as_slash : ℕ → ℕ
as_slash c = if c == backslash then slash else c

abbrev pub os_segments : Text → List Text
os_segments p = split slash (map as_slash p)

map-as_slash : (p : Text) → contains_byte backslash p ≡ false → map as_slash p ≡ p
map-as_slash [] h = refl
map-as_slash (c ∷ p) h = ground (arith, map-as_slash p)

-- An accepted path, read with either slash as a separator from inside a directory, never leaves
-- that directory: it leads down through its own segments, in order, and nowhere else.
pub validate_path-confined :
    (p : Text) → validate_path p ≡ ok tt → walk [] (os_segments p) ≡ some (reverse (split slash p))
validate_path-confined p h =
    let (no_backslash, _, entries) = (validate_path_iff p).0 h in
    rw (map-as_slash p no_backslash, walk-entries [] (split slash p) entries, append-nil)
