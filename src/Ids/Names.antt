-- ===== src/Ids/Names.antt =====
-- What `ValidateRepoID`, `IsCommit` and `IsSHA256` guarantee: the accepted ids are safe paths.
use weightkeep.Prelude.{
  ℕ, Text, List, [], ◌∷◌, true, false, ◌||◌, ◌==◌, contains_byte, split, push_head, ok, ◌≡◌, ◌≢◌,
  ◌↔◌, refl, arith, All, all, length, ◌≤◌, ==_iff,
}
use weightkeep.Ids.{
  slash, backslash, is_alnum, is_name_byte, is_hex, segment_re, contains_dotdot, check_names,
  validate_repo_id, validate_path, is_commit, is_sha256,
}
use weightkeep.Ids.Paths.{IsEntry, validate_path_iff}

-- No part of an id holds the byte, so neither does the id.
abbrev pub Lacks : ℕ → Text → Type 0
Lacks b p = contains_byte b p ≡ false

push_head-Lacks :
    (b c : ℕ) (ps : List Text)
    → All (Lacks b) (push_head c ps)
    → ((c == b) ≡ false) × All (Lacks b) ps
push_head-Lacks b c [] h = ground arith
push_head-Lacks b c (p ∷ ps) h = ground arith

split-Lacks : (b : ℕ) (s : Text) → b ≢ slash → All (Lacks b) (split slash s) → Lacks b s
split-Lacks b [] hb h = refl
split-Lacks b (c ∷ s) hb h = ground (arith, push_head-Lacks b c (split slash s), split-Lacks b s hb)

all-Lacks : (b : ℕ) (s : Text) → is_name_byte b ≡ false → all is_name_byte s ≡ true → Lacks b s
all-Lacks b [] hb h = refl
all-Lacks b (c ∷ s) hb h = ground (arith, all-Lacks b s hb, ==_iff c b)

hex-name_byte : (c : ℕ) → is_hex c ≡ true → is_alnum c ≡ true
unfolding is_hex is_alnum
hex-name_byte c h = ground arith

alnum-name_byte : (c : ℕ) → is_alnum c ≡ true → is_name_byte c ≡ true
unfolding is_name_byte
alnum-name_byte c h = ground arith

all-hex : (s : Text) → all is_hex s ≡ true → all is_name_byte s ≡ true
all-hex [] h = refl
all-hex (c ∷ s) h = ground (arith, all-hex s, hex-name_byte c, alnum-name_byte c)

segment_re-all : (s : Text) → segment_re s ≡ true → (s ≢ []) × (all is_name_byte s ≡ true)
unfolding segment_re
segment_re-all [] h = cc
segment_re-all (c ∷ s) h = ground (arith, alnum-name_byte c)

segment_re-IsEntry : (s : Text) → segment_re s ≡ true → IsEntry s
unfolding segment_re is_alnum
segment_re-IsEntry [] h = cc
segment_re-IsEntry (c ∷ s) h = ground arith

check_names_iff :
    (ps : List Text)
    → (check_names ps ≡ ok tt) ↔ All (λ p. (segment_re p ≡ true) × (contains_dotdot p ≡ false)) ps
unfolding check_names
check_names_iff [] = (λ h. tt, λ h. refl)
check_names_iff (p ∷ ps) = ground (arith, check_names_iff ps)

names-IsEntry : (ps : List Text) → check_names ps ≡ ok tt → All IsEntry ps
unfolding check_names
names-IsEntry [] h = tt
names-IsEntry (p ∷ ps) h = ground (arith, names-IsEntry ps, segment_re-IsEntry p)

names-Lacks :
    (b : ℕ) (ps : List Text) → is_name_byte b ≡ false → check_names ps ≡ ok tt → All (Lacks b) ps
unfolding check_names
names-Lacks b [] hb h = tt
names-Lacks b (p ∷ ps) hb h =
    ground (arith, names-Lacks b ps hb, segment_re-all p, all-Lacks b p hb)

-- Every repo id that `ValidateRepoID` accepts is a path that `ValidatePath` accepts, of one or two
-- segments.
validate_repo_id-validate_path :
    (id : Text)
    → validate_repo_id id ≡ ok tt
    → (validate_path id ≡ ok tt) × (length (split slash id) ≤ 2)
unfolding validate_repo_id
validate_repo_id-validate_path id h =
    let named : check_names (split slash id) ≡ ok tt = ground arith in
    (
      (validate_path_iff id).1 (
        split-Lacks backslash id (ground arith)
            (names-Lacks backslash (split slash id) (unfold is_name_byte is_alnum in refl) named),
        split-Lacks 0 id (ground arith)
            (names-Lacks 0 (split slash id) (unfold is_name_byte is_alnum in refl) named),
        names-IsEntry (split slash id) named,
      ),
      ground arith,
    )

pub split-Lacks_sep : (s : Text) → Lacks slash s → split slash s ≡ s ∷ []
split-Lacks_sep [] h = refl
split-Lacks_sep (c ∷ s) h = ground (arith, split-Lacks_sep s)

hex-IsEntry : (s : Text) → s ≢ [] → all is_hex s ≡ true → IsEntry s
hex-IsEntry [] h _ = absurd (h refl)
hex-IsEntry (c ∷ s) h hex = unfold is_hex in ground arith

hash-validate_path : (s : Text) → s ≢ [] → all is_hex s ≡ true → validate_path s ≡ ok tt
hash-validate_path s h hex = (validate_path_iff s).1 (
  all-Lacks backslash s (unfold is_name_byte is_alnum in refl) (all-hex s hex),
  all-Lacks 0 s (unfold is_name_byte is_alnum in refl) (all-hex s hex),
  rw (split-Lacks_sep s (all-Lacks slash s (unfold is_name_byte is_alnum in refl) (all-hex s hex)))
      (hex-IsEntry s h hex, tt),
)

-- Every commit id and every SHA-256 that the package recognises is a path of one segment, so no
-- other file can be reached through it.
hash-single_entry :
    (s : Text)
    → ((is_commit s || is_sha256 s) ≡ true)
    → (validate_path s ≡ ok tt) × (split slash s ≡ s ∷ [])
unfolding is_commit is_sha256
hash-single_entry [] h = cc
hash-single_entry (c ∷ s) h =
    let hex : all is_hex (c ∷ s) ≡ true = ground arith in
    (
      hash-validate_path (c ∷ s) (ground arith) hex,
      split-Lacks_sep (c ∷ s)
          (all-Lacks slash (c ∷ s) (unfold is_name_byte is_alnum in refl) (all-hex (c ∷ s) hex)),
    )
