-- ===== src/Hub/Segments.antt =====
-- What a server reads of a path that `escapePath` or `escapedID` of internal/hub/repo.go escaped.
use weightkeep.Prelude.{
  ℕ, Text, List, [], ◌∷◌, false, some, ◌≡◌, ◌≢◌, refl, ap, arith, ◌∙◌, All, map, split, push_head,
  join, contains_byte,
}
use weightkeep.Ids.{slash}
use weightkeep.Hub.Escape.{
  IsByte, path_escape, path_unescape, path_unescape-path_escape, escape_path, path_escape-Lacks,
  split-join,
}

push_head-All :
    (c : ℕ) (ps : List Text) → IsByte c → All (All IsByte) ps → All (All IsByte) (push_head c ps)
push_head-All c [] hc h = ((hc, tt), tt)
push_head-All c (p ∷ ps) hc (hp, h) = ((hc, hp), h)

split-All : (s : Text) → All IsByte s → All (All IsByte) (split slash s)
split-All [] h = (tt, tt)
split-All (c ∷ s) (hc, hs) = ground (arith, split-All s hs, push_head-All c (split slash s) hc)

map-Lacks :
    (ps : List Text)
    → All (All IsByte) ps
    → All (λ q. contains_byte slash q ≡ false) (map path_escape ps)
map-Lacks [] h = tt
map-Lacks (p ∷ ps) (hp, h) = (path_escape-Lacks p hp, map-Lacks ps h)

map-unescape :
    (ps : List Text) → All (All IsByte) ps → map path_unescape (map path_escape ps) ≡ map some ps
map-unescape [] h = refl
map-unescape (p ∷ ps) (hp, h) = rw (path_unescape-path_escape p hp, map-unescape ps h)

split-join_escaped :
    (ps : List Text)
    → ps ≢ []
    → All (All IsByte) ps
    → split slash (join slash (map path_escape ps)) ≡ map path_escape ps
split-join_escaped [] ne h = absurd (ne refl)
split-join_escaped (p ∷ ps) ne h =
    split-join (path_escape p) (map path_escape ps) (map-Lacks (p ∷ ps) h)

push_head-ne : (c : ℕ) (ps : List Text) → push_head c ps ≢ []
push_head-ne c [] e = cc
push_head-ne c (p ∷ ps) e = cc

split-ne : (s : Text) → split slash s ≢ []
split-ne [] e = cc
split-ne (c ∷ s) e = ground (arith, push_head-ne c (split slash s))

-- Whatever bytes a path holds, splitting its escaped form at the slashes and unescaping each
-- segment gives back the path's own segments, in order.
pub escape_path-segments :
    (p : Text)
    → All IsByte p
    → map path_unescape (split slash (escape_path p)) ≡ map some (split slash p)
unfolding escape_path
escape_path-segments p h =
    ap (map path_unescape) (split-join_escaped (split slash p) (split-ne p) (split-All p h))
    ∙ map-unescape (split slash p) (split-All p h)
