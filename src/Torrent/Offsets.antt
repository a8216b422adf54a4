-- ===== src/Torrent/Offsets.antt =====
-- The places of a torrent's files, one after the other, and the text of their paths.
use weightkeep.Prelude.{
  ℕ, ◌+◌, Text, List, [], ◌∷◌, ◌++◌, ◌==◌, if_cases, split, push_head, ◌≡◌, refl, ap, ◌∙◌, arith,
}
use weightkeep.Ids.{slash}
use weightkeep.Torrent.Build.{InfoFile}
use weightkeep.Torrent.Storage.{PlacedFile, join_rest, join_path}

-- What the torrent library documents of `UpvertedV1Files`: the files of the metainfo in order, each
-- with the total length of those before it.
abbrev pub IsPlaced : ℕ → List InfoFile → List PlacedFile → Type 0
IsPlaced off [] [] = Unit
IsPlaced off [] (p ∷ ps) = ⊥
IsPlaced off (i ∷ infos) [] = ⊥
IsPlaced off (i ∷ infos) (p ∷ ps) =
    (p ≡ record { file = i; torrent_offset = off }) × IsPlaced (off + i.length) infos ps

abbrev pub at_offsets : ℕ → List InfoFile → List PlacedFile
at_offsets off [] = []
at_offsets off (i ∷ infos) =
    record { file = i; torrent_offset = off } ∷ at_offsets (off + i.length) infos

pub at_offsets-IsPlaced :
    (off : ℕ) (infos : List InfoFile) → IsPlaced off infos (at_offsets off infos)
at_offsets-IsPlaced off [] = tt
at_offsets-IsPlaced off (i ∷ infos) = (refl, at_offsets-IsPlaced (off + i.length) infos)

abbrev pub total : List InfoFile → ℕ
total [] = 0
total (i ∷ infos) = i.length + total infos

pub IsPlaced-at_offsets :
    (off : ℕ) (infos : List InfoFile) (ps : List PlacedFile)
    → IsPlaced off infos ps
    → ps ≡ at_offsets off infos
IsPlaced-at_offsets off [] [] placed = refl
IsPlaced-at_offsets off [] (p ∷ ps) placed = absurd placed
IsPlaced-at_offsets off (i ∷ infos) [] placed = absurd placed
IsPlaced-at_offsets off (i ∷ infos) (p ∷ ps) (e, placed) =
    rw (e, IsPlaced-at_offsets (off + i.length) infos ps placed) refl

pub at_offsets-append :
    (off : ℕ) (is js : List InfoFile)
    → at_offsets off (is ++ js) ≡ at_offsets off is ++ at_offsets (off + total is) js
at_offsets-append off [] js = let e : off ≡ off + 0 = omega arith in ap (λ n. at_offsets n js) e
at_offsets-append off (i ∷ is) js =
    let e : (off + i.length) + total is ≡ off + (i.length + total is) = omega arith in
    rw (at_offsets-append (off + i.length) is js, e) refl

-- Splitting a path and joining its parts gives the path.
join_path-push_head : (c : ℕ) (ps : List Text) → join_path (push_head c ps) ≡ c ∷ join_path ps
unfolding join_path join_rest
join_path-push_head c [] = refl
join_path-push_head c (p ∷ ps) = refl

join_rest-push_head :
    (c : ℕ) (ps : List Text) → join_rest (push_head c ps) ≡ slash ∷ join_path (push_head c ps)
unfolding join_path join_rest
join_rest-push_head c [] = refl
join_rest-push_head c (p ∷ ps) = refl

join_rest-split : (p : Text) → join_rest (split slash p) ≡ slash ∷ join_path (split slash p)
unfolding join_path join_rest
join_rest-split [] = refl
join_rest-split (c ∷ p) =
    if_cases (λ ps. join_rest ps ≡ slash ∷ join_path ps) (c == slash) _ _ (λ _. refl)
      (λ _. join_rest-push_head c (split slash p))

pub join_path-split : (p : Text) → join_path (split slash p) ≡ p
join_path-split [] = unfold join_path join_rest in refl
join_path-split (c ∷ p) =
    if_cases (λ ps. join_path ps ≡ c ∷ p) (c == slash) _ _
      (λ same.
        let e : slash ≡ c = ground arith in
        let tail : join_path ([] ∷ split slash p) ≡ slash ∷ join_path (split slash p) =
          (unfold join_path in join_rest-split p) in
        tail ∙ ap (λ t. slash ∷ t) (join_path-split p) ∙ ap (λ x. x ∷ p) e)
      (λ other. join_path-push_head c (split slash p) ∙ ap (λ t. c ∷ t) (join_path-split p))
