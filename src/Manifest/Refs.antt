-- ===== src/Manifest/Refs.antt =====
-- internal/manifest/index.go: the names of branches and tags, as last resolved.
use weightkeep.Prelude.{
  ap, ◌++◌, All, ℕ, Text, ◌≟◌, ≟_iff, List, [], ◌∷◌, Bool, false, ◌&&◌, if◌then◌else◌, text_less,
  sort_by, Option, none, some, Result, ok, err, true, ◌≡◌, ◌≢◌, ◌⊎◌, inl, inr, ◌∙◌, refl, arith,
}
use weightkeep.Ids.{is_commit}
use weightkeep.Manifest.Index.{
  RevisionKey, RevisionRow, RefRow, Index, IndexError, not_kept, same_key,
}

-- A row with the primary key (repo_type, repo_id, name).
unfoldable pub is_ref : Text → Text → Text → RefRow → Bool
is_ref repo_type repo_id name r =
    (r.repo_type ≟ repo_type) && (r.repo_id ≟ repo_id) && (r.name ≟ name)

unfoldable pub without_ref : Text → Text → Text → List RefRow → List RefRow
unfolding is_ref
without_ref repo_type repo_id name [] = []
without_ref repo_type repo_id name (r ∷ rs) =
    let rest = without_ref repo_type repo_id name rs in
    if is_ref repo_type repo_id name r then rest else r ∷ rest

-- `SetRef`: a name that is there is pointed at the new commit.
unfoldable pub set_ref : RefRow → Index → Index
unfolding without_ref
set_ref r x = record x { refs = r ∷ without_ref r.repo_type r.repo_id r.name x.refs }

unfoldable pub find_ref : Text → Text → Text → List RefRow → Option (Text × ℕ)
unfolding is_ref
find_ref repo_type repo_id name [] = none
find_ref repo_type repo_id name (r ∷ rs) =
    let rest = find_ref repo_type repo_id name rs in
    if is_ref repo_type repo_id name r then some (r.commit, r.resolved_at) else rest

unfoldable pub find_revision : RevisionKey → List RevisionRow → Option ℕ
unfolding same_key
find_revision k [] = none
find_revision k (r ∷ rs) =
    let rest = find_revision k rs in if same_key r.key k then some r.fetched_at else rest

unfoldable pub resolve_commit : RevisionKey → Index → Result IndexError (Text × ℕ)
unfolding find_revision
resolve_commit k x =
    let kept = find_revision k x.revisions in
    if is_commit k.commit
    then elim kept [ some fetched_at ↦ ok (k.commit, fetched_at) | none ↦ err not_kept ]
    else err not_kept

-- `ResolveRef`: a full commit id resolves to itself if no name is that text and it is kept.
unfoldable pub resolve_ref : Text → Text → Text → Index → Result IndexError (Text × ℕ)
unfolding find_ref resolve_commit
resolve_ref repo_type repo_id name x = elim (find_ref repo_type repo_id name x.refs) [
  | some found ↦ ok found
  | none ↦ resolve_commit (record { repo_type = repo_type; repo_id = repo_id; commit = name }) x
]

unfoldable pub points_at : RevisionKey → RefRow → Bool
points_at k r = (r.repo_type ≟ k.repo_type) && (r.repo_id ≟ k.repo_id) && (r.commit ≟ k.commit)

unfoldable pub names_at : RevisionKey → List RefRow → List Text
unfolding points_at
names_at k [] = []
names_at k (r ∷ rs) = let rest = names_at k rs in if points_at k r then r.name ∷ rest else rest

-- `RefsFor`
unfoldable pub refs_for : RevisionKey → Index → List Text
unfolding names_at
refs_for k x = sort_by text_less (names_at k x.refs)

unfoldable pub without_refs : RevisionKey → List RefRow → List RefRow
unfolding points_at
without_refs k [] = []
without_refs k (r ∷ rs) = let rest = without_refs k rs in if points_at k r then rest else r ∷ rest

-- `DeleteRefs`
unfoldable pub delete_refs : RevisionKey → Index → Index
unfolding without_refs
delete_refs k x = record x { refs = without_refs k x.refs }

find_ref-without_ref :
    (t i n t' i' n' : Text) (rs : List RefRow)
    → ((t ≟ t') && (i ≟ i') && (n ≟ n')) ≡ false
    → find_ref t' i' n' (without_ref t i n rs) ≡ find_ref t' i' n' rs
unfolding find_ref without_ref
find_ref-without_ref t i n t' i' n' [] other = refl
find_ref-without_ref t i n t' i' n' (r ∷ rs) other = ground (
  arith,
  find_ref-without_ref t i n t' i' n' rs other,
  ≟_iff r.repo_type t,
  ≟_iff r.repo_id i,
  ≟_iff r.name n,
  ≟_iff r.repo_type t',
  ≟_iff r.repo_id i',
  ≟_iff r.name n',
)

-- The keys are the same, or they differ in some column.
key_cases :
    (r : RefRow) (repo_type repo_id name : Text)
    → ((is_ref repo_type repo_id name r ≡ true)
        × (r.repo_type ≡ repo_type)
        × (r.repo_id ≡ repo_id)
        × (r.name ≡ name))
      ⊎ ((is_ref repo_type repo_id name r ≡ false)
          × ((r.repo_type ≢ repo_type) ⊎ (r.repo_id ≢ repo_id) ⊎ (r.name ≢ name)))
unfolding is_ref
key_cases r repo_type repo_id name =
    ground (arith, ≟_iff r.repo_type repo_type, ≟_iff r.repo_id repo_id, ≟_iff r.name name)

resolve_commit-set_ref :
    (r : RefRow) (k : RevisionKey) (x : Index) → resolve_commit k (set_ref r x) ≡ resolve_commit k x
unfolding resolve_commit set_ref
resolve_commit-set_ref r k x = refl

resolve_ref-set_ref :
    (r : RefRow) (x : Index) (repo_type repo_id name : Text)
    → resolve_ref repo_type repo_id name (set_ref r x) ≡ (
        if is_ref repo_type repo_id name r
        then ok (r.commit, r.resolved_at)
        else resolve_ref repo_type repo_id name x)
unfolding resolve_ref set_ref
resolve_ref-set_ref r x repo_type repo_id name = ground (
  arith,
  resolve_commit-set_ref r (record { repo_type = repo_type; repo_id = repo_id; commit = name }) x,
  find_ref-without_ref r.repo_type r.repo_id r.name repo_type repo_id name x.refs,
)

-- After `SetRef` a name either is the one that was set, of the same repository and type, and resolves
-- to the new commit and time; or it differs in the type, the repository or the name, and resolves as
-- before.
set_ref-resolve_ref :
    (r : RefRow) (x : Index) (repo_type repo_id name : Text)
    → ((r.repo_type ≡ repo_type)
        × (r.repo_id ≡ repo_id)
        × (r.name ≡ name)
        × (resolve_ref repo_type repo_id name (set_ref r x) ≡ ok (r.commit, r.resolved_at)))
      ⊎ (((r.repo_type ≢ repo_type) ⊎ (r.repo_id ≢ repo_id) ⊎ (r.name ≢ name))
          × (resolve_ref repo_type repo_id name (set_ref r x)
              ≡ resolve_ref repo_type repo_id name x))
set_ref-resolve_ref r x repo_type repo_id name =
    let found = resolve_ref-set_ref r x repo_type repo_id name in
    elim (key_cases r repo_type repo_id name) [
      | inl (same, t, i, n) ↦ inl (t, i, n, found ∙ (rw same refl))
      | inr (other, differs) ↦ inr (differs, found ∙ (rw other refl))
    ]

-- Calls of `SetRef`, in order.
abbrev pub set_refs : List RefRow → Index → Index
set_refs [] x = x
set_refs (r ∷ rs) x = set_refs rs (set_ref r x)

-- The row is of this name, in this repository of this type.
abbrev pub IsOf : Text → Text → Text → RefRow → Type 0
IsOf repo_type repo_id name r = (r.repo_type ≡ repo_type) × (r.repo_id ≡ repo_id) × (r.name ≡ name)

not_IsOf :
    (repo_type repo_id name : Text) (r : RefRow)
    → (r.repo_type ≢ repo_type) ⊎ (r.repo_id ≢ repo_id) ⊎ (r.name ≢ name)
    → ¬ IsOf repo_type repo_id name r
not_IsOf repo_type repo_id name r (inl differs) (t, i, n) = differs t
not_IsOf repo_type repo_id name r (inr (inl differs)) (t, i, n) = differs i
not_IsOf repo_type repo_id name r (inr (inr differs)) (t, i, n) = differs n

-- After any calls of `SetRef`, for any repositories and names, a name resolves to the commit and the
-- time of the last call that was for this name of this repository of this type; without such a call
-- it resolves as before.
pub set_refs-resolve_ref :
    (rs : List RefRow) (x : Index) (repo_type repo_id name : Text)
    → ((before : List RefRow) × (r : RefRow) × (after : List RefRow) × (rs ≡ before ++ r ∷ after)
        × IsOf repo_type repo_id name r
        × All (λ q. ¬ IsOf repo_type repo_id name q) after
        × (resolve_ref repo_type repo_id name (set_refs rs x) ≡ ok (r.commit, r.resolved_at)))
      ⊎ (All (λ q. ¬ IsOf repo_type repo_id name q) rs
          × (resolve_ref repo_type repo_id name (set_refs rs x)
              ≡ resolve_ref repo_type repo_id name x))
set_refs-resolve_ref [] x repo_type repo_id name = inr (tt, refl)
set_refs-resolve_ref (r ∷ rs) x repo_type repo_id name =
    elim (set_refs-resolve_ref rs (set_ref r x) repo_type repo_id name) [
      | inl (before, q, after, place, of_it, later, found) ↦
          inl (r ∷ before, q, after, ap (λ l. r ∷ l) place, of_it, later, found)
      | inr (none_later, same) ↦ elim (set_ref-resolve_ref r x repo_type repo_id name) [
        | inl (t, i, n, found) ↦ inl ([], r, rs, refl, (t, i, n), none_later, same ∙ found)
        | inr (differs, kept) ↦
            inr ((not_IsOf repo_type repo_id name r differs, none_later), same ∙ kept)
      ]
    ]
