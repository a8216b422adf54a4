-- ===== src/Policy/Verdict.antt =====
-- What a decision carries besides its tier: the text to attach, the reasons, and which licence a
-- list of ids stands for.
use mathlib.Core.List.{concat-ne-nil}
use weightkeep.Prelude.{
  Text, List, [], ◌∷◌, Bool, true, false, ◌&&◌, ltb, ◌==◌, if◌then◌else◌, Option, none, some, ◌≡◌,
  refl, ◌∙◌, arith, ◌≤◌, ◌≢◌, inl, inr, ◌⊎◌, All, Option-cases,
}
use weightkeep.Policy.Table.{Tier, a, c, Licence}
use weightkeep.Policy.{
  rank, Base, Input, Decision, Reason, because_if, text_missing, base_unchecked, base_stricter,
  known, licence_allows, because, stricter, lookup_from, lookup, by_id, licence_key, initial,
  check_flags, check_file, check_known, check_declared, check_licence, check_base, check_bases,
  finish, evaluate,
}

-- A tier above the first has a reason.
abbrev HasReason : Decision → Type 0
HasReason d = d.tier ≢ a → d.reasons ≢ []

because-HasReason : (t : Tier) (r : Reason) (d : Decision) → HasReason (because t r d)
unfolding because
because-HasReason t r d h = concat-ne-nil r d.reasons

because_if-HasReason :
    (held : Bool) (t : Tier) (r : Reason) (d : Decision)
    → HasReason d
    → HasReason (because_if held t r d)
unfolding because_if
because_if-HasReason true t r d h = because-HasReason t r d
because_if-HasReason false t r d h = h

check_flags-HasReason : (i : Input) (d : Decision) → HasReason d → HasReason (check_flags i d)
unfolding check_flags
check_flags-HasReason i d h =
    because_if-HasReason _ _ _ _ (because_if-HasReason _ _ _ _ (because_if-HasReason _ _ _ _ h))

check_file-HasReason :
    (file : Option Text) (path : Text) (l : Licence) (d : Decision)
    → HasReason d
    → HasReason (check_file file path l d)
unfolding check_file
check_file-HasReason (some text) path l d h = because_if-HasReason _ _ _ d h
check_file-HasReason none path l d h = ground (arith, because-HasReason c (text_missing l.name) d)

check_known-HasReason :
    (i : Input) (l : Licence) (d : Decision) → HasReason d → HasReason (check_known i l d)
unfolding check_known
check_known-HasReason i l d h =
    let d1 = record d { license = known l.name; spdx = l.spdx } in
    check_file-HasReason i.license_file i.license_file_path l _ (
      ground (
        arith,
        because_if-HasReason (ltb (rank a) (rank l.tier)) l.tier (licence_allows l.name l.tier) d1,
      ))

check_declared-HasReason :
    (i : Input) (ids : List Text) (o : Option Licence) (d : Decision)
    → HasReason d
    → HasReason (check_declared i ids o d)
unfolding check_declared
check_declared-HasReason i [] o d h = because-HasReason _ _ d
check_declared-HasReason i (id ∷ ids) none d h = because-HasReason _ _ _
check_declared-HasReason i (id ∷ ids) (some l) d h = check_known-HasReason i l d h

check_bases-HasReason : (bs : List Base) (d : Decision) → HasReason d → HasReason (check_bases bs d)
unfolding check_bases check_base
check_bases-HasReason [] d h = h
check_bases-HasReason (b ∷ bs) d h = check_bases-HasReason bs _ (
    ground (
      arith,
      because-HasReason c (base_unchecked b.id) d,
      because_if-HasReason (ltb (rank d.tier) (rank b.tier)) b.tier (base_stricter b.id b.tier) d,
    ))

finish-HasReason : (d : Decision) → HasReason d → HasReason (finish d)
unfolding finish
finish-HasReason d h = ground arith

-- A decision that restricts sharing in any way says why: its list of reasons is not empty.
evaluate-reasons : (i : Input) → (evaluate i).tier ≢ a → (evaluate i).reasons ≢ []
unfolding evaluate check_licence
evaluate-reasons i = finish-HasReason _ (
    check_bases-HasReason i.bases _ (
      check_declared-HasReason i i.license_ids _ _
        (check_flags-HasReason i initial (λ h. absurd (h refl)))))

-- The licence whose text `d` will attach: it is the one declared, it is of the first tier and
-- bundled, and the repository has no licence file of its own.
abbrev pub Attaches : Input → Decision → Type 0
Attaches i d =
    (i.license_file ≡ none)
    × ((l : Licence) × (lookup i.license_ids i.license_name ≡ some l)
        × (l.tier ≡ a)
        × (l.bundled ≡ true)
        × (d.supplied_text ≡ l.spdx))

check_bases-supplied :
    (bs : List Base) (d : Decision) → (check_bases bs d).supplied_text ≡ d.supplied_text
unfolding check_bases check_base because_if because
check_bases-supplied [] d = refl
check_bases-supplied (b ∷ bs) d = ground (arith, check_bases-supplied bs (check_base b d))

check_flags-supplied :
    (i : Input) (d : Decision) → (check_flags i d).supplied_text ≡ d.supplied_text
unfolding check_flags because_if because
check_flags-supplied i d = ground arith

check_known-supplied :
    (i : Input) (l : Licence) (d : Decision)
    → (check_known i l d).supplied_text ≡ elim i.license_file [
      | none ↦ if rank l.tier == 0 && l.bundled then l.spdx else d.supplied_text
      | some _ ↦ d.supplied_text
    ]
unfolding check_known check_file because_if because
check_known-supplied i l d = ground arith

supplied_by :
    (file : Option Text) (l : Licence) (d : Decision) (out : Text)
    → d.supplied_text ≡ []
    → out ≡ elim file [
      | none ↦ if rank l.tier == 0 && l.bundled then l.spdx else d.supplied_text
      | some _ ↦ d.supplied_text
    ]
    → out ≢ []
    → (file ≡ none) × (l.tier ≡ a) × (l.bundled ≡ true) × (out ≡ l.spdx)
unfolding rank
supplied_by file l d out e h ne = ground arith

check_declared-Attaches :
    (i : Input) (ids : List Text) (o : Option Licence) (d : Decision)
    → lookup i.license_ids i.license_name ≡ o
    → d.supplied_text ≡ []
    → (check_declared i ids o d).supplied_text ≢ []
    → Attaches i (check_declared i ids o d)
unfolding check_declared because
check_declared-Attaches i [] o d eq e h = absurd (h e)
check_declared-Attaches i (id ∷ ids) none d eq e h = absurd (h e)
check_declared-Attaches i (id ∷ ids) (some l) d eq e h =
    let (file, first, shipped, same) =
      supplied_by i.license_file l d _ e (check_known-supplied i l d) h in
    (file, (l, eq, first, shipped, same))

finish_supplied :
    (d : Decision)
    → (finish d).supplied_text ≢ []
    → ((finish d).tier ≢ c) × ((finish d).supplied_text ≡ d.supplied_text)
unfolding finish
finish_supplied d h = ground arith

-- A decision names a text to attach only where something may be shared, the repository has no
-- licence file, and the declared licence is of the first tier and bundled; the text is that
-- licence's.
pub evaluate-Attaches :
    (i : Input)
    → (evaluate i).supplied_text ≢ []
    → ((evaluate i).tier ≢ c) × Attaches i (evaluate i)
unfolding evaluate check_licence
evaluate-Attaches i h =
    let d1 = check_flags i initial in
    let d2 = check_declared i i.license_ids (lookup i.license_ids i.license_name) d1 in
    let (shared, same) = finish_supplied (check_bases i.bases d2) h in
    let kept = check_bases-supplied i.bases d2 in
    let (file, (l, found, first, shipped, text)) =
      check_declared-Attaches i i.license_ids (lookup i.license_ids i.license_name) d1 refl
        (check_flags-supplied i initial) (λ e. h (same ∙ kept ∙ e)) in
    (shared, (file, (l, found, first, shipped, same ∙ kept ∙ text)))

-- Every id stands for a known licence no stricter than `l`.
abbrev pub AllKnown : Text → Licence → List Text → Type 0
AllKnown name l =
    All (λ id. (m : Licence) × (by_id (licence_key id name) ≡ some m) × (rank m.tier ≤ rank l.tier))

-- One of the ids stands for `l`.
abbrev pub OneIs : Text → Licence → List Text → Type 0
OneIs name l [] = ⊥
OneIs name l (id ∷ ids) = (by_id (licence_key id name) ≡ some l) ⊎ OneIs name l ids

stricter-rank :
    (best l : Licence)
    → (rank l.tier ≤ rank (stricter (some best) l).tier)
      × (rank best.tier ≤ rank (stricter (some best) l).tier)
      × ((stricter (some best) l ≡ l) ⊎ (stricter (some best) l ≡ best))
unfolding stricter
stricter-rank best l = ground arith

lookup_from_sound :
    (best : Licence) (name : Text) (ids : List Text) (l : Licence)
    → lookup_from (some best) name ids ≡ some l
    → AllKnown name l ids × (rank best.tier ≤ rank l.tier) × ((l ≡ best) ⊎ OneIs name l ids)
unfolding lookup_from
lookup_from_sound best name [] l h = ground arith
lookup_from_sound best name (id ∷ ids) l h = elim (Option-cases (by_id (licence_key id name))) [
  | inl e ↦ absurd (ground arith)
  | inr (m, e) ↦
      let h' : lookup_from (some (stricter (some best) m)) name ids ≡ some l = ground arith in
      let (up, above, pick) = stricter-rank best m in
      let (all_known, le, from) = lookup_from_sound (stricter (some best) m) name ids l h' in
      (((m, e, omega arith), all_known), omega arith, ground arith)
]

-- A lookup that succeeds has found every id in the table, and its result is a strictest of the
-- licences that the ids stand for, and one of them.
pub lookup-strictest :
    (ids : List Text) (name : Text) (l : Licence)
    → lookup ids name ≡ some l
    → AllKnown name l ids × OneIs name l ids
unfolding lookup
lookup-strictest [] name l h = unfold lookup_from in cc
lookup-strictest (id ∷ ids) name l h = elim (Option-cases (by_id (licence_key id name))) [
  | inl e ↦ absurd (unfold lookup_from in ground arith)
  | inr (m, e) ↦
      let h' : lookup_from (some m) name ids ≡ some l =
        unfold lookup_from stricter in ground arith in
      let (all_known, le, from) = lookup_from_sound m name ids l h' in
      (((m, e, le), all_known), ground arith)
]
