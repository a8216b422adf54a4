-- ===== src/Policy.antt =====
-- internal/policy/policy.go: what may be shared. The texts of reasons and notes are the
-- constructors of `Reason` and `Note`, with the arguments that `Sprintf` is given.
pub mod Table
pub mod Texts
pub mod Tiers
pub mod Verdict
use weightkeep.Prelude.{
  ℕ, Text, codes, ◌≟◌, List, [], ◌∷◌, ◌++◌, Bool, true, false, not, ◌&&◌, ◌||◌, ltb, ◌==◌,
  if◌then◌else◌, Option, none, some,
}
use Table.{Tier, a, b1, b2, c, Licence, licences}
use Texts.{to_lower, trim_space, matches}

unfoldable pub rank : Tier → ℕ
rank a = 0
rank b1 = 1
rank b2 = 2
rank c = 3

pub record Base : Type 0 where
  pub id : Text
  pub tier : Tier
  pub known : Bool

pub record Input : Type 0 where
  pub license_ids : List Text
  pub license_name : Text
  pub gated : Text
  pub private : Bool
  pub denylisted : Bool
  pub license_file : Option Text
  pub license_file_path : Text
  pub bases : List Base

pub data Reason : Type 0 where
  on_the_denylist private_repository gated_repository no_licence_declared : Reason
  unknown_licence : List Text → Text → Reason
  licence_allows : Text → Tier → Reason
  text_differs : Text → Text → Reason
  text_missing : Text → Reason
  base_unchecked : Text → Reason
  base_stricter : Text → Tier → Reason

pub data Note : Type 0 where
  licence_note : Text → Note
  attaches : Text → Note

-- What `Decision.License` names: nothing yet, a known licence, or the declared ids with the
-- name, joined for reading.
pub data Declared : Type 0 where
  nothing : Declared
  known : Text → Declared
  unknown : List Text → Text → Declared

pub record Decision : Type 0 where
  pub tier : Tier
  pub license : Declared
  pub spdx : Text
  pub supplied_text : Text
  pub reasons : List Reason
  pub notes : List Note

unfoldable pub because : Tier → Reason → Decision → Decision
because t reason d = record d {
  tier = if ltb (rank d.tier) (rank t) then t else d.tier;
  reasons = d.reasons ++ reason ∷ [];
}

-- `byID[key]`: a later row of the table would replace an earlier one.
unfoldable pub last_row : List Licence → Text → Option Licence
last_row [] key = none
last_row (l ∷ ls) key = elim (last_row ls key) [
  | some found ↦ some found
  | none ↦ if l.hf_id ≟ key then some l else none
]

unfoldable pub by_id : Text → Option Licence
by_id key = last_row licences key

unfoldable pub licence_key : Text → Text → Text
licence_key id name =
    let key = to_lower (trim_space id) in
    if key ≟ codes "other" then to_lower (trim_space name) else key

-- `!found || l.tier > best.tier`
unfoldable pub stricter : Option Licence → Licence → Licence
stricter none l = l
stricter (some best) l = if ltb (rank best.tier) (rank l.tier) then l else best

-- The loop of `lookup`, with `best` absent until `found`; `none` is `ok == false`.
unfoldable pub lookup_from : Option Licence → Text → List Text → Option Licence
lookup_from best name [] = best
lookup_from best name (id ∷ ids) = elim (by_id (licence_key id name)) [
  | none ↦ none
  | some l ↦ lookup_from (some (stricter best l)) name ids
]

unfoldable pub lookup : List Text → Text → Option Licence
lookup ids name = lookup_from none name ids

-- `in.Gated != "" && in.Gated != "false"`
unfoldable pub is_gated : Text → Bool
is_gated gated = not (gated ≟ []) && not (gated ≟ codes "false")

-- `if held { d.because(t, …) }`
unfoldable pub because_if : Bool → Tier → Reason → Decision → Decision
because_if held t reason d = if held then because t reason d else d

unfoldable pub check_flags : Input → Decision → Decision
check_flags i d =
    because_if (is_gated i.gated) c gated_repository
      (because_if i.private c private_repository (because_if i.denylisted c on_the_denylist d))

-- The `switch` on the repository's own licence file.
unfoldable pub check_file : Option Text → Text → Licence → Decision → Decision
check_file (some text) path l d =
    because_if (not (matches text l.prints)) c (text_differs path l.name) d
check_file none path l d =
    if rank l.tier == 0 && l.bundled
    then record d { supplied_text = l.spdx }
    else because c (text_missing l.name) d

-- The `default` case of the `switch` on the declared licence.
unfoldable pub check_known : Input → Licence → Decision → Decision
check_known i l d0 =
    let d1 = record d0 { license = known l.name; spdx = l.spdx } in
    let d2 = because_if (ltb (rank a) (rank l.tier)) l.tier (licence_allows l.name l.tier) d1 in
    let d3 =
      if l.note ≟ [] then d2 else record d2 { notes = d2.notes ++ licence_note l.note ∷ [] } in
    check_file i.license_file i.license_file_path l d3

-- The `switch` on the declared ids and what `lookup` found.
unfoldable pub check_declared : Input → List Text → Option Licence → Decision → Decision
check_declared i [] found d = because c no_licence_declared d
check_declared i (id ∷ ids) none d =
    because c (unknown_licence (id ∷ ids) i.license_name)
      (record d { license = unknown (id ∷ ids) i.license_name })
check_declared i (id ∷ ids) (some l) d = check_known i l d

unfoldable pub check_licence : Input → Decision → Decision
check_licence i d = check_declared i i.license_ids (lookup i.license_ids i.license_name) d

unfoldable pub check_base : Base → Decision → Decision
check_base b d =
    if not b.known
    then because c (base_unchecked b.id) d
    else because_if (ltb (rank d.tier) (rank b.tier)) b.tier (base_stricter b.id b.tier) d

unfoldable pub check_bases : List Base → Decision → Decision
check_bases [] d = d
check_bases (b ∷ bs) d = check_bases bs (check_base b d)

unfoldable pub finish : Decision → Decision
finish d = elim d.tier [
  | c ↦ record d { supplied_text = [] }
  | _ ↦
      if d.supplied_text ≟ []
      then d
      else record d { notes = d.notes ++ attaches d.supplied_text ∷ [] }
]

abbrev pub initial : Decision
initial = record {
  tier = a;
  license = nothing;
  spdx = [];
  supplied_text = [];
  reasons = [];
  notes = [];
}

unfoldable pub evaluate : Input → Decision
evaluate i = finish (check_bases i.bases (check_licence i (check_flags i initial)))

unfoldable pub tier_of : List Text → Text → Text → Bool → Tier
tier_of ids name gated private =
    if private || is_gated gated then c else elim (lookup ids name) [ none ↦ c | some l ↦ l.tier ]
