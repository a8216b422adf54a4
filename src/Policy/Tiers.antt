-- ===== src/Policy/Tiers.antt =====
-- The tier that `Evaluate` gives, against the evidence as a list.
use weightkeep.Prelude.{
  Text, List, [], ◌∷◌, ◌++◌, Bool, not, ◌&&◌, ◌||◌, ltb, ◌==◌, if◌then◌else◌, Option, none, some,
  ◌≡◌, refl, sym, arith, map, ◌≤◌,
}
use weightkeep.Policy.Table.{Tier, a, c, Licence}
use weightkeep.Policy.Texts.{matches}
use weightkeep.Policy.{
  rank, Base, Input, Decision, because, because_if, lookup_from, lookup, is_gated, initial,
  check_flags, check_file, check_known, check_declared, check_licence, check_base, check_bases,
  finish, evaluate, tier_of,
}

-- The stricter of two tiers.
abbrev pub max_tier : Tier → Tier → Tier
max_tier x y = if ltb (rank x) (rank y) then y else x

abbrev pub strictest : List Tier → Tier
strictest [] = a
strictest (t ∷ ts) = max_tier t (strictest ts)

-- What holds against sharing forbids it.
abbrev pub forbids : Bool → Tier
forbids held = if held then c else a

-- What the repository's own licence file, or its absence, says about a known licence.
abbrev pub file_evidence : Option Text → Licence → Tier
file_evidence none l = forbids (not (rank l.tier == 0 && l.bundled))
file_evidence (some text) l = forbids (not (matches text l.prints))

abbrev pub licence_evidence : Option Text → Option Licence → List Tier
licence_evidence file none = c ∷ []
licence_evidence file (some l) = l.tier ∷ file_evidence file l ∷ []

abbrev pub base_evidence : Base → Tier
base_evidence b = if b.known then b.tier else c

-- Everything that an input says about sharing, in no particular order.
abbrev pub evidence : Input → List Tier
evidence i =
    forbids i.denylisted
    ∷ forbids i.private
    ∷ forbids (is_gated i.gated)
    ∷ (licence_evidence i.license_file (lookup i.license_ids i.license_name)
        ++ map base_evidence i.bases)

max_tier_assoc : (x y z : Tier) → max_tier (max_tier x y) z ≡ max_tier x (max_tier y z)
unfolding rank
max_tier_assoc x y z = ground arith

max_tier-a : (x : Tier) → max_tier x a ≡ x
unfolding rank
max_tier-a x = ground arith

a-max_tier : (x : Tier) → max_tier a x ≡ x
unfolding rank
a-max_tier x = ground arith

strictest-append :
    (xs ys : List Tier) → strictest (xs ++ ys) ≡ max_tier (strictest xs) (strictest ys)
strictest-append [] ys = unfold rank in ground arith
strictest-append (x ∷ xs) ys =
    rw (strictest-append xs ys) (sym (max_tier_assoc x (strictest xs) (strictest ys)))

check_base-tier :
    (b : Base) (d : Decision) → (check_base b d).tier ≡ max_tier d.tier (base_evidence b)
unfolding check_base because_if because rank
check_base-tier b d = ground arith

check_bases-tier :
    (bs : List Base) (d : Decision)
    → (check_bases bs d).tier ≡ max_tier d.tier (strictest (map base_evidence bs))
unfolding check_bases
check_bases-tier [] d = sym (max_tier-a d.tier)
check_bases-tier (b ∷ bs) d =
    rw (check_bases-tier bs (check_base b d), check_base-tier b d)
      (max_tier_assoc d.tier (base_evidence b) (strictest (map base_evidence bs)))

check_flags-tier :
    (i : Input) (d : Decision)
    → (check_flags i d).tier
      ≡ max_tier d.tier
          (strictest (forbids i.denylisted ∷ forbids i.private ∷ forbids (is_gated i.gated) ∷ []))
unfolding check_flags because_if because rank
check_flags-tier i d = ground arith

check_known-tier :
    (i : Input) (l : Licence) (d : Decision)
    → (check_known i l d).tier
      ≡ max_tier d.tier (strictest (licence_evidence i.license_file (some l)))
unfolding check_known check_file because_if because rank
check_known-tier i l d = ground arith

check_declared-tier :
    (i : Input) (ids : List Text) (o : Option Licence) (d : Decision)
    → (ids ≡ [] → o ≡ none)
    → (check_declared i ids o d).tier
      ≡ max_tier d.tier (strictest (licence_evidence i.license_file o))
unfolding check_declared because_if because rank
check_declared-tier i [] o d h = ground (arith, h refl)
check_declared-tier i (id ∷ ids) none d h = ground arith
check_declared-tier i (id ∷ ids) (some l) d h = check_known-tier i l d

lookup-nil : (ids : List Text) (name : Text) → ids ≡ [] → lookup ids name ≡ none
unfolding lookup lookup_from
lookup-nil ids name h = rw h

finish-tier : (d : Decision) → (finish d).tier ≡ d.tier
unfolding finish
finish-tier d = ground arith

strictest_three :
    (xs ys zs : List Tier)
    → max_tier (max_tier (max_tier a (strictest xs)) (strictest ys)) (strictest zs)
      ≡ strictest (xs ++ (ys ++ zs))
strictest_three xs ys zs =
    rw (strictest-append xs (ys ++ zs), strictest-append ys zs, a-max_tier (strictest xs))
      (max_tier_assoc (strictest xs) (strictest ys) (strictest zs))

-- The tier of a decision is the strictest of everything that the input says: the denylist, the
-- repository's state, the declared licence, its licence file, and every base model.
pub evaluate-tier : (i : Input) → (evaluate i).tier ≡ strictest (evidence i)
unfolding evaluate check_licence
evaluate-tier i =
    let o = lookup i.license_ids i.license_name in
    let d1 = check_flags i initial in
    let d2 = check_declared i i.license_ids o d1 in
    let flags = forbids i.denylisted ∷ forbids i.private ∷ forbids (is_gated i.gated) ∷ [] in
    rw
      (
        finish-tier (check_bases i.bases d2),
        check_bases-tier i.bases d2,
        check_declared-tier i i.license_ids o d1 (lookup-nil i.license_ids i.license_name),
        check_flags-tier i initial,
      )
      (strictest_three flags (licence_evidence i.license_file o) (map base_evidence i.bases))

flags_above :
    (x p g : Bool) (t s : Tier)
    → rank t ≤ rank s
    → rank (if p || g then c else t)
      ≤ rank (max_tier (forbids x) (max_tier (forbids p) (max_tier (forbids g) s)))
unfolding rank
flags_above x p g t s h = ground arith

rank-le-max_tier : (x y : Tier) → rank x ≤ rank (max_tier x y)
unfolding rank
rank-le-max_tier x y = ground arith

abbrev card_tier : Option Licence → Tier
card_tier o = elim o [ none ↦ c | some l ↦ l.tier ]

card-le-evidence :
    (file : Option Text) (o : Option Licence) (rest : List Tier)
    → rank (card_tier o) ≤ rank (strictest (licence_evidence file o ++ rest))
card-le-evidence file none rest = rank-le-max_tier c (strictest rest)
card-le-evidence file (some l) rest =
    rank-le-max_tier l.tier (strictest (file_evidence file l ∷ rest))

-- The tier that the model card alone implies, which is all that is known of a base model, is never
-- stricter than the full decision on the same card.
tier_of-le-evaluate :
    (i : Input)
    → rank (tier_of i.license_ids i.license_name i.gated i.private) ≤ rank (evaluate i).tier
unfolding tier_of
tier_of-le-evaluate i =
    let o = lookup i.license_ids i.license_name in
    rw (evaluate-tier i) (
      flags_above i.denylisted i.private (is_gated i.gated) (card_tier o)
        (strictest (licence_evidence i.license_file o ++ map base_evidence i.bases))
        (card-le-evidence i.license_file o (map base_evidence i.bases)))
