-- ===== src/Keep/Seed.antt =====
-- internal/keep/seed.go: the decision of `SeedPlan` for one kept revision.
use weightkeep.Prelude.{
  ℕ, ◌≤◌, Text, List, [], ◌∷◌, Bool, true, not, ◌&&◌, ◌||◌, ltb, ◌==◌, ◌≟◌, any, if◌then◌else◌,
  Option, none, some, ◌≡◌, ◌↔◌, arith,
}
use weightkeep.Policy.Table.{Tier, a, b1, b2, c}
use weightkeep.Policy.{rank, Decision, Reason, Declared}

pub record SeedOptions : Type 0 where
  pub allow : List Text
  pub non_commercial : Bool

-- The counts of `manifest.Summary` that the decision reads.
pub record Summary : Type 0 where
  pub repo_id : Text
  pub files : ℕ
  pub kept_files : ℕ

-- Why a revision is not seeded; the texts' arguments are those of the rule.
pub data Refusal : Type 0 where
  files_missing : ℕ → ℕ → Refusal
  never_shared : Option Reason → Refusal
  opt_in : Declared → Text → Refusal
  opt_in_non_commercial : Declared → Text → Refusal

-- `firstReason`
abbrev pub first_reason : Decision → Option Reason
first_reason d = elim d.reasons [ [] ↦ none | r ∷ rs ↦ some r ]

-- `allowed[m.Repo.ID]`
unfoldable pub is_allowed : SeedOptions → Text → Bool
is_allowed opt id = any (λ k. k ≟ id) opt.allow

-- The `switch`: nothing where the revision may be seeded.
unfoldable pub refusal : SeedOptions → Summary → Decision → Option Refusal
refusal opt s d =
    if ltb s.kept_files s.files
    then some (files_missing s.kept_files s.files)
    else if rank d.tier == 3
    then some (never_shared (first_reason d))
    else if rank d.tier == 1 && not (is_allowed opt s.repo_id)
    then some (opt_in d.license s.repo_id)
    else if rank d.tier == 2 && (not (is_allowed opt s.repo_id) || not opt.non_commercial)
    then some (opt_in_non_commercial d.license s.repo_id)
    else none

-- What has to have been opted into for a tier.
abbrev pub OptsIn : SeedOptions → Text → Tier → Type 0
OptsIn opt id a = Unit
OptsIn opt id b1 = is_allowed opt id ≡ true
OptsIn opt id b2 = (is_allowed opt id ≡ true) × (opt.non_commercial ≡ true)
OptsIn opt id c = ⊥

-- A revision may be seeded exactly when all its files are kept and its tier has been opted into,
-- which for the strictest tier cannot be done.
pub refusal-none :
    (opt : SeedOptions) (s : Summary) (d : Decision)
    → (refusal opt s d ≡ none) ↔ ((s.files ≤ s.kept_files) × OptsIn opt s.repo_id d.tier)
unfolding refusal rank
refusal-none opt s d = ground arith
