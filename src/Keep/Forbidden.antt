-- ===== src/Keep/Forbidden.antt =====
-- What `SeedPlan` of internal/keep/seed.go never seeds.
use weightkeep.Prelude.{List, true, Any, none, ◌≡◌, ◌⊎◌}
use weightkeep.Hub.Repo.{Repo}
use weightkeep.Manifest.Record.{Manifest}
use weightkeep.Policy.Table.{c, Licence}
use weightkeep.Policy.{Base, is_gated, lookup}
use weightkeep.Policy.Tiers.{base_evidence}

-- What the manifest and the base models say against sharing: the repository is gated, no known licence
-- is declared, or a base model is not known or not to be shared.
abbrev pub IsForbidden : Manifest → List Base → Type 0
IsForbidden m bases =
    (is_gated m.license.gated ≡ true)
    ⊎ (lookup m.license.ids m.license.name ≡ none)
    ⊎ Any (λ b. base_evidence b ≡ c) bases
