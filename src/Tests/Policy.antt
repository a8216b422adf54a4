-- ===== src/Tests/Policy.antt =====
-- What may be shared of a few repositories.
use weightkeep.Prelude.{Text, codes, [], ◌∷◌, ◌≟◌, true, false, none, some, ◌≡◌, ◌≢◌, refl}
use weightkeep.Policy.Table.{a, c, Licence, licences}
use weightkeep.Policy.Texts.{to_lower, trim_space}
use weightkeep.Policy.{
  rank, Input, because, because_if, last_row, by_id, licence_key, stricter, lookup_from, lookup,
  is_gated, check_flags, check_file, check_known, check_declared, check_licence, check_bases,
  finish, evaluate,
}
use weightkeep.Policy.Tiers.{strictest, evidence, evaluate-tier}
use weightkeep.Keep.Seed.{SeedOptions, Summary}
use weightkeep.Policy.Verdict.{Attaches, AllKnown, OneIs, evaluate-Attaches, lookup-strictest}

abbrev pub apache : Text
apache = codes "apache-2.0"

abbrev pub found : Licence
found = record {
  hf_id = apache;
  spdx = codes "Apache-2.0";
  name = codes "Apache License 2.0";
  tier = a;
  prints = codes "apache license" ∷ codes "version 2.0" ∷ [];
  bundled = true;
  note = [];
}

abbrev plain : Input
plain = record {
  license_ids = apache ∷ [];
  license_name = [];
  gated = [];
  private = false;
  denylisted = false;
  license_file = none;
  license_file_path = [];
  bases = [];
}

pub lookup_test : lookup (apache ∷ []) [] ≡ some found
unfolding lookup lookup_from by_id last_row licences ◌≟◌ licence_key to_lower trim_space stricter
lookup_test = refl

-- A permissive licence and no file of its own: all is shared, with the text attached.
shared_test : (evaluate plain).tier ≡ a
unfolding evaluate check_licence check_declared check_known check_file check_flags check_bases
    because_if because finish rank is_gated ◌≟◌
shared_test = rw lookup_test refl

attached_test : (evaluate plain).supplied_text ≡ codes "Apache-2.0"
unfolding evaluate check_licence check_declared check_known check_file check_flags check_bases
    because_if because finish rank is_gated ◌≟◌
attached_test = rw lookup_test refl

attached : (evaluate plain).supplied_text ≢ []
attached e = cc attached_test

abbrev silent : Input
silent = record plain { license_ids = [] }

silent_test : (evaluate silent).tier ≡ c
unfolding evaluate check_licence check_declared check_known check_file check_flags check_bases
    because_if because finish rank is_gated ◌≟◌
silent_test = refl

restricted : (evaluate silent).tier ≢ a
restricted e = cc silent_test

evaluate-tier_example : (evaluate plain).tier ≡ strictest (evidence plain)
evaluate-tier_example = evaluate-tier plain

evaluate-Attaches_example : ((evaluate plain).tier ≢ c) × Attaches plain (evaluate plain)
evaluate-Attaches_example = evaluate-Attaches plain attached

lookup-strictest_example : AllKnown [] found (apache ∷ []) × OneIs [] found (apache ∷ [])
lookup-strictest_example = lookup-strictest (apache ∷ []) [] found lookup_test

abbrev willing : SeedOptions
willing = record { allow = codes "org/m" ∷ []; non_commercial = true }

abbrev complete : Summary
complete = record { repo_id = codes "org/m"; files = 2; kept_files = 2 }
