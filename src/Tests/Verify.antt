-- ===== src/Tests/Verify.antt =====
-- A bundle with one signature.
use weightkeep.Prelude.{codes, ◌≟◌, [], ◌∷◌, some, ok, ◌≡◌, refl}
use weightkeep.Oms.Verify.{
  Bundle, SignedStatement, Crypto, payload_type, statement_type, predicate_type, check_statement,
  check_hint, verify_bundle, IsVerified,
}
use weightkeep.Oms.Verified.{verify_bundle-IsVerified}
use weightkeep.Tests.Oms.{statement}

abbrev signed : SignedStatement
signed = record {
  statement_type = statement_type;
  predicate_type = predicate_type;
  method = codes "files";
  hash_type = codes "sha256";
  statement = statement;
}

abbrev bundle : Bundle
bundle = record {
  media_type = codes "application/vnd.dev.sigstore.bundle.v0.3+json";
  public_key = some (codes "hint");
  payload = codes "p";
  payload_type = payload_type;
  signatures = codes "s" ∷ [];
}

abbrev crypto : Crypto
crypto = record {
  decode_bundle = λ s. some bundle;
  decode_statement = λ s. some signed;
  base64 = λ s. some s;
  key_hint = some (codes "hint");
  curve_hash = some (λ s. s);
  verify_asn1 = λ sum sig. sig ≟ codes "s";
}

accepted : verify_bundle crypto (codes "b") ≡ ok signed
unfolding verify_bundle ◌≟◌ check_statement check_hint
accepted = refl

verify_bundle-IsVerified_example : IsVerified crypto (codes "b") signed
verify_bundle-IsVerified_example = verify_bundle-IsVerified crypto (codes "b") signed accepted
