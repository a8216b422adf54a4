-- ===== src/Oms/Verified.antt =====
-- oms.go: what is known of a statement that `Verify` returns.
use weightkeep.Prelude.{
  Text, codes, ≟_iff, List, [], ◌∷◌, Bool, true, false, not, if◌then◌else◌, has_prefix, Option,
  none, some, Result, ok, err, ◌≡◌, refl, sym, ap, ◌∙◌, arith,
}
use weightkeep.Oms.{pae}
use weightkeep.Oms.Verify.{
  Bundle, SignedStatement, Crypto, VerifyError, other_media_type, payload_type, statement_type,
  predicate_type, check_statement, check_hint, check_hash, check_decoded, check_envelope,
  check_keyed, check_key, check_bundle, verify_bundle, IsVerified,
}

check_statement-ok :
    (o : Option SignedStatement) (st : SignedStatement)
    → check_statement o ≡ ok st
    → (o ≡ some st) × (st.statement_type ≡ statement_type) × (st.predicate_type ≡ predicate_type)
unfolding check_statement
check_statement-ok none st h = absurd (cc)
check_statement-ok (some t) st h =
    let same : t ≡ st = ground arith in
    let typed : t.statement_type ≡ statement_type =
      (≟_iff t.statement_type statement_type).0 (ground arith) in
    let predicated : t.predicate_type ≡ predicate_type =
      (≟_iff t.predicate_type predicate_type).0 (ground arith) in
    (
      ap some same,
      ap (λ x. x.statement_type) (sym same) ∙ typed,
      ap (λ x. x.predicate_type) (sym same) ∙ predicated,
    )

else_ok :
    (b : Bool) (e : VerifyError) (r : Result VerifyError SignedStatement) (st : SignedStatement)
    → (if b then err e else r) ≡ ok st
    → r ≡ ok st
else_ok true e r st h = absurd (cc)
else_ok false e r st h = h

module _ (c : Crypto) where
  -- The signature and the statement, once both texts are decoded.
  abbrev Hashed : Text → Text → SignedStatement → Type 0
  Hashed payload sig st =
      (hash : (Text → Text)) × (c.curve_hash ≡ some hash)
      × (c.verify_asn1 (hash (pae payload_type payload)) sig ≡ true)
      × (c.decode_statement payload ≡ some st)
      × (st.statement_type ≡ statement_type)
      × (st.predicate_type ≡ predicate_type)

  check_hash-Hashed :
      (payload sig : Text) (o : Option (Text → Text)) (st : SignedStatement)
      → c.curve_hash ≡ o
      → check_hash c payload sig o ≡ ok st
      → Hashed payload sig st
  unfolding check_hash
  check_hash-Hashed payload sig none st curve h = absurd (cc)
  check_hash-Hashed payload sig (some hash) st curve h =
      let read : check_statement (c.decode_statement payload) ≡ ok st = ground arith in
      let (stated, typed, predicated) = check_statement-ok (c.decode_statement payload) st read in
      (hash, curve, ground arith, stated, typed, predicated)

  abbrev Decoded : Option Text → Option Text → SignedStatement → Type 0
  Decoded p s st =
      (payload : Text) × (sig : Text) × (p ≡ some payload) × (s ≡ some sig) × Hashed payload sig st

  check_decoded-Decoded :
      (p s : Option Text) (st : SignedStatement) → check_decoded c p s ≡ ok st → Decoded p s st
  unfolding check_decoded
  check_decoded-Decoded none s st h = absurd (cc)
  check_decoded-Decoded (some payload) none st h = absurd (cc)
  check_decoded-Decoded (some payload) (some sig) st h =
      (payload, sig, refl, refl, check_hash-Hashed payload sig c.curve_hash st refl h)

  check_envelope-Decoded :
      (payload64 : Text) (sigs : List Text) (st : SignedStatement)
      → check_envelope c payload64 sigs ≡ ok st
      → (sig64 : Text) × (sigs ≡ sig64 ∷ []) × Decoded (c.base64 payload64) (c.base64 sig64) st
  unfolding check_envelope
  check_envelope-Decoded payload64 [] st h = absurd (cc)
  check_envelope-Decoded payload64 (sig64 ∷ []) st h =
      (sig64, refl, check_decoded-Decoded (c.base64 payload64) (c.base64 sig64) st h)
  check_envelope-Decoded payload64 (sig64 ∷ more ∷ sigs) st h = absurd (cc)

  check_keyed-ok :
      (b : Bundle) (r : Result {0, 0} VerifyError Unit) (st : SignedStatement)
      → check_keyed c b r ≡ ok st
      → (b.payload_type ≡ payload_type) × (check_envelope c b.payload b.signatures ≡ ok st)
  unfolding check_keyed
  check_keyed-ok b (err e) st h = absurd (cc)
  check_keyed-ok b (ok x) st h =
      ((≟_iff b.payload_type payload_type).0 (ground arith), ground arith)

  check_key-ok :
      (b : Bundle) (o : Option Text) (st : SignedStatement)
      → check_key c b o ≡ ok st
      → (b.payload_type ≡ payload_type) × (check_envelope c b.payload b.signatures ≡ ok st)
  unfolding check_key
  check_key-ok b none st h = absurd (cc)
  check_key-ok b (some hint) st h = check_keyed-ok b (check_hint hint c.key_hint) st h

  check_bundle-IsVerified :
      (s : Text) (o : Option Bundle) (st : SignedStatement)
      → c.decode_bundle s ≡ o
      → check_bundle c o ≡ ok st
      → IsVerified c s st
  unfolding check_bundle
  check_bundle-IsVerified s none st decoded h = absurd (cc)
  check_bundle-IsVerified s (some b) st decoded h =
      let keyed : check_key c b b.public_key ≡ ok st =
        else_ok (not (has_prefix b.media_type (codes "application/vnd.dev.sigstore.bundle")))
          other_media_type (check_key c b b.public_key) st h in
      let (typed, enveloped) = check_key-ok b b.public_key st keyed in
      let (sig64, one, read) = check_envelope-Decoded b.payload b.signatures st enveloped in
      let (payload, sig, payload_read, sig_read, checked) = read in
      let (hash, hashed, verified, stated, is_statement, is_predicate) = checked in
      record {
        bundle = b;
        sig64 = sig64;
        payload = payload;
        sig = sig;
        hash = hash;
        decoded = decoded;
        one_signature = one;
        typed = typed;
        payload_read = payload_read;
        sig_read = sig_read;
        hashed = hashed;
        verified = verified;
        stated = stated;
        kind = (is_statement, is_predicate);
      }

  -- A statement that `Verify` returns was read from the payload of the bundle, and the one signature of
  -- the bundle verifies over the encoding of just that payload with its type, under the hash of the
  -- key's curve; the types of the envelope, the statement and the predicate are those of the format.
  pub verify_bundle-IsVerified :
      (s : Text) (st : SignedStatement) → verify_bundle c s ≡ ok st → IsVerified c s st
  unfolding verify_bundle
  verify_bundle-IsVerified s st h = check_bundle-IsVerified s (c.decode_bundle s) st refl h
