-- ===== src/Oms/Verify.antt =====
-- internal/oms/oms.go: `Verify`, with JSON, base64 and ECDSA as parameters.
use weightkeep.Prelude.{
  Text, codes, ◌≟◌, List, [], ◌∷◌, Bool, true, not, ◌&&◌, ◌||◌, if◌then◌else◌, has_prefix, Option,
  none, some, Result, ok, err, ◌≡◌,
}
use weightkeep.Oms.{Statement, pae}

-- `Bundle`, with the hint of the public key if there is one, and its envelope.
pub record Bundle : Type 0 where
  pub media_type : Text
  pub public_key : Option Text
  pub payload : Text
  pub payload_type : Text
  pub signatures : List Text

-- A statement with the fields that say which kind it is.
pub record SignedStatement : Type 0 where
  pub statement_type : Text
  pub predicate_type : Text
  pub method : Text
  pub hash_type : Text
  pub statement : Statement

-- What the code relies on for one public key: decoding, the hint of the key, the hash of its curve, and
-- the check of a signature over a hash.
pub record Crypto : Type 0 where
  pub decode_bundle : Text → Option Bundle
  pub decode_statement : Text → Option SignedStatement
  pub base64 : Text → Option Text
  pub key_hint : Option Text
  pub curve_hash : Option (Text → Text)
  pub verify_asn1 : Text → Text → Bool

pub data VerifyError : Type 0 where
  not_a_bundle other_media_type no_key no_hint other_key other_envelope bad_payload bad_signature :
      VerifyError
  other_curve does_not_verify not_a_statement other_statement other_serialization : VerifyError

abbrev pub payload_type : Text
payload_type = codes "application/vnd.in-toto+json"

abbrev pub statement_type : Text
statement_type = codes "https://in-toto.io/Statement/v1"

abbrev pub predicate_type : Text
predicate_type = codes "https://model_signing/signature/v1.0"

unfoldable pub check_statement : Option SignedStatement → Result VerifyError SignedStatement
check_statement none = err not_a_statement
check_statement (some st) =
    if not (st.statement_type ≟ statement_type) || not (st.predicate_type ≟ predicate_type)
    then err other_statement
    else if not (st.method ≟ codes "files") || not (st.hash_type ≟ codes "sha256")
    then err other_serialization
    else ok st

unfoldable pub check_hint : Text → Option Text → Result {0, 0} VerifyError Unit
check_hint hint none = if hint ≟ [] then ok tt else err no_hint
check_hint hint (some want) = if not (hint ≟ []) && not (hint ≟ want) then err other_key else ok tt

module _ (c : Crypto) where
  unfoldable pub check_hash :
      Text → Text → Option (Text → Text) → Result VerifyError SignedStatement
  unfolding check_statement
  check_hash payload sig none = err other_curve
  check_hash payload sig (some hash) =
      let checked = check_statement (c.decode_statement payload) in
      if not (c.verify_asn1 (hash (pae payload_type payload)) sig)
      then err does_not_verify
      else checked

  unfoldable pub check_decoded : Option Text → Option Text → Result VerifyError SignedStatement
  unfolding check_hash
  check_decoded none sig = err bad_payload
  check_decoded (some payload) none = err bad_signature
  check_decoded (some payload) (some sig) = check_hash payload sig c.curve_hash

  -- Exactly one signature is read.
  unfoldable pub check_envelope : Text → List Text → Result VerifyError SignedStatement
  unfolding check_decoded
  check_envelope payload [] = err other_envelope
  check_envelope payload (sig ∷ []) = check_decoded (c.base64 payload) (c.base64 sig)
  check_envelope payload (sig ∷ more ∷ sigs) = err other_envelope

  unfoldable pub check_keyed :
      Bundle → Result {0, 0} VerifyError Unit → Result VerifyError SignedStatement
  unfolding check_envelope
  check_keyed b (err e) = err e
  check_keyed b (ok _) =
      let checked = check_envelope b.payload b.signatures in
      if not (b.payload_type ≟ payload_type) then err other_envelope else checked

  unfoldable pub check_key : Bundle → Option Text → Result VerifyError SignedStatement
  unfolding check_keyed check_hint
  check_key b none = err no_key
  check_key b (some hint) = check_keyed b (check_hint hint c.key_hint)

  unfoldable pub check_bundle : Option Bundle → Result VerifyError SignedStatement
  unfolding check_key
  check_bundle none = err not_a_bundle
  check_bundle (some b) =
      let checked = check_key b b.public_key in
      if not (has_prefix b.media_type (codes "application/vnd.dev.sigstore.bundle"))
      then err other_media_type
      else checked

  -- `Verify`
  unfoldable pub verify_bundle : Text → Result VerifyError SignedStatement
  unfolding check_bundle
  verify_bundle s = check_bundle (c.decode_bundle s)

  -- What was verified: the one signature, over the encoding of the payload that the statement was read
  -- from.
  pub record IsVerified (s : Text) (st : SignedStatement) : Type 0 where
    pub bundle : Bundle
    pub sig64 : Text
    pub payload : Text
    pub sig : Text
    pub hash : Text → Text
    pub decoded : c.decode_bundle s ≡ some bundle
    pub one_signature : bundle.signatures ≡ sig64 ∷ []
    pub typed : bundle.payload_type ≡ payload_type
    pub payload_read : c.base64 bundle.payload ≡ some payload
    pub sig_read : c.base64 sig64 ≡ some sig
    pub hashed : c.curve_hash ≡ some hash
    pub verified : c.verify_asn1 (hash (pae payload_type payload)) sig ≡ true
    pub stated : c.decode_statement payload ≡ some st
    pub kind : (st.statement_type ≡ statement_type) × (st.predicate_type ≡ predicate_type)
