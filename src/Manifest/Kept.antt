-- ===== src/Manifest/Kept.antt =====
-- internal/manifest/index.go: a revision that is saved can be loaded, and its blobs are referenced.
use mathlib.Core.Path.{subst}
use weightkeep.Prelude.{
  ℕ, Text, ≟_refl, true, ltb, if_cases, text_less, text_less_asym, sort_by-sort_by, sort_by-All,
  Bool, get, put, get-put, some, Result, ok, err, ◌≡◌, refl, sym, ap, ◌∙◌, arith,
}
use weightkeep.Ids.{is_commit, validate_repo_id}
use weightkeep.Manifest.Record.{Manifest, ManifestError, format_version, validate}
use weightkeep.Manifest.Validity.{IsValid, validate_iff}
use weightkeep.Manifest.Index.{
  RevisionKey, Index, IndexError, no_fault, same_key, key_of, manifest_path, AllTexts, Codec,
  sorted_files, if_valid, canonical, parse_decoded, parse_probed, parse, indexed, store_document,
  save_encoded, save, describes, load_document, load,
}

same_key_refl : (k : RevisionKey) → same_key k k ≡ true
unfolding same_key
same_key_refl k = ground (arith, ≟_refl k.repo_type, ≟_refl k.repo_id, ≟_refl k.commit)

sorted_files-sorted_files : (m : Manifest) → sorted_files (sorted_files m) ≡ sorted_files m
unfolding sorted_files
sorted_files-sorted_files m =
    ap (λ fs. record m { files = fs })
      (sort_by-sort_by (λ f g. text_less f.path g.path) (λ f g. text_less_asym f.path g.path)
        m.files)

sorted_files-AllTexts :
    (is : Text → Bool) (m : Manifest) → AllTexts is m → AllTexts is (sorted_files m)
unfolding sorted_files
sorted_files-AllTexts is m (texts, ids, bases, files) = (
  texts,
  ids,
  bases,
  sort_by-All (λ f. (is f.path ≡ true) × (is f.sha256 ≡ true) × (is f.git_sha1 ≡ true))
      (λ f g. text_less f.path g.path) m.files files,
)

if_valid-ok :
    {A : Type 0} (m : Manifest) (value out : A)
    → if_valid m value ≡ ok out
    → (validate m ≡ ok tt) × (value ≡ out)
unfolding if_valid
if_valid-ok m value out h = go (validate m) h
  where
    go :
        (v : Result ManifestError (Unit {0}))
        → elim v [ err e ↦ err (IndexError.invalid e) | ok _ ↦ ok value ] ≡ ok out
        → (v ≡ ok tt) × (value ≡ out)
    go (err e) h = absurd (cc)
    go (ok x) h = (refl, ground arith)

if_valid-valid :
    {A : Type 0} (m : Manifest) (value : A) → validate m ≡ ok tt → if_valid m value ≡ ok value
unfolding if_valid
if_valid-valid m value valid = rw (valid, if_valid) refl

module _ (codec : Codec) (sha256 : Text → Text) where
  -- What `Canonical` writes, `Parse` reads, with the files in order.
  parse-canonical :
      (m : Manifest) (at : ℕ) (doc : Text)
      → AllTexts codec.is_utf8 m
      → canonical codec sha256 m at ≡ ok doc
      → (parse codec sha256 doc ≡ ok (sorted_files m, at)) × IsValid (sorted_files m)
  unfolding canonical parse parse_probed parse_decoded
  parse-canonical m at doc texts h =
      let s = sorted_files m in
      let (valid, written) = if_valid-ok s (codec.encode (s, at)) doc h in
      let good = (validate_iff s).0 valid in
      (
        subst (λ t. parse codec sha256 t ≡ ok (s, at)) written
            (rw (codec.probe-encode s at) (
              if_cases (λ r. r ≡ ok (s, at)) (ltb format_version s.version) _ _
                (λ newer. absurd (ground (arith, good.current)))
                (λ _. rw (codec.decode-encode s at (sorted_files-AllTexts codec.is_utf8 m texts)) (
                  ap (λ t. if_valid t (t, at)) (sorted_files-sorted_files m)
                  ∙ if_valid-valid s (s, at) valid)))),
        good,
      )

  pub encoded :
      (r : Result IndexError Text) (m : Manifest) (at : ℕ) (x y : Index)
      → save_encoded codec sha256 no_fault m at r x ≡ (y, ok tt)
      → (doc : Text) × (r ≡ ok doc)
        × (y
            ≡ indexed codec sha256 m at doc
                (record x { documents = put (manifest_path (key_of m)) doc x.documents }))
  unfolding save_encoded store_document
  encoded (err e) m at x y h = absurd (cc)
  encoded (ok doc) m at x y h = (doc, refl, sym (ap (λ r. r.0) h))

  found_again :
      (m : Manifest) (at : ℕ) (doc : Text) (x : Index)
      → get
          (manifest_path (key_of m))
          (indexed codec sha256 m at doc
            (record x { documents = put (manifest_path (key_of m)) doc x.documents })).documents
        ≡ some doc
  unfolding indexed
  found_again m at doc x =
      let path = manifest_path (key_of m) in
      get-put path path doc x.documents ∙ (rw (≟_refl path) refl)

  load_document-parsed :
      (m : Manifest) (at : ℕ) (doc : Text)
      → parse codec sha256 doc ≡ ok (sorted_files m, at)
      → load_document codec sha256 (key_of m) (some doc) ≡ ok (sorted_files m, at)
  unfolding load_document describes sorted_files
  load_document-parsed m at doc parsed = rw (parsed, same_key_refl (key_of m)) refl

  load-found :
      (k : RevisionKey) (x : Index) (doc : Text)
      → validate_repo_id k.repo_id ≡ ok tt
      → is_commit k.commit ≡ true
      → get (manifest_path k) x.documents ≡ some doc
      → load codec sha256 k x ≡ load_document codec sha256 k (some doc)
  unfolding load load_document
  load-found k x doc named pinned found = rw (named, pinned, found, load) refl

  -- A revision that is saved, and whose texts are all valid UTF-8, can be loaded: what is read is the
  -- manifest with its files in order, and the time.
  pub save-load :
      (m : Manifest) (at : ℕ) (x y : Index)
      → AllTexts codec.is_utf8 m
      → save codec sha256 no_fault m at x ≡ (y, ok tt)
      → load codec sha256 (key_of m) y ≡ ok (sorted_files m, at)
  unfolding save load sorted_files
  save-load m at x y texts h =
      let (doc, written, after) = encoded (canonical codec sha256 m at) m at x y h in
      let (parsed, good) = parse-canonical m at doc texts written in
      let found =
        ap (λ z. get (manifest_path (key_of m)) z.documents) after ∙ found_again m at doc x in
      load-found (key_of m) y doc good.named good.pinned found
      ∙ load_document-parsed m at doc parsed
