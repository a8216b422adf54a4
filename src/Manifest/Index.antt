-- ===== src/Manifest/Index.antt =====
-- internal/manifest/index.go and the encoding in manifest.go: the files under manifests/ and the tables
-- that index them.
use weightkeep.Prelude.{
  true, All, ℕ, Text, codes, ◌≟◌, List, [], ◌∷◌, ◌++◌, Bool, not, ◌&&◌, ltb, if◌then◌else◌, any,
  map, text_less, sort_by, Assoc, get, remove, put, Option, none, some, Result, ok, err, ◌>>=◌, ◌≡◌,
}
use weightkeep.Ids.{IdError, slash, is_commit, validate_repo_id}
use weightkeep.Manifest.Record.{Manifest, ManifestFile, ManifestError, format_version, validate}

-- The primary key of a revision.
pub record RevisionKey : Type 0 where
  pub repo_type : Text
  pub repo_id : Text
  pub commit : Text

pub record RevisionRow : Type 0 where
  pub key : RevisionKey
  pub fetched_at : ℕ
  pub manifest_sha256 : Text

pub record IndexedFile : Type 0 where
  pub key : RevisionKey
  pub file : ManifestFile

pub record RefRow : Type 0 where
  pub repo_type : Text
  pub repo_id : Text
  pub name : Text
  pub commit : Text
  pub resolved_at : ℕ

-- The documents under manifests/ by path, and the tables `revisions`, `files` and `refs`.
pub record Index : Type 0 where
  pub documents : Assoc Text
  pub revisions : List RevisionRow
  pub files : List IndexedFile
  pub refs : List RefRow

pub data IndexError : Type 0 where
  invalid : ManifestError → IndexError
  bad_repo : IdError → IndexError
  not_kept not_decoded newer_version other_revision write_failed database_failed : IndexError

-- Which call of the operating system or of the database fails.
pub data SaveFault : Type 0 where
  no_fault cannot_write cannot_index : SaveFault

unfoldable pub same_key : RevisionKey → RevisionKey → Bool
same_key k l = (k.repo_type ≟ l.repo_type) && (k.repo_id ≟ l.repo_id) && (k.commit ≟ l.commit)

abbrev pub key_of : Manifest → RevisionKey
key_of m = record { repo_type = m.repo_type; repo_id = m.repo_id; commit = m.commit }

-- `Path`, of parts that need no cleaning.
unfoldable pub manifest_path : RevisionKey → Text
manifest_path k =
    codes "manifests/"
    ++ k.repo_type
    ++ codes "s/"
    ++ k.repo_id
    ++ slash ∷ k.commit
    ++ codes ".json"

-- `InfoPath`
unfoldable pub info_path : RevisionKey → Text
info_path k =
    codes "manifests/"
    ++ k.repo_type
    ++ codes "s/"
    ++ k.repo_id
    ++ slash ∷ k.commit
    ++ codes ".info.json"

-- Every text of a manifest is of a kind.
abbrev pub AllTexts : (Text → Bool) → Manifest → Type 0
AllTexts is m =
    All (λ s. is s ≡ true)
      (m.repo_type ∷ m.repo_id ∷ m.commit ∷ m.upstream ∷ m.license.name ∷ m.license.link
        ∷ m.license.gated ∷ [])
    × All (λ s. is s ≡ true) m.license.ids
    × All (λ s. is s ≡ true) m.license.base_models
    × All (λ f. (is f.path ≡ true) × (is f.sha256 ≡ true) × (is f.git_sha1 ≡ true)) m.files

-- encoding/json on a manifest and its fetch time: a decoder reads what the encoder wrote, if every text
-- is valid UTF-8. The encoder replaces other bytes, so that nothing is said of a manifest with those.
pub record Codec : Type 0 where
  pub is_utf8 : Text → Bool
  pub encode : Manifest × ℕ → Text
  pub probe : Text → Option ℕ
  pub decode : Text → Option (Manifest × ℕ)
  pub probe-encode : (m : Manifest) (at : ℕ) → probe (encode (m, at)) ≡ some m.version
  pub decode-encode :
      (m : Manifest) (at : ℕ) → AllTexts is_utf8 m → decode (encode (m, at)) ≡ some (m, at)

unfoldable pub sorted_files : Manifest → Manifest
sorted_files m = record m { files = sort_by (λ f g. text_less f.path g.path) m.files }

unfoldable pub if_valid {ℓ} : {A : Type ℓ} → Manifest → A → Result IndexError A
if_valid m value = elim (validate m) [ err e ↦ err (invalid e) | ok _ ↦ ok value ]

-- What `Delete` and the foreign key take from the tables.
unfoldable pub without_revision : RevisionKey → List RevisionRow → List RevisionRow
unfolding same_key
without_revision k [] = []
without_revision k (r ∷ rs) =
    let rest = without_revision k rs in if same_key r.key k then rest else r ∷ rest

unfoldable pub without_files : RevisionKey → List IndexedFile → List IndexedFile
unfolding same_key
without_files k [] = []
without_files k (f ∷ fs) =
    let rest = without_files k fs in if same_key f.key k then rest else f ∷ rest

module _ (codec : Codec) (sha256 : Text → Text) where
  -- `Canonical`
  unfoldable pub canonical : Manifest → ℕ → Result IndexError Text
  unfolding sorted_files if_valid
  canonical m fetched_at = if_valid (sorted_files m) (codec.encode (sorted_files m, fetched_at))

  unfoldable pub parse_decoded : Option (Manifest × ℕ) → Result IndexError (Manifest × ℕ)
  unfolding sorted_files if_valid
  parse_decoded none = err not_decoded
  parse_decoded (some (m, fetched_at)) = if_valid (sorted_files m) (sorted_files m, fetched_at)

  unfoldable pub parse_probed : Text → Option ℕ → Result IndexError (Manifest × ℕ)
  unfolding parse_decoded
  parse_probed s none = err not_decoded
  parse_probed s (some version) =
      if ltb format_version version then err newer_version else parse_decoded (codec.decode s)

  -- `Parse`
  unfoldable pub parse : Text → Result IndexError (Manifest × ℕ)
  unfolding parse_probed
  parse s = parse_probed s (codec.probe s)

  -- The transaction of `Save`: the rows of the revision are replaced by new ones.
  unfoldable pub indexed : Manifest → ℕ → Text → Index → Index
  unfolding without_revision without_files
  indexed m fetched_at doc x = record x {
    revisions =
        record { key = key_of m; fetched_at = fetched_at; manifest_sha256 = sha256 doc }
        ∷ without_revision (key_of m) x.revisions;
    files =
        map (λ f. record { key = key_of m; file = f }) m.files ++ without_files (key_of m) x.files;
  }

  -- `Save` after the encoding: a transaction that fails is rolled back, the file stays.
  unfoldable pub store_document :
      SaveFault → Manifest → ℕ → Text → Index → Index × Result {0, 0} IndexError Unit
  unfolding indexed manifest_path
  store_document no_fault m fetched_at doc x = (
    indexed m fetched_at doc
        (record x { documents = put (manifest_path (key_of m)) doc x.documents }),
    ok tt,
  )
  store_document cannot_write m fetched_at doc x = (x, err write_failed)
  store_document cannot_index m fetched_at doc x =
      (record x { documents = put (manifest_path (key_of m)) doc x.documents }, err database_failed)

  unfoldable pub save_encoded :
      SaveFault
      → Manifest
      → ℕ
      → Result IndexError Text
      → Index
      → Index × Result {0, 0} IndexError Unit
  unfolding store_document
  save_encoded fault m fetched_at (err e) x = (x, err e)
  save_encoded fault m fetched_at (ok doc) x = store_document fault m fetched_at doc x

  -- `Save`
  unfoldable pub save : SaveFault → Manifest → ℕ → Index → Index × Result {0, 0} IndexError Unit
  unfolding save_encoded canonical
  save fault m fetched_at x = save_encoded fault m fetched_at (canonical m fetched_at) x

  unfoldable pub describes : RevisionKey → Manifest × ℕ → Result IndexError (Manifest × ℕ)
  unfolding same_key
  describes k (m, fetched_at) =
      if not (same_key (key_of m) k) then err other_revision else ok (m, fetched_at)

  unfoldable pub load_document : RevisionKey → Option Text → Result IndexError (Manifest × ℕ)
  unfolding parse describes
  load_document k none = err not_kept
  load_document k (some doc) = parse doc >>= describes k

  -- `Load`
  unfoldable pub load : RevisionKey → Index → Result IndexError (Manifest × ℕ)
  unfolding load_document manifest_path
  load k x =
      let loaded =
        if not (is_commit k.commit)
        then err not_kept
        else load_document k (get (manifest_path k) x.documents) in
      elim (validate_repo_id k.repo_id) [ err e ↦ err (bad_repo e) | ok _ ↦ loaded ]

-- What fails when a revision is deleted: the database, or the removal of the document afterwards.
pub data DeleteFault : Type 0 where
  none_fails database_fails document_stays : DeleteFault

unfoldable pub forget : RevisionKey → Index → Index
unfolding without_revision without_files info_path
forget k x = record x {
  documents = remove (info_path k) x.documents;
  revisions = without_revision k x.revisions;
  files = without_files k x.files;
}

-- `Delete`; the names that point at the revision stay.
unfoldable pub delete : DeleteFault → RevisionKey → Index → Index × Result {0, 0} IndexError Unit
unfolding forget manifest_path
delete none_fails k x =
    (record (forget k x) { documents = remove (manifest_path k) (forget k x).documents }, ok tt)
delete database_fails k x = (x, err database_failed)
delete document_stays k x = (forget k x, err write_failed)

-- `ReferencedBlobs`
unfoldable pub referenced_blobs : Index → Text → Bool
referenced_blobs x sum = any (λ f. f.file.sha256 ≟ sum) x.files
