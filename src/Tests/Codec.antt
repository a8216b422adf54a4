-- ===== src/Tests/Codec.antt =====
-- A codec of manifests: texts end with a zero, lists begin with their length.
use weightkeep.Prelude.{
  ℕ, zero, suc, Text, List, [], ◌∷◌, Bool, true, false, length, Option, none, some, ◌≡◌, refl, ap,
  ◌∙◌,
}
use weightkeep.Manifest.Record.{Manifest, License, ManifestFile, Size, bytes, negative}
use weightkeep.Manifest.Index.{Codec}

abbrev then_read :
    {A B : Type 0} → Option (A × Text) → (A → Text → Option (B × Text)) → Option (B × Text)
then_read none next = none
then_read (some (a, rest)) next = next a rest

abbrev put_text : Text → Text → Text
put_text [] rest = 0 ∷ rest
put_text (c ∷ s) rest = suc c ∷ put_text s rest

abbrev get_text : Text → Option (Text × Text)
get_text [] = none
get_text (zero ∷ rest) = some ([], rest)
get_text (suc c ∷ t) = then_read (get_text t) (λ s rest. some (c ∷ s, rest))

get_text-put_text : (s rest : Text) → get_text (put_text s rest) ≡ some (s, rest)
get_text-put_text [] rest = refl
get_text-put_text (c ∷ s) rest = rw (get_text-put_text s rest) refl

abbrev put_size : Size → Text → Text
put_size (bytes n) rest = 0 ∷ n ∷ rest
put_size (negative n) rest = 1 ∷ n ∷ rest

abbrev get_size : Text → Option (Size × Text)
get_size (zero ∷ n ∷ rest) = some (bytes n, rest)
get_size (suc k ∷ n ∷ rest) = some (negative n, rest)
get_size t = none

get_size-put_size : (s : Size) (rest : Text) → get_size (put_size s rest) ≡ some (s, rest)
get_size-put_size (bytes n) rest = refl
get_size-put_size (negative n) rest = refl

abbrev put_flag : Bool → Text → Text
put_flag true rest = 1 ∷ rest
put_flag false rest = 0 ∷ rest

abbrev get_flag : Text → Option (Bool × Text)
get_flag (zero ∷ rest) = some (false, rest)
get_flag (suc k ∷ rest) = some (true, rest)
get_flag [] = none

get_flag-put_flag : (b : Bool) (rest : Text) → get_flag (put_flag b rest) ≡ some (b, rest)
get_flag-put_flag true rest = refl
get_flag-put_flag false rest = refl

abbrev put_file : ManifestFile → Text → Text
put_file f rest =
    put_text f.path
      (put_size f.size (put_text f.sha256 (put_text f.git_sha1 (put_flag f.lfs rest))))

abbrev get_file : Text → Option (ManifestFile × Text)
get_file t = then_read (get_text t) λ path t. then_read (get_size t) λ size t.
    then_read (get_text t) λ sha256 t. then_read (get_text t) λ git_sha1 t.
      then_read (get_flag t) λ lfs t.
        some
          (record { path = path; size = size; sha256 = sha256; git_sha1 = git_sha1; lfs = lfs }, t)

get_file-put_file : (f : ManifestFile) (rest : Text) → get_file (put_file f rest) ≡ some (f, rest)
get_file-put_file f rest =
    rw
      (
        get_text-put_text f.path
            (put_size f.size (put_text f.sha256 (put_text f.git_sha1 (put_flag f.lfs rest)))),
        get_size-put_size f.size (put_text f.sha256 (put_text f.git_sha1 (put_flag f.lfs rest))),
        get_text-put_text f.sha256 (put_text f.git_sha1 (put_flag f.lfs rest)),
        get_text-put_text f.git_sha1 (put_flag f.lfs rest),
        get_flag-put_flag f.lfs rest,
      )
      refl

abbrev put_files : List ManifestFile → Text → Text
put_files [] rest = rest
put_files (f ∷ fs) rest = put_file f (put_files fs rest)

abbrev get_files : ℕ → Text → Option (List ManifestFile × Text)
get_files zero t = some ([], t)
get_files (suc n) t =
    then_read (get_file t) λ f t. then_read (get_files n t) λ fs t. some (f ∷ fs, t)

get_files-put_files :
    (fs : List ManifestFile) (rest : Text)
    → get_files (length fs) (put_files fs rest) ≡ some (fs, rest)
get_files-put_files [] rest = refl
get_files-put_files (f ∷ fs) rest =
    ap (λ r. then_read r λ g t. then_read (get_files (length fs) t) λ gs t. some (g ∷ gs, t))
      (get_file-put_file f (put_files fs rest))
    ∙ (rw (get_files-put_files fs rest) refl)

abbrev put_texts : List Text → Text → Text
put_texts [] rest = rest
put_texts (s ∷ ss) rest = put_text s (put_texts ss rest)

abbrev get_texts : ℕ → Text → Option (List Text × Text)
get_texts zero t = some ([], t)
get_texts (suc n) t =
    then_read (get_text t) λ s t. then_read (get_texts n t) λ ss t. some (s ∷ ss, t)

get_texts-put_texts :
    (ss : List Text) (rest : Text) → get_texts (length ss) (put_texts ss rest) ≡ some (ss, rest)
get_texts-put_texts [] rest = refl
get_texts-put_texts (s ∷ ss) rest =
    ap (λ r. then_read r λ u t. then_read (get_texts (length ss) t) λ us t. some (u ∷ us, t))
      (get_text-put_text s (put_texts ss rest))
    ∙ (rw (get_texts-put_texts ss rest) refl)

abbrev put_license : License → Text → Text
put_license l rest =
    length l.ids
    ∷ length l.base_models
    ∷ put_texts l.ids
        (put_texts l.base_models (put_text l.name (put_text l.link (put_text l.gated rest))))

abbrev get_license : Text → Option (License × Text)
get_license (n ∷ k ∷ t) = then_read (get_texts n t) λ ids t.
    then_read (get_texts k t) λ base_models t. then_read (get_text t) λ name t.
      then_read (get_text t) λ link t. then_read (get_text t) λ gated t. some (
        record { ids = ids; name = name; link = link; gated = gated; base_models = base_models },
        t,
      )
get_license t = none

get_license-put_license :
    (l : License) (rest : Text) → get_license (put_license l rest) ≡ some (l, rest)
get_license-put_license l rest =
    rw
      (
        get_texts-put_texts l.ids
            (put_texts l.base_models (put_text l.name (put_text l.link (put_text l.gated rest)))),
        get_texts-put_texts l.base_models
            (put_text l.name (put_text l.link (put_text l.gated rest))),
        get_text-put_text l.name (put_text l.link (put_text l.gated rest)),
        get_text-put_text l.link (put_text l.gated rest),
        get_text-put_text l.gated rest,
      )
      refl

abbrev put_manifest : Manifest × ℕ → Text
put_manifest (m, at) =
    m.version
    ∷ at
    ∷ length m.files
    ∷ put_text m.repo_type (
        put_text m.repo_id
          (put_text m.commit (put_text m.upstream (put_license m.license (put_files m.files [])))))

abbrev get_version : Text → Option ℕ
get_version [] = none
get_version (v ∷ t) = some v

abbrev strip : {A : Type 0} → Option (A × Text) → Option A
strip none = none
strip (some (a, t)) = some a

abbrev get_manifest : Text → Option (Manifest × ℕ)
get_manifest (version ∷ at ∷ n ∷ t) = strip (
    then_read (get_text t) λ repo_type t. then_read (get_text t) λ repo_id t.
      then_read (get_text t) λ commit t. then_read (get_text t) λ upstream t.
        then_read (get_license t) λ license t. then_read (get_files n t) λ files t. some (
          (
            record {
              version = version;
              repo_type = repo_type;
              repo_id = repo_id;
              commit = commit;
              upstream = upstream;
              license = license;
              files = files;
            },
            at,
          ),
          t,
        ))
get_manifest t = none

pub get_manifest-put_manifest :
    (m : Manifest) (at : ℕ) → get_manifest (put_manifest (m, at)) ≡ some (m, at)
get_manifest-put_manifest m at =
    rw
      (
        get_text-put_text m.repo_type (
            put_text m.repo_id (
              put_text m.commit
                (put_text m.upstream (put_license m.license (put_files m.files []))))),
        get_text-put_text m.repo_id (
            put_text m.commit (put_text m.upstream (put_license m.license (put_files m.files [])))),
        get_text-put_text m.commit
            (put_text m.upstream (put_license m.license (put_files m.files []))),
        get_text-put_text m.upstream (put_license m.license (put_files m.files [])),
        get_license-put_license m.license (put_files m.files []),
        get_files-put_files m.files [],
      )
      refl

abbrev pub codec : Codec
codec = record {
  is_utf8 = λ s. true;
  encode = put_manifest;
  probe = get_version;
  decode = get_manifest;
  probe-encode = λ m at. refl;
  decode-encode = λ m at texts. get_manifest-put_manifest m at;
}
