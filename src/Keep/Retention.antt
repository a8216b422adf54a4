-- ===== src/Keep/Retention.antt =====
-- internal/manifest/index.go and internal/keep/gc.go: what is referenced while a revision is kept.
use mathlib.Core.Path.{subst}
use weightkeep.Prelude.{
  Option, ℕ, Text, ◌≟◌, ≟_refl, List, [], ◌∷◌, ◌++◌, Bool, true, false, any, map, if_cases, IsTable,
  put, All, All-map, Result, ok, err, ◌≡◌, ◌⊎◌, inl, inr, refl, sym, ap, ◌∙◌, arith,
}
use weightkeep.Store.{Disk, StoreError}
use weightkeep.Store.Blobs.{RemoveFault}
use weightkeep.Store.Cleanup.{TmpEntry}
use weightkeep.Keep.Collect.{GcOptions, gc}
use weightkeep.Keep.Spared.{Same}
use weightkeep.Keep.Swept.{gc-Same}
use weightkeep.Manifest.Record.{Manifest, ManifestFile}
use weightkeep.Manifest.Index.{
  RevisionKey, IndexedFile, Index, IndexError, SaveFault, no_fault, cannot_write, cannot_index,
  DeleteFault, none_fails, database_fails, document_stays, same_key, key_of, manifest_path, Codec,
  without_files, canonical, indexed, store_document, save_encoded, save, forget, delete,
  referenced_blobs,
}
use weightkeep.Manifest.Kept.{encoded}

-- A row of `files`.
abbrev pub HasRow : RevisionKey → ManifestFile → List IndexedFile → Type 0
HasRow k f [] = ⊥
HasRow k f (r ∷ rs) = ((r.key ≡ k) × (r.file ≡ f)) ⊎ HasRow k f rs

-- Every file of a manifest has its row.
abbrev pub IsIndexed : Manifest → Index → Type 0
IsIndexed m x = All (λ f. HasRow (key_of m) f x.files) m.files

HasRow-append :
    (k : RevisionKey) (f : ManifestFile) (rs ss : List IndexedFile)
    → HasRow k f ss
    → HasRow k f (rs ++ ss)
HasRow-append k f [] ss h = h
HasRow-append k f (r ∷ rs) ss h = inr (HasRow-append k f rs ss h)

map-HasRow :
    (k : RevisionKey) (fs : List ManifestFile) (ss : List IndexedFile)
    → All (λ f. HasRow k f (map (λ g. record { key = k; file = g }) fs ++ ss)) fs
map-HasRow k [] ss = tt
map-HasRow k (f ∷ fs) ss = (inl (refl, refl), All-map (λ g h. inr h) fs (map-HasRow k fs ss))

without_files-HasRow :
    (k l : RevisionKey) (f : ManifestFile) (rs : List IndexedFile)
    → same_key k l ≡ false
    → HasRow k f rs
    → HasRow k f (without_files l rs)
unfolding without_files
without_files-HasRow k l f [] other h = h
without_files-HasRow k l f (r ∷ rs) other h =
    if_cases (HasRow k f) (same_key r.key l) (without_files l rs) (r ∷ without_files l rs)
      (λ gone. elim h [
        | inl (e, _) ↦
            absurd (
              let same : same_key k l ≡ true = ap (λ t. same_key t l) (sym e) ∙ gone in
              ground arith)
        | inr later ↦ without_files-HasRow k l f rs other later
      ])
      (λ stays. elim h [
        | inl here ↦ inl here
        | inr later ↦ inr (without_files-HasRow k l f rs other later)
      ])

HasRow-any :
    (k : RevisionKey) (f : ManifestFile) (rs : List IndexedFile)
    → HasRow k f rs
    → any (λ r. r.file.sha256 ≟ f.sha256) rs ≡ true
HasRow-any k f [] h = absurd h
HasRow-any k f (r ∷ rs) (inl (_, e)) = rw (e, ≟_refl f.sha256) refl
HasRow-any k f (r ∷ rs) (inr later) = let rest = HasRow-any k f rs later in ground arith

indexed-IsIndexed :
    (codec : Codec) (sha256 : Text → Text) (m : Manifest) (at : ℕ) (doc : Text) (x : Index)
    → IsIndexed m (indexed codec sha256 m at doc x)
unfolding indexed
indexed-IsIndexed codec sha256 m at doc x =
    map-HasRow (key_of m) m.files (without_files (key_of m) x.files)

referenced_blobs-IsIndexed :
    (m : Manifest) (x : Index)
    → IsIndexed m x
    → All (λ f. referenced_blobs x f.sha256 ≡ true) m.files
unfolding referenced_blobs
referenced_blobs-IsIndexed m x rows =
    All-map (λ f h. HasRow-any (key_of m) f x.files h) m.files rows

-- What happens to the index: a revision is saved or deleted, or the attempt fails.
pub data Change : Type 0 where
  saved : SaveFault → Manifest → ℕ → Change
  deleted : DeleteFault → RevisionKey → Change

-- The change is to another revision.
abbrev pub IsElsewhere : RevisionKey → Change → Type 0
IsElsewhere k (saved fault m at) = same_key k (key_of m) ≡ false
IsElsewhere k (deleted fault l) = same_key k l ≡ false

module _ (codec : Codec) (sha256 : Text → Text) where
  abbrev pub apply : Change → Index → Index
  apply (saved fault m at) x = (save codec sha256 fault m at x).0
  apply (deleted fault k) x = (delete fault k x).0

  abbrev pub apply_all : List Change → Index → Index
  apply_all [] x = x
  apply_all (c ∷ cs) x = apply_all cs (apply c x)

  save_encoded-IsIndexed :
      (fault : SaveFault) (m n : Manifest) (at : ℕ) (r : Result IndexError Text) (x : Index)
      → same_key (key_of m) (key_of n) ≡ false
      → IsIndexed m x
      → IsIndexed m (save_encoded codec sha256 fault n at r x).0
  unfolding save_encoded store_document indexed
  save_encoded-IsIndexed fault m n at (err e) x other rows = rows
  save_encoded-IsIndexed no_fault m n at (ok doc) x other rows =
      All-map
        (λ f h.
          HasRow-append (key_of m) f (map (λ g. record { key = key_of n; file = g }) n.files) _
            (without_files-HasRow (key_of m) (key_of n) f x.files other h))
        m.files rows
  save_encoded-IsIndexed cannot_write m n at (ok doc) x other rows = rows
  save_encoded-IsIndexed cannot_index m n at (ok doc) x other rows = rows

  apply-IsIndexed :
      (m : Manifest) (change : Change) (x : Index)
      → IsElsewhere (key_of m) change
      → IsIndexed m x
      → IsIndexed m (apply change x)
  unfolding save delete forget
  apply-IsIndexed m (saved fault n at) x other rows =
      save_encoded-IsIndexed fault m n at (canonical codec sha256 n at) x other rows
  apply-IsIndexed m (deleted none_fails k) x other rows =
      All-map (λ f h. without_files-HasRow (key_of m) k f x.files other h) m.files rows
  apply-IsIndexed m (deleted database_fails k) x other rows = rows
  apply-IsIndexed m (deleted document_stays k) x other rows =
      All-map (λ f h. without_files-HasRow (key_of m) k f x.files other h) m.files rows

  apply_all-IsIndexed :
      (m : Manifest) (changes : List Change) (x : Index)
      → All (IsElsewhere (key_of m)) changes
      → IsIndexed m x
      → IsIndexed m (apply_all changes x)
  apply_all-IsIndexed m [] x other rows = rows
  apply_all-IsIndexed m (change ∷ changes) x (first, other) rows =
      apply_all-IsIndexed m changes (apply change x) other (apply-IsIndexed m change x first rows)

  -- From the time when a revision is saved, and for as long as only other revisions are saved and
  -- deleted, whether that succeeds or fails, `GC` with the blobs that the index references leaves the
  -- file and the row of every blob of the revision.
  pub save-gc :
      (m : Manifest) (at : ℕ) (x y : Index) (changes : List Change) (unlisted : Option StoreError)
      (faults : Text → RemoveFault) (tmp_refused : TmpEntry → Bool) (opt : GcOptions) (now : ℕ)
      (d : Disk)
      → save codec sha256 no_fault m at x ≡ (y, ok tt)
      → All (IsElsewhere (key_of m)) changes
      → IsTable d.blobs
      → All
          (λ f.
            Same f.sha256 d
              (gc unlisted (referenced_blobs (apply_all changes y)) faults tmp_refused opt now d).2)
          m.files
  unfolding save
  save-gc m at x y changes unlisted faults tmp_refused opt now d saved_now other table =
      let (doc, _, after) = encoded codec sha256 (canonical codec sha256 m at) m at x y saved_now in
      let rows : IsIndexed m y = subst (IsIndexed m) (sym after) (
        indexed-IsIndexed codec sha256 m at doc
          (record x { documents = put (manifest_path (key_of m)) doc x.documents })) in
      let z = apply_all changes y in
      All-map
        (λ f named.
          gc-Same unlisted (referenced_blobs z) faults tmp_refused opt now d f.sha256 table
            (λ g at_name. ground arith))
        m.files (referenced_blobs-IsIndexed m z (apply_all-IsIndexed m changes y other rows))
