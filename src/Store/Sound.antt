-- ===== src/Store/Sound.antt =====
-- The invariant of the store: what stands under `blobs/` hashes to its name.
use weightkeep.Prelude.{
  ℕ, ◌≤◌, Text, [], ◌++◌, true, ◌≟◌, ≟_iff, if◌then◌else◌, Option, none, some, get, put,
  get-put_cases, length, ◌≡◌, ◌≢◌, refl, arith, ◌⊎◌, inl, inr,
}
use weightkeep.Store.{Hashes, git_header, Blob, File, Row, Disk}
use weightkeep.Store.Partials.{Partial, part_content}
use weightkeep.Store.Commits.{upsert, record_blob}

-- Git's id of a blob with the content `s`.
abbrev pub git_id : Hashes → Text → Text
git_id h s = h.sha1 (git_header (length s) ++ s)

-- A row tells the size of some content with its hash, and if it has one the git id of some content
-- with its hash.
pub record RowIsSound (h : Hashes) (k : Text) (r : Row) : Type 0 where
  pub sized : (s : Text) × (h.sha256 s ≡ k) × (r.size ≡ length s)
  pub identified :
      (g : Text) → r.git_sha1 ≡ some g → (s : Text) × (h.sha256 s ≡ k) × (g ≡ git_id h s)

pub record IsSound (h : Hashes) (d : Disk) : Type 0 where
  pub named : (k : Text) (f : File) → get k d.blobs ≡ some f → h.sha256 f.content ≡ k
  pub rowed : (k : Text) (r : Row) → get k d.rows ≡ some r → RowIsSound h k r

-- An open partial has hashed exactly what its file holds.
pub record InStep (p : Partial) (d : Disk) : Type 0 where
  pub content : part_content p.key d ≡ p.sha256_fed
  pub counted : p.n ≡ length p.sha256_fed
  pub headed :
      p.sha1_fed ≡ (if p.exp.has_size then some (git_header p.exp.size ++ p.sha256_fed) else none)
  pub fits : p.exp.has_size ≡ true → p.n ≤ p.exp.size

-- Only `blobs` and `rows` matter to soundness.
pub IsSound-same :
    {h : Hashes} {d d' : Disk} → d'.blobs ≡ d.blobs → d'.rows ≡ d.rows → IsSound h d → IsSound h d'
IsSound-same eb er s = record {
  named = λ k f e. s.named k f (rw (← eb) e);
  rowed = λ k r e. s.rowed k r (rw (← er) e);
}

pub put_blob_file-IsSound :
    {h : Hashes} {d : Disk} (k : Text) (f : File)
    → h.sha256 f.content ≡ k
    → IsSound h d
    → IsSound h (record d { blobs = put k f d.blobs })
put_blob_file-IsSound {h} {d} k f e s = record {
  named = λ j x q. get-put_cases (λ n y. h.sha256 y.content ≡ n) k j f x d.blobs e (s.named j x) q;
  rowed = s.rowed;
}

-- The git id of `coalesce(old, new)` is one of the two.
pick :
    (o n : Option Text) (g : Text)
    → elim o [ none ↦ n | some x ↦ some x ] ≡ some g
    → (o ≡ some g) ⊎ (n ≡ some g)
pick o n g h = ground arith

pub upsert-RowIsSound :
    {h : Hashes} {k : Text} (now : ℕ) (g : Option Text) (content : Text) (o : Option Row)
    → h.sha256 content ≡ k
    → ((x : Text) → g ≡ some x → x ≡ git_id h content)
    → ((r : Row) → o ≡ some r → RowIsSound h k r)
    → RowIsSound h k (upsert now g (length content) o)
unfolding upsert
upsert-RowIsSound now g content none e hg ho = record {
  sized = (content, e, refl);
  identified = λ x q. (content, e, hg x q);
}
upsert-RowIsSound {h} {k} now g content (some r) e hg ho =
    let old = ho r refl in
    record {
      sized = old.sized;
      identified = λ x q. elim (pick r.git_sha1 g x q) [
        | inl kept ↦ old.identified x kept
        | inr new ↦ (content, e, hg x new)
      ];
    }

-- Recording a blob of some content, with its git id or none.
pub record_blob-IsSound :
    {h : Hashes} {d : Disk} (now : ℕ) (content : Text) (b : Blob)
    → h.sha256 content ≡ b.sha256
    → b.size ≡ length content
    → (b.git_sha1 ≢ [] → b.git_sha1 ≡ git_id h content)
    → IsSound h d
    → IsSound h (record_blob now b d)
unfolding record_blob
record_blob-IsSound {h} {d} now content b e size hg s =
    let g = if b.git_sha1 ≟ [] then none else some b.git_sha1 in
    let up =
      upsert-RowIsSound {h = h} {k = b.sha256} now g content (get b.sha256 d.rows) e
        (λ x q. ground (arith, ≟_iff b.git_sha1 [], hg)) (λ r q. s.rowed b.sha256 r q) in
    record {
      named = s.named;
      rowed = λ k r q.
          get-put_cases (RowIsSound h) b.sha256 k (upsert now g b.size (get b.sha256 d.rows)) r
            d.rows (rw size up) (s.rowed k r) q;
    }
