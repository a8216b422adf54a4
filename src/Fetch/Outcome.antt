-- ===== src/Fetch/Outcome.antt =====
-- What a download that `fetch` of internal/fetch/fetch.go ends with is.
use weightkeep.Prelude.{
  ℕ, true, false, not, ltb, ◌==◌, ==_iff, if_cases, Option, none, some, ◌≡◌, refl, arith, ◌∙◌,
}
use weightkeep.Store.{Hashes, Disk, StoreError, hash_mismatch}
use weightkeep.Store.Partials.{Partial, ResetFault, reset, write, write_part}
use weightkeep.Store.Commits.{Reader, chunk, end, broken, copy}
use weightkeep.Store.Sound.{IsSound, InStep, IsSound-same}
use weightkeep.Store.Progress.{write-InStep, reset-InStep}
use weightkeep.Store.Putting.{write-same}
use weightkeep.Fetch.Transfer.{
  Target, expect, FetchError, Download, refused, body, Round, after_copy, after_reset, receive,
  transfer,
}

reset-same :
    (fault : ResetFault) (now : ℕ) (p : Partial) (d : Disk)
    → let (_, p', d') = reset fault now p d in
      (d'.blobs ≡ d.blobs) × (d'.rows ≡ d.rows) × (p'.exp ≡ p.exp)
unfolding reset write_part
reset-same ResetFault.nothing now p d = (refl, refl, refl)
reset-same ResetFault.truncate_failed now p d = (refl, refl, refl)

module _ (h : Hashes) (t : Target) where
  -- An open partial for the target over a sound store.
  abbrev pub IsOpen : Partial → Disk → Type 0
  IsOpen p d = InStep p d × IsSound h d × (p.exp ≡ expect t)

  copy-IsOpen :
      (now : ℕ) (reader : Reader) (p : Partial) (d : Disk)
      → IsOpen p d
      → IsOpen (copy now reader p d).1 (copy now reader p d).2
  unfolding copy
  copy-IsOpen now end p d o = o
  copy-IsOpen now (broken x) p d o = o
  copy-IsOpen now (chunk b accepted rest) p d (s, sound, e) =
      let (r, p', d') = write now accepted b p d in
      let (eb, er, ee) = write-same now accepted b p d in
      let next : IsOpen p' d' =
        (write-InStep now accepted b p d s, IsSound-same eb er sound, ee ∙ e) in
      go r.1 next (copy-IsOpen now rest p' d' next)
    where
      go :
          (o : Option StoreError)
          → IsOpen (write now accepted b p d).1 (write now accepted b p d).2
          → IsOpen
              (copy now rest (write now accepted b p d).1 (write now accepted b p d).2).1
              (copy now rest (write now accepted b p d).1 (write now accepted b p d).2).2
          → let r : Option StoreError × Partial × Disk = elim o [
            | none ↦ copy now rest (write now accepted b p d).1 (write now accepted b p d).2
            | some x ↦ (some x, (write now accepted b p d).1, (write now accepted b p d).2)
          ] in
            IsOpen r.1 r.2
      go none stopped went_on = went_on
      go (some x) stopped went_on = stopped

  -- The partial is open, and full where the transfer succeeded.
  abbrev pub Transferred : Option FetchError × Partial × Disk → Type 0
  Transferred (none, p, d) = IsOpen p d × (p.n ≡ t.size)
  Transferred (some e, p, d) = IsOpen p d

  full : (p : Partial) (d : Disk) → IsOpen p d → ltb p.n t.size ≡ false → p.n ≡ t.size
  unfolding expect
  full p d (s, sound, e) enough =
      let sized : p.exp.has_size ≡ true = cc e in
      let bound : p.exp.size ≡ t.size = cc e in ground (arith, s.fits sized)

  after_copy-Transferred :
      (r : Option StoreError × Partial × Disk) → IsOpen r.1 r.2 → Transferred (after_copy t r)
  unfolding after_copy
  after_copy-Transferred (some hash_mismatch, p, d) o = o
  after_copy-Transferred (some _, p, d) o = o
  after_copy-Transferred (none, p, d) o =
      if_cases Transferred (ltb p.n t.size) _ _ (λ _. o) (λ enough. (o, full p d o enough))

  after_reset-Transferred :
      (now : ℕ) (reader : Reader) (r : Option StoreError × Partial × Disk)
      → IsOpen r.1 r.2
      → Transferred (after_reset now t reader r)
  unfolding after_reset
  after_reset-Transferred now reader (some e, p, d) o = o
  after_reset-Transferred now reader (none, p, d) o =
      after_copy-Transferred (copy now reader p d) (copy-IsOpen now reader p d o)

  receive-Transferred :
      (now : ℕ) (fault : ResetFault) (got : Download) (p : Partial) (d : Disk)
      → IsOpen p d
      → Transferred (receive now t fault got p d)
  unfolding receive
  receive-Transferred now fault (refused e) p d o = o
  receive-Transferred now fault (body offset reader) p d o =
      let (eb, er, ee) = reset-same fault now p d in
      if_cases Transferred (not (offset == p.n)) _ _
        (λ _.
          after_reset-Transferred now reader (reset fault now p d)
            (reset-InStep fault now p d o.0, IsSound-same eb er o.1, ee ∙ o.2))
        (λ _. after_copy-Transferred (copy now reader p d) (copy-IsOpen now reader p d o))

  pub transfer-Transferred :
      (now : ℕ) (r : Round) (p : Partial) (d : Disk)
      → IsOpen p d
      → Transferred (transfer now t r p d)
  unfolding transfer
  transfer-Transferred now r p d o =
      if_cases Transferred (p.n == t.size) _ _ (λ e. (o, (==_iff p.n t.size).0 e))
        (λ _. receive-Transferred now r.reset_fault r.download p d o)
