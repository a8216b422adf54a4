-- ===== src/Store/Progress.antt =====
-- A download in progress: the open partial stays in step with its file, across every write, reset
-- and resumption.
use mathlib.Core.Path.{subst}
use weightkeep.Prelude.{
  ℕ, ◌≤◌, ◌+◌, Text, List, [], ◌∷◌, ◌++◌, Bool, true, false, not, ◌&&◌, ltb, ◌≟◌, ≟_refl,
  if◌then◌else◌, none, some, ok, get-put, length, take, length-append, length-take, Bool-cases, inl,
  inr, append-nil, append_assoc, has_key, any, ◌≡◌, refl, ap, ◌∙◌, arith,
}
use weightkeep.Ids.{is_sha256}
use weightkeep.Store.{is_key, git_header, Disk, is_locked}
use weightkeep.Store.Partials.{
  Expect, Partial, OpenFault, lock_failed, open_failed, stat_failed, read_failed, ResetFault,
  part_content, write_part, lock, unlock, create_part, reset_sha1, feed_sha1, is_too_long,
  kept_bytes, truncated, resumed, resume, open_partial, write, reset, close, without,
}
use weightkeep.Store.Sound.{InStep}

part_content-write_part :
    (now : ℕ) (key content : Text) (d : Disk)
    → part_content key (write_part now key content d) ≡ content
unfolding part_content write_part
part_content-write_part now key content d =
    ground (arith, get-put key key (record { content = content; mtime = now }) d.parts, ≟_refl key)

feed-headed :
    (b : Bool) (header fed w : Text)
    → feed_sha1 (if b then some (header ++ fed) else none) w
      ≡ (if b then some (header ++ (fed ++ w)) else none)
unfolding feed_sha1
feed-headed true header fed w = rw append_assoc
feed-headed false header fed w = refl

length-take_le : (n : ℕ) (s : Text) → length (take n s) ≤ length s
length-take_le n s = omega (arith, length-take n s)

-- A partial that is in step with its file is so after a write, whatever part of the bytes the file
-- takes and whether the write fails or not.
pub write-InStep :
    (now accepted : ℕ) (b : Text) (p : Partial) (d : Disk)
    → InStep p d
    → InStep (write now accepted b p d).1 (write now accepted b p d).2
unfolding write
write-InStep now accepted b p d s =
    elim (Bool-cases (p.exp.has_size && ltb p.exp.size (p.n + length b))) [
      | inl past ↦ rw past s
      | inr room ↦ rw room (
          let w = take accepted b in
          record {
            content =
                part_content-write_part now p.key (part_content p.key d ++ w) d
                ∙ ap (λ t. t ++ w) s.content;
            counted = omega (arith, s.counted, length-append {0} p.sha256_fed w);
            headed =
                rw s.headed (feed-headed p.exp.has_size (git_header p.exp.size) p.sha256_fed w);
            fits = λ sized. ground (arith, length-take_le accepted b);
          })
    ]

fresh-headed :
    (exp : Expect)
    → reset_sha1 exp ≡ (if exp.has_size then some (git_header exp.size ++ []) else none)
unfolding reset_sha1
fresh-headed exp = rw append-nil

pub reset-InStep :
    (fault : ResetFault) (now : ℕ) (p : Partial) (d : Disk)
    → InStep p d
    → InStep (reset fault now p d).1 (reset fault now p d).2
unfolding reset
reset-InStep ResetFault.truncate_failed now p d s = s
reset-InStep ResetFault.nothing now p d s = record {
  content = part_content-write_part now p.key [] d;
  counted = refl;
  headed = fresh-headed p.exp;
  fits = λ sized. omega arith;
}

resumed-headed :
    (exp : Expect) (kept : Text)
    → feed_sha1 (reset_sha1 exp) kept
      ≡ (if exp.has_size then some (git_header exp.size ++ kept) else none)
unfolding feed_sha1 reset_sha1
resumed-headed exp kept = ground arith

kept_bytes-fits :
    (exp : Expect) (old : Text) → exp.has_size ≡ true → length (kept_bytes exp old) ≤ exp.size
unfolding kept_bytes
kept_bytes-fits exp old h = ground arith

resumed-InStep :
    (now : ℕ) (key : Text) (exp : Expect) (d : Disk)
    → InStep (resumed key exp (kept_bytes exp (part_content key d))) (truncated now key exp d)
unfolding resumed
resumed-InStep now key exp d = record {
  content =
      unfold kept_bytes truncated in
      elim (Bool-cases (is_too_long exp (part_content key d))) [
        | inl long ↦ rw long (part_content-write_part now key [] d)
        | inr fine ↦ rw fine
      ];
  counted = refl;
  headed = resumed-headed exp (kept_bytes exp (part_content key d));
  fits = kept_bytes-fits exp (part_content key d);
}

-- What a caller of `Partial` is given.
abbrev pub IsResumed : Text → Expect → Text → Disk → Partial → Type 0
IsResumed key exp old d p =
    InStep p d
    × (p.key ≡ key)
    × (p.exp ≡ exp)
    × (p.sha256_fed ≡ kept_bytes exp old)
    × (p.done ≡ false)

resume-IsResumed :
    (fault : OpenFault) (now : ℕ) (key : Text) (exp : Expect) (d : Disk) (p : Partial)
    → (resume fault now key exp d).0 ≡ ok p
    → IsResumed key exp (part_content key d) (resume fault now key exp d).1 p
unfolding resume
resume-IsResumed stat_failed now key exp d p h = cc
resume-IsResumed read_failed now key exp d p h = cc
resume-IsResumed _ now key exp d p h =
    let e : resumed key exp (kept_bytes exp (part_content key d)) ≡ p = cc in
    subst (IsResumed key exp (part_content key d) (truncated now key exp d)) e
      (resumed-InStep now key exp d, refl, refl, refl, refl)

part_content-create :
    (now : ℕ) (key : Text) (d : Disk)
    → part_content key (create_part now key (lock now key d)) ≡ part_content key d
unfolding create_part lock part_content write_part has_key
part_content-create now key d =
    ground (arith, get-put key key (record { content = []; mtime = now }) d.parts, ≟_refl key)

-- `Partial` succeeds only if nobody holds the partial, and by way of `resume`.
pub open_partial-ok :
    (ended : Bool) (fault : OpenFault) (now : ℕ) (key : Text) (exp : Expect) (d : Disk)
    (p : Partial)
    → (open_partial ended fault now key exp d).0 ≡ ok p
    → (is_locked key d ≡ false)
      × (open_partial ended fault now key exp d
          ≡ resume fault now key exp (create_part now key (lock now key d)))
unfolding open_partial
open_partial-ok ended lock_failed now key exp d p h = absurd (ground arith)
open_partial-ok ended open_failed now key exp d p h = absurd (ground arith)
open_partial-ok ended _ now key exp d p h = ground arith

-- A partial that `Partial` opens is in step with its file, has the key and the expectation that were
-- asked for, is not closed, and keeps the bytes that an earlier attempt left, unless those are more
-- than the blob can have.
pub open_partial-IsResumed :
    (ended : Bool) (fault : OpenFault) (now : ℕ) (key : Text) (exp : Expect) (d : Disk)
    (p : Partial)
    → (open_partial ended fault now key exp d).0 ≡ ok p
    → IsResumed key exp (part_content key d) (open_partial ended fault now key exp d).1 p
open_partial-IsResumed ended fault now key exp d p h =
    let (_, way) = open_partial-ok ended fault now key exp d p h in
    let d1 = create_part now key (lock now key d) in
    rw (way, ← part_content-create now key d)
      (resume-IsResumed fault now key exp d1 p (rw (← way) h))

not-locked-without : (key : Text) (ks : List Text) → any (λ k. k ≟ key) (without key ks) ≡ false
unfolding without
not-locked-without key [] = refl
not-locked-without key (k ∷ ks) = ground (arith, not-locked-without key ks)

close-part_content :
    (p : Partial) (d : Disk) (key : Text) → part_content key (close p d).1 ≡ part_content key d
unfolding close unlock part_content
close-part_content p d key = ground arith

close-unlocks : (p : Partial) (d : Disk) → p.done ≡ false → is_locked p.key (close p d).1 ≡ false
unfolding close unlock is_locked
close-unlocks p d e = rw e (not-locked-without p.key d.locks)

kept_bytes-fed :
    (p : Partial) (d : Disk) → InStep p d → kept_bytes p.exp p.sha256_fed ≡ p.sha256_fed
unfolding kept_bytes is_too_long
kept_bytes-fed p d s = ground (arith, s.fits, s.counted)

resumed-fed :
    (p : Partial) (d : Disk) → InStep p d → p.done ≡ false → resumed p.key p.exp p.sha256_fed ≡ p
unfolding resumed
resumed-fed p d s e = ground (arith, resumed-headed p.exp p.sha256_fed, s.headed, s.counted)

open_partial-resumed :
    (now : ℕ) (key : Text) (exp : Expect) (d : Disk)
    → is_key key ≡ true
    → (not (exp.sha256 ≟ []) && not (is_sha256 exp.sha256)) ≡ false
    → is_locked key d ≡ false
    → (open_partial false OpenFault.nothing now key exp d).0
      ≡ ok (resumed key exp (kept_bytes exp (part_content key d)))
unfolding open_partial resume
open_partial-resumed now key exp d shape valid free = ground (arith, part_content-create now key d)

-- A download that is interrupted between two writes and taken up again is the same download: a
-- partial in step with its file that is closed and opened again under its key, with the same
-- expectation, is the partial that it was, down to the state of its hashes.
pub open_partial-close :
    (now : ℕ) (p : Partial) (d : Disk)
    → InStep p d
    → p.done ≡ false
    → is_key p.key ≡ true
    → (not (p.exp.sha256 ≟ []) && not (is_sha256 p.exp.sha256)) ≡ false
    → (open_partial false OpenFault.nothing now p.key p.exp (close p d).1).0 ≡ ok p
open_partial-close now p d s going shape valid =
    open_partial-resumed now p.key p.exp (close p d).1 shape valid (close-unlocks p d going)
    ∙ ap ok (
        ap (λ t. resumed p.key p.exp (kept_bytes p.exp t))
          (close-part_content p d p.key ∙ s.content)
        ∙ ap (resumed p.key p.exp) (kept_bytes-fed p d s)
        ∙ resumed-fed p d s going)
