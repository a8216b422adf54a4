-- ===== src/Store/Cleanup.antt =====
-- internal/store/gc.go: `CleanTmp`. Times and ages are in seconds; a file from the future is young.
use weightkeep.Prelude.{
  ℕ, ◌+◌, Text, Assoc, List, [], ◌∷◌, ◌++◌, Bool, true, false, not, ◌&&◌, ◌||◌, ltb, if◌then◌else◌,
  remove, length,
}
use weightkeep.Store.{File, Disk, is_key, is_locked}
use weightkeep.Store.Partials.{lock, unlock}

pub record TmpCleanup : Type 0 where
  pub locks : ℕ
  pub partials : ℕ
  pub bytes : ℕ

-- `key.lock` or `key.part`, as `ReadDir` and `Info` tell it.
pub record TmpEntry : Type 0 where
  pub key : Text
  pub is_lock : Bool
  pub mtime : ℕ
  pub size : ℕ

unfoldable pub lock_entries : Assoc ℕ → List TmpEntry
lock_entries [] = []
lock_entries ((k, t) ∷ m) = record { key = k; is_lock = true; mtime = t; size = 0 } ∷ lock_entries m

unfoldable pub part_entries : Assoc File → List TmpEntry
part_entries [] = []
part_entries ((k, f) ∷ m) =
    record { key = k; is_lock = false; mtime = f.mtime; size = length f.content } ∷ part_entries m

-- The listing is sorted by name; entries of different keys do not affect one another, and for one
-- key the lock file comes first.
unfoldable pub tmp_entries : Disk → List TmpEntry
unfolding lock_entries part_entries
tmp_entries d = lock_entries d.lock_files ++ part_entries d.parts

pub record CleanOptions : Type 0 where
  pub now : ℕ
  pub lock_age : ℕ
  pub partial_age : ℕ
  pub dry_run : Bool
  -- Whether the system refuses to remove an entry.
  pub refused : TmpEntry → Bool

unfoldable pub is_young : CleanOptions → TmpEntry → Bool
is_young o e =
    (e.is_lock && ltb o.now (e.mtime + o.lock_age))
    || (not e.is_lock && ltb o.now (e.mtime + o.partial_age))

-- Taking the lock and releasing it: what is left is a lock file, if there was none.
unfoldable pub touch_lock : ℕ → Text → Disk → Disk
unfolding lock unlock
touch_lock now key d = unlock key (lock now key d)

unfoldable pub clean_entry : CleanOptions → TmpEntry → TmpCleanup × Disk → TmpCleanup × Disk
clean_entry o e (res, d) =
    if not (is_key e.key) || is_young o e || is_locked e.key d
    then (res, d)
    else let d1 = touch_lock o.now e.key d in
      if not o.dry_run && o.refused e
      then (res, d1)
      else if e.is_lock
      then (
        record res { locks = res.locks + 1 },
        if o.dry_run then d1 else record d1 { lock_files = remove e.key d1.lock_files },
      )
      else (
        record res { partials = res.partials + 1; bytes = res.bytes + e.size },
        if o.dry_run then d1 else record d1 { parts = remove e.key d1.parts },
      )

unfoldable pub clean_entries : CleanOptions → List TmpEntry → TmpCleanup × Disk → TmpCleanup × Disk
unfolding clean_entry
clean_entries o [] acc = acc
clean_entries o (e ∷ es) acc = clean_entries o es (clean_entry o e acc)

unfoldable pub clean_tmp : CleanOptions → Disk → TmpCleanup × Disk
unfolding clean_entries tmp_entries
clean_tmp o d = clean_entries o (tmp_entries d) (record { locks = 0; partials = 0; bytes = 0 }, d)
