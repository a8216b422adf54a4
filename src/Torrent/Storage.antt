-- ===== src/Torrent/Storage.antt =====
-- internal/torrent/blobstorage.go: the storage that serves and receives the pieces of padded torrents.
use weightkeep.Prelude.{
  ℕ, zero, suc, ◌+◌, ◌-◌, ◌*◌, ◌/◌, ◌%◌, Text, List, [], ◌∷◌, ◌++◌, Bool, true, false, not, ◌||◌,
  ltb, leb, ◌==◌, if◌then◌else◌, Option, none, some, Result, ok, err, ◌>>=◌, min, length, take,
  drop, replicate, Assoc, get, put,
}
use weightkeep.Ids.{slash}
use weightkeep.Torrent.Pieces.{zeros}
use weightkeep.Torrent.Build.{InfoFile}

-- A file of the metainfo with the offset that `UpvertedV1Files` of the torrent library gives it.
pub record PlacedFile : Type 0 where
  pub file : InfoFile
  pub torrent_offset : ℕ

pub record PieceLoc : Type 0 where
  pub path : Text
  pub file_off : ℕ
  pub data_bytes : ℕ

-- `alignedStorage`: `done` lists the pieces last marked complete or not complete.
pub record AlignedStorage : Type 0 where
  pub pieces : List PieceLoc
  pub writable : Bool
  pub done : List (ℕ × Bool)

pub data StorageError : Type 0 where
  unaligned no_file : Text → StorageError
  too_few_hashes unowned_piece : ℕ → StorageError
  read_only cannot_open cannot_make_dir cannot_write short_read : StorageError

-- `joinPath`
unfoldable pub join_rest : List Text → Text
join_rest [] = []
join_rest (p ∷ ps) = slash ∷ p ++ join_rest ps

unfoldable pub join_path : List Text → Text
unfolding join_rest
join_path [] = []
join_path (p ∷ ps) = p ++ join_rest ps

-- A write to an element of a slice.
unfoldable pub set_at {ℓ} : {A : Type ℓ} → ℕ → A → List A → List A
set_at i x [] = []
set_at zero x (y ∷ ys) = x ∷ ys
set_at (suc i) x (y ∷ ys) = y ∷ set_at i x ys

-- The slices `pieces` and `assigned`: nothing where a piece is not assigned.
abbrev pub Slots : Type 0
Slots = List (Option PieceLoc)

module _ (pl : ℕ) where
  unfoldable pub piece_of : Text → ℕ → ℕ → PieceLoc
  piece_of path size j = record {
    path = path;
    file_off = j * pl;
    data_bytes = min pl (size - j * pl);
  }

  -- The loop over the pieces of a file, from its piece `j`; the length bounds the rounds.
  unfoldable pub assign : ℕ → Text → ℕ → ℕ → ℕ → Slots → Result StorageError Slots
  unfolding set_at piece_of
  assign zero path first size j slots = ok slots
  assign (suc rounds) path first size j slots =
      let more =
        assign rounds path first size (suc j)
          (set_at (first + j) (some (piece_of path size j)) slots) in
      if not (ltb (j * pl) size)
      then ok slots
      else if leb (length slots) (first + j)
      then err (too_few_hashes (length slots))
      else more

  unfoldable pub assign_found : PlacedFile → Option Text → Slots → Result StorageError Slots
  unfolding assign
  assign_found f none slots = err (no_file (join_path f.file.path))
  assign_found f (some path) slots =
      assign f.file.length path (f.torrent_offset / pl) f.file.length 0 slots

  -- One round of the loop over the files.
  unfoldable pub place_file : (Text → Option Text) → PlacedFile → Slots → Result StorageError Slots
  unfolding assign_found join_path
  place_file path_for f slots =
      if f.file.is_pad || f.file.length == 0
      then ok slots
      else if not (f.torrent_offset % pl == 0)
      then err (unaligned (join_path f.file.path))
      else assign_found f (path_for (join_path f.file.path)) slots

  unfoldable pub place_files :
      (Text → Option Text) → List PlacedFile → Slots → Result StorageError Slots
  unfolding place_file
  place_files path_for [] slots = ok slots
  place_files path_for (f ∷ fs) slots = place_file path_for f slots >>= place_files path_for fs

-- The last loop: every piece belongs to a file.
unfoldable pub all_assigned : ℕ → Slots → Result StorageError (List PieceLoc)
all_assigned i [] = ok []
all_assigned i (none ∷ slots) = err (unowned_piece i)
all_assigned i (some loc ∷ slots) = all_assigned (suc i) slots >>= λ locs. ok (loc ∷ locs)

-- `newAlignedStorage` for a metainfo with this piece length, number of pieces and files.
unfoldable pub new_aligned_storage :
    ℕ → ℕ → List PlacedFile → (Text → Option Text) → Bool → Result StorageError AlignedStorage
unfolding place_files all_assigned
new_aligned_storage pl count files path_for writable =
    place_files pl path_for files (replicate count none) >>= λ slots.
    all_assigned 0 slots >>= λ locs. ok (record { pieces = locs; writable = writable; done = [] })

-- The files on disk.
abbrev pub Files : Type 0
Files = Assoc Text

-- What `ReadAt` of the opened file gives: an error where it ends before the buffer is full.
unfoldable pub read_file : Option Text → ℕ → ℕ → ℕ → Result StorageError Text
read_file none at want size = err cannot_open
read_file (some bytes) at want size =
    if ltb (length (take want (drop at bytes))) want
    then err short_read
    else ok (take want (drop at bytes) ++ zeros (size - want))

-- `alignedPiece.ReadAt` with a buffer of `size` bytes: the bytes it is left with.
unfoldable pub read_at : Files → PieceLoc → ℕ → ℕ → Result StorageError Text
unfolding read_file
read_at files loc size off =
    if ltb off loc.data_bytes
    then read_file (get loc.path files) (loc.file_off + off) (min size (loc.data_bytes - off)) size
    else ok (zeros size)

-- What can fail when a piece is written; a failed write may have stored some of the bytes.
pub data WriteFault : Type 0 where
  no_fault mkdir_failed open_failed : WriteFault
  write_failed : ℕ → WriteFault

-- `WriteAt` of a file: a gap before the bytes reads as zeros, and no bytes leave no gap.
unfoldable pub overwrite : ℕ → Text → Text → Text
overwrite at [] old = old
overwrite at (c ∷ b) old =
    take at old ++ zeros (at - length old) ++ (c ∷ b) ++ drop (at + length (c ∷ b)) old

unfoldable pub content : Option Text → Text
content none = []
content (some bytes) = bytes

-- `MkdirAll`, `OpenFile` with O_CREATE, and `WriteAt`.
unfoldable pub store_bytes :
    WriteFault → Files → Text → ℕ → Text → Files × Result {0, 0} StorageError Unit
unfolding overwrite content
store_bytes no_fault files path at b =
    (put path (overwrite at b (content (get path files))) files, ok tt)
store_bytes mkdir_failed files path at b = (files, err cannot_make_dir)
store_bytes open_failed files path at b = (files, err cannot_open)
store_bytes (write_failed k) files path at b =
    (put path (overwrite at (take k b) (content (get path files))) files, err cannot_write)

-- `alignedPiece.WriteAt`
unfoldable pub write_at :
    WriteFault → Bool → Files → PieceLoc → Text → ℕ → Files × Result StorageError ℕ
unfolding store_bytes
write_at fault writable files loc b off =
    let stored =
      store_bytes fault files loc.path (loc.file_off + off)
        (take (min (length b) (loc.data_bytes - off)) b) in
    if not writable
    then (files, err read_only)
    else if ltb off loc.data_bytes
    then (stored.0, stored.1 >>= λ _. ok (length b))
    else (files, ok (length b))

-- `set`, for `MarkComplete` and `MarkNotComplete`.
unfoldable pub mark : ℕ → Bool → AlignedStorage → AlignedStorage
mark i complete s = if not s.writable then s else record s { done = (i, complete) ∷ s.done }

unfoldable pub last_mark : ℕ → List (ℕ × Bool) → Bool
last_mark i [] = false
last_mark i ((j, complete) ∷ marks) = if j == i then complete else last_mark i marks

-- `Completion`
unfoldable pub completion : ℕ → AlignedStorage → Bool
unfolding last_mark
completion i s = if not s.writable then true else last_mark i s.done
