-- ===== src/Archiver/Extract.antt =====
-- lab5/archiver.c: `extract_from_archive`.
use operation_systems_mirea.Base.{
  ℕ, zero, suc, ◌+◌, ◌-◌, min, Bool, true, false, Option, none, some, ◌==◌, if◌then◌else◌, length,
}
use operation_systems_mirea.Base.Text.{Bytes, codes, str_eq}
use operation_systems_mirea.Archiver.Files.{
  Kernel, Disk, contents_of, put, open_both, open_truncate, read_at, write_at, set_times, set_owner,
  set_mode,
}
use operation_systems_mirea.Archiver.Entry.{Layout, ArchiveEntry, buffer_size, read_entry}

abbrev pub temp_archive : Bytes
temp_archive = codes "temp_archive"

pub data Message : Type 0 where
  cannot_open_archive cannot_create_temp cannot_create cannot_write not_found cannot_rename
        removed :
      Message

pub data Extracted : Type 0 where
  returns : ℕ → Message → Disk → Extracted
  runs_on : Disk → Extracted

-- A copy loop that came to its end, with the two offsets then; or a write that was cut short.
pub data Copied : Type 0 where
  copied : Disk → ℕ → ℕ → Copied
  write_failed : Disk → Copied

-- The loop over `left = entry.size - bytes_processed`, from an offset of the archive to an offset
-- of another file; every round takes a byte at least, so `left` rounds are enough.
unfoldable pub copy_out : Kernel → ℕ → Disk → Bytes → ℕ → Bytes → ℕ → ℕ → Copied
unfolding read_at
copy_out k zero d archive from target to left = copied d from to
copy_out k (suc fuel) d archive from target to left =
    let chunk = read_at d archive from (min left buffer_size) in
    let (n, d') = write_at k d target to chunk in
    let rest =
      copy_out k fuel d' archive (from + length chunk) target (to + length chunk)
        (left - length chunk) in
    if left == 0
    then copied d from to
    else if k.read_fails archive from
    then copied d from to
    else if length chunk == 0
    then copied d from to
    else if n == length chunk
    then rest
    else write_failed d'

-- `utime`, `chown`, `chmod` on the extracted file
abbrev pub restore : Kernel → Bytes → ArchiveEntry → Disk → Disk
restore k filename e d = put d filename (
    set_mode k filename e.mode
      (set_owner k filename e.uid e.gid (set_times k filename e.atime e.mtime (d filename))))

-- The state of the main loop: the disk, the offsets of the archive and of the temporary file, and
-- `found`.
pub record Scan : Type 0 where
  pub disk : Disk
  pub from : ℕ
  pub to : ℕ
  pub found : Bool

-- A round of the main loop either goes on or ends the program.
pub data Round : Type 0 where
  next : Scan → Round
  stop : Message → Disk → Round

abbrev pub after_extract : Kernel → Bytes → ArchiveEntry → Scan → Copied → Round
after_extract k filename e s (copied d from _) =
    next (record { disk = restore k filename e d; from = from; to = s.to; found = true })
after_extract k filename e s (write_failed d) = stop cannot_write d

abbrev pub extract_member : Kernel → Bytes → Bytes → ArchiveEntry → Scan → Option Disk → Round
unfolding copy_out
extract_member k archive filename e s none = stop cannot_create s.disk
extract_member k archive filename e s (some d) =
    after_extract k filename e s (copy_out k e.size d archive s.from filename 0 e.size)

abbrev pub after_keep : Scan → Copied → Round
after_keep s (copied d from to) = next (record s { disk = d; from = from; to = to })
after_keep s (write_failed d) = stop cannot_write d

-- The header goes to the temporary file, whatever `write` returns; then the data.
unfoldable pub keep_member : Kernel → Layout → Bytes → ArchiveEntry → Scan → Round
unfolding copy_out
keep_member k l archive e s =
    let (n, d) = write_at k s.disk temp_archive s.to (l.encode e) in
    after_keep s (copy_out k e.size d archive s.from temp_archive (s.to + n) e.size)

unfoldable pub round : Kernel → Layout → Bytes → Bytes → ArchiveEntry → Scan → Round
unfolding copy_out open_truncate keep_member
round k l archive filename e s =
    if str_eq e.name filename
    then extract_member k archive filename e s (open_truncate k s.disk filename e.mode)
    else keep_member k l archive e s

-- After the loop: the temporary file is removed, or takes the archive's place.
unfoldable pub conclude : Kernel → Bytes → Scan → Extracted
conclude k archive s =
    if s.found
    then (if k.rename_works
        then returns 0 removed (
            put (put s.disk archive (s.disk temp_archive)) temp_archive
              (if str_eq archive temp_archive then s.disk temp_archive else none))
        else returns 1 cannot_rename s.disk)
    else returns 1 not_found (put s.disk temp_archive none)

unfoldable pub extract_loop : Kernel → Layout → ℕ → Bytes → Bytes → Scan → Extracted
extract_loop k l zero archive filename s = runs_on s.disk
extract_loop k l (suc fuel) archive filename s = elim (read_entry k l s.disk archive s.from) [
  | none ↦ conclude k archive s
  | some e ↦ elim (round k l archive filename e (record s { from = s.from + l.header_size })) [
    | next s' ↦ extract_loop k l fuel archive filename s'
    | stop m d ↦ returns 1 m d
  ]
]

abbrev pub extract_with : Kernel → Layout → Disk → Bytes → Bytes → Option Disk → Extracted
unfolding extract_loop
extract_with k l d archive filename none = returns 1 cannot_create_temp d
extract_with k l d archive filename (some d') =
    extract_loop k l (suc (length (contents_of (d' archive)))) archive filename
      (record { disk = d'; from = 0; to = 0; found = false })

unfoldable pub extract_from_archive : Kernel → Layout → Disk → Bytes → Bytes → Extracted
unfolding extract_loop open_truncate
extract_from_archive k l d archive filename =
    if open_both k d archive
    then extract_with k l d archive filename (open_truncate k d temp_archive 0o644)
    else returns 1 cannot_open_archive d
