-- ===== src/Archiver/Add.antt =====
-- lab5/archiver.c: `add_to_archive`.
use operation_systems_mirea.Base.{
  ℕ, zero, suc, ◌+◌, Option, none, some, ◌==◌, if◌then◌else◌, length,
}
use operation_systems_mirea.Base.Text.{Bytes}
use operation_systems_mirea.Archiver.Files.{
  Kernel, Disk, File, contents_of, open_read, open_append, read_at, append,
}
use operation_systems_mirea.Archiver.Entry.{Layout, buffer_size, entry_of}

pub data Message : Type 0 where
  cannot_stat cannot_open_archive cannot_write cannot_open cannot_read ok : Message

-- The exit status, the message and the disk; or the loop still runs when its rounds are used up.
pub data Added : Type 0 where
  returns : ℕ → Message → Disk → Added
  runs_on : Disk → Added

-- The loop that copies the file to the end of the archive, from an offset on.
unfoldable pub copy_in : Kernel → ℕ → Disk → Bytes → Bytes → ℕ → Added
unfolding read_at
copy_in k zero d archive file offset = runs_on d
copy_in k (suc fuel) d archive file offset =
    let chunk = read_at d file offset buffer_size in
    let (n, d') = append k d archive chunk in
    let rest = copy_in k fuel d' archive file (offset + length chunk) in
    if k.read_fails file offset
    then returns 1 cannot_read d
    else if length chunk == 0
    then returns 0 ok d
    else if n == length chunk
    then rest
    else returns 1 cannot_write d'

-- `write_entry`, then the file.
unfoldable pub add_open : Kernel → Layout → Disk → Bytes → Bytes → File → Added
unfolding copy_in
add_open k l d archive filename info =
    let header = l.encode (entry_of filename info) in
    let (n, d') = append k d archive header in
    if n == l.header_size
    then (if open_read k d' filename
        then copy_in k (suc (length (contents_of (d' filename)))) d' archive filename 0
        else returns 1 cannot_open d')
    else returns 1 cannot_write d'

abbrev pub add_to : Kernel → Layout → Disk → Bytes → Bytes → File → Option Disk → Added
unfolding add_open
add_to k l d archive filename info none = returns 1 cannot_open_archive d
add_to k l d archive filename info (some d') = add_open k l d' archive filename info

abbrev pub add_found : Kernel → Layout → Disk → Bytes → Bytes → Option File → Added
unfolding add_open open_append
add_found k l d archive filename none = returns 1 cannot_stat d
add_found k l d archive filename (some info) =
    add_to k l d archive filename info (open_append k d archive 0o644)

unfoldable pub add_to_archive : Kernel → Layout → Disk → Bytes → Bytes → Added
unfolding add_open open_append
add_to_archive k l d archive filename = add_found k l d archive filename (d filename)
