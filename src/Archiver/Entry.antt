-- ===== src/Archiver/Entry.antt =====
-- lab5/archiver.c: `struct archive_entry` and its bytes on the disk. How the compiler lays the
-- structure out is the parameter `Layout`.
use operation_systems_mirea.Base.{
  ℕ, ◌-◌, ◌≡◌, ◌<◌, Option, none, some, ◌==◌, if◌then◌else◌, length, take,
}
use operation_systems_mirea.Base.Text.{Bytes}
use operation_systems_mirea.Archiver.Files.{Kernel, Disk, File, read_at}

-- MAX_NAME_LENGTH and BUFFER_SIZE
abbrev pub max_name_length : ℕ
max_name_length = 256

unfoldable pub buffer_size : ℕ
buffer_size = 4096

-- `name` is the C string in the array; `size` is not negative.
pub record ArchiveEntry : Type 0 where
  pub name : Bytes
  pub size : ℕ
  pub mode : ℕ
  pub uid : ℕ
  pub gid : ℕ
  pub atime : ℕ
  pub mtime : ℕ

-- `sizeof(struct archive_entry)`, and the structure as the bytes that `write` and `read` move.
pub record Layout : Type 0 where
  pub header_size : ℕ
  pub encode : ArchiveEntry → Bytes
  pub decode : Bytes → ArchiveEntry

-- What C gives of a layout: it is not empty, each structure takes its size, and the fields that
-- are read from the bytes of a structure are its fields, where they fit their types.
pub record IsLawful (l : Layout) (Valid : ArchiveEntry → Type 0) : Type 0 where
  pub header_pos : 0 < l.header_size
  pub length-encode : (e : ArchiveEntry) → length (l.encode e) ≡ l.header_size
  pub decode-encode : (e : ArchiveEntry) → Valid e → l.decode (l.encode e) ≡ e

-- The entry of a file; `strncpy` cuts the name.
unfoldable pub entry_of : Bytes → File → ArchiveEntry
entry_of filename f = record {
  name = take (max_name_length - 1) filename;
  size = length f.contents;
  mode = f.mode;
  uid = f.uid;
  gid = f.gid;
  atime = f.atime;
  mtime = f.mtime;
}

-- `read_entry` at an offset: none where `read` fails or fewer bytes than a
-- header are left.
unfoldable pub read_entry : Kernel → Layout → Disk → Bytes → ℕ → Option ArchiveEntry
unfolding read_at
read_entry k l d archive offset =
    let header = read_at d archive offset l.header_size in
    if k.read_fails archive offset
    then none
    else if length header == l.header_size
    then some (l.decode header)
    else none
