-- ===== src/Archiver/Files.antt =====
-- lab5/archiver.c: the files that the archiver reaches through `open`, `read`, `write`, `unlink` and
-- `rename`. What the system allows is the parameter `Kernel`. Each name is a file of its own.
use operation_systems_mirea.Base.{
  ℕ, ◌+◌, ◌-◌, Bool, true, false, ◌&&◌, [], ◌++◌, Option, none, some, min, if◌then◌else◌, length,
  take, drop, replicate,
}
use operation_systems_mirea.Base.Text.{Bytes, str_eq}

pub record File : Type 0 where
  pub contents : Bytes
  pub mode : ℕ
  pub uid : ℕ
  pub gid : ℕ
  pub atime : ℕ
  pub mtime : ℕ

abbrev pub Disk : Type 0
Disk = Bytes → Option File

pub record Kernel : Type 0 where
  pub may_read : Bytes → Bool
  pub may_write : Bytes → Bool
  -- how many of the bytes that a `write` offers at an offset go in
  pub room : Bytes → ℕ → ℕ → ℕ
  pub read_fails : Bytes → ℕ → Bool
  pub rename_works : Bool
  pub utime_works : Bytes → Bool
  pub chown_works : Bytes → Bool
  pub chmod_works : Bytes → Bool
  -- owner and times of a file that `open` creates
  pub new_file : Bytes → File

unfoldable pub put : Disk → Bytes → Option File → Disk
put d name f other = if str_eq name other then f else d other

abbrev pub contents_of : Option File → Bytes
contents_of none = []
contents_of (some f) = f.contents

abbrev pub exists_file : Option File → Bool
exists_file none = false
exists_file (some f) = true

-- `open(name, O_RDONLY)`, and `open(name, O_RDWR)`
abbrev pub open_read : Kernel → Disk → Bytes → Bool
open_read k d name = exists_file (d name) && k.may_read name

abbrev pub open_both : Kernel → Disk → Bytes → Bool
open_both k d name = exists_file (d name) && (k.may_read name && k.may_write name)

abbrev pub created : Kernel → Bytes → ℕ → File
created k name mode = record (k.new_file name) { contents = []; mode = mode }

abbrev pub or_created : Kernel → Bytes → ℕ → Option File → File
or_created k name mode none = created k name mode
or_created k name mode (some f) = f

abbrev pub or_emptied : Kernel → Bytes → ℕ → Option File → File
or_emptied k name mode none = created k name mode
or_emptied k name mode (some f) = record f { contents = [] }

-- `open(name, O_WRONLY | O_CREAT | O_APPEND, mode)` and `open(name, O_WRONLY | O_CREAT | O_TRUNC, mode)`
unfoldable pub open_append : Kernel → Disk → Bytes → ℕ → Option Disk
open_append k d name mode =
    if k.may_write name then some (put d name (some (or_created k name mode (d name)))) else none

unfoldable pub open_truncate : Kernel → Disk → Bytes → ℕ → Option Disk
open_truncate k d name mode =
    if k.may_write name then some (put d name (some (or_emptied k name mode (d name)))) else none

-- `read` of `n` bytes at an offset: fewer at the end of the file.
unfoldable pub read_at : Disk → Bytes → ℕ → ℕ → Bytes
read_at d name offset n = take n (drop offset (contents_of (d name)))

-- Bytes over those of a file from an offset on; a gap before it is filled with zeros.
abbrev pub overwrite : ℕ → Bytes → Bytes → Bytes
overwrite offset new old =
    take offset old
    ++ (replicate (offset - length old) 0 ++ (new ++ drop (offset + length new) old))

abbrev pub with_contents : Option File → Bytes → Option File
with_contents none new = none
with_contents (some f) new = some (record f { contents = new })

-- What `write` returns, and the disk after it.
unfoldable pub write_at : Kernel → Disk → Bytes → ℕ → Bytes → ℕ × Disk
write_at k d name offset new =
    let n = min (length new) (k.room name offset (length new)) in
    (n, put d name (with_contents (d name) (overwrite offset (take n new) (contents_of (d name)))))

-- `write` to a file that is open with O_APPEND
abbrev pub append : Kernel → Disk → Bytes → Bytes → ℕ × Disk
append k d name new = write_at k d name (length (contents_of (d name))) new

-- `utime`, `chown` and `chmod`, each with its result ignored.
abbrev pub set_times : Kernel → Bytes → ℕ → ℕ → Option File → Option File
set_times k name atime mtime none = none
set_times k name atime mtime (some f) =
    some (if k.utime_works name then record f { atime = atime; mtime = mtime } else f)

abbrev pub set_owner : Kernel → Bytes → ℕ → ℕ → Option File → Option File
set_owner k name uid gid none = none
set_owner k name uid gid (some f) =
    some (if k.chown_works name then record f { uid = uid; gid = gid } else f)

abbrev pub set_mode : Kernel → Bytes → ℕ → Option File → Option File
set_mode k name mode none = none
set_mode k name mode (some f) = some (if k.chmod_works name then record f { mode = mode } else f)
