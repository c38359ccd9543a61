-- ===== src/Archiver/Machine.antt =====
-- lab5/archiver.c: a layout of the header as on a 64-bit machine, and a small disk.
use operation_systems_mirea.Base.CString.{c_string}
use operation_systems_mirea.Base.{
  ℕ, zero, suc, ◌+◌, ◌*◌, ◌/◌, ◌%◌, ◌≡◌, true, false, List, [], ◌∷◌, ◌++◌, none, some, arith,
  length, take, drop, replicate, length-append, length-take, length-replicate, if◌then◌else◌,
}
use operation_systems_mirea.Base.Text.{Bytes, codes, str_eq}
use operation_systems_mirea.Archiver.Files.{Kernel, Disk, File}
use operation_systems_mirea.Archiver.Entry.{Layout, IsLawful, ArchiveEntry}
use operation_systems_mirea.Archiver.Members.{Member, serialize}

-- A number in `w` bytes, the lowest first.
abbrev pub le_bytes : ℕ → ℕ → Bytes
le_bytes zero n = []
le_bytes (suc w) n = n % 256 ∷ le_bytes w (n / 256)

abbrev pub le_number : Bytes → ℕ
le_number [] = 0
le_number (c ∷ s) = c + 256 * le_number s

abbrev pub field : ℕ → ℕ → Bytes → ℕ
field at w s = le_number (take w (drop at s))

abbrev pub numbers : ArchiveEntry → Bytes
numbers e =
    le_bytes 8 e.size
    ++ (le_bytes 4 e.mode
        ++ (le_bytes 4 e.uid
            ++ (le_bytes 4 e.gid ++ (le_bytes 4 0 ++ (le_bytes 8 e.atime ++ le_bytes 8 e.mtime)))))

unfoldable pub name_field : Bytes → Bytes
name_field name = take 256 (name ++ replicate 256 0)

abbrev pub machine_layout : Layout
machine_layout = record {
  header_size = 296;
  encode = λ e. name_field e.name ++ numbers e;
  decode = λ s. record {
    name = c_string (take 256 s);
    size = field 256 8 s;
    mode = field 264 4 s;
    uid = field 268 4 s;
    gid = field 272 4 s;
    atime = field 280 8 s;
    mtime = field 288 8 s;
  };
}

pub length-name_field : (name : Bytes) → length (name_field name) ≡ 256
unfolding name_field
length-name_field name = omega (
  arith,
  length-take 256 (name ++ replicate 256 0),
  length-append name (replicate 256 0),
  length-replicate 256 (◌+◌ 0 0),
)

-- The entries whose fields fit.
unfoldable pub RoundTrips : ArchiveEntry → Type 0
RoundTrips e = machine_layout.decode (machine_layout.encode e) ≡ e

pub machine_layout-IsLawful : IsLawful machine_layout RoundTrips
unfolding RoundTrips
machine_layout-IsLawful = record {
  header_pos = omega arith;
  length-encode =
      λ e. omega (arith, length-append (name_field e.name) (numbers e), length-name_field e.name);
  decode-encode = λ e h. h;
}

abbrev pub plain_file : Bytes → File
plain_file s = record { contents = s; mode = 0o644; uid = 7; gid = 8; atime = 100; mtime = 200 }

abbrev pub able : Kernel
able = record {
  may_read = λ name. true;
  may_write = λ name. true;
  room = λ name offset n. n;
  read_fails = λ name offset. false;
  rename_works = true;
  utime_works = λ name. true;
  chown_works = λ name. false;
  chmod_works = λ name. true;
  new_file = λ name. plain_file [];
}

abbrev pub note : Bytes
note = codes "hello"

-- One file `f` and no archive.
abbrev pub one_file : Disk
one_file name = if str_eq name (codes "f") then some (plain_file note) else none

abbrev pub note_entry : ArchiveEntry
note_entry = record {
  name = codes "f";
  size = 5;
  mode = 0o644;
  uid = 7;
  gid = 8;
  atime = 100;
  mtime = 200;
}

abbrev pub two_members : List Member
two_members = (note_entry, note) ∷ (record note_entry { name = codes "g" }, note) ∷ []

abbrev pub archived : Disk
archived name =
    if str_eq name (codes "a")
    then some (plain_file (serialize machine_layout two_members))
    else none
