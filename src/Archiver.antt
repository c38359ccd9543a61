-- ===== src/Archiver.antt =====
-- lab5/archiver.c: the archiver. `Disk` is the files, `Layout` the bytes of a header.
pub mod Files
pub mod Entry
pub mod Add
pub mod Show
pub mod Extract
pub mod Members
pub mod Growth
pub mod Copying
pub mod Rounds
pub mod Removal
pub mod Scanning
pub mod Extraction
pub mod RoundTrip
pub mod Shown
pub mod Addition
mod Machine
mod Tests
mod ExtractTests
use operation_systems_mirea.Base.{
  ℕ, Bool, true, false, ◌&&◌, List, [], ◌∷◌, if◌then◌else◌, Option, none, some,
}
use operation_systems_mirea.Base.Text.{Bytes, codes, str_eq}
use Files.{Kernel, Disk}
use Entry.{Layout}
use Add.{Added, add_to_archive}
use Show.{Listing, show_contents}
use Extract.{Extracted, extract_from_archive}

-- What a run comes to, by the operation that it chose.
pub data Run : Type 0 where
  help : ℕ → Run
  added : Added → Run
  extracted : Extracted → Run
  shown : Option Listing → Run

abbrev pub dispatch : Kernel → Layout → Disk → Bytes → Bytes → List Bytes → Run
dispatch k l d archive option [] =
    if str_eq option (codes "-s") then shown (show_contents k l d archive) else help 1
dispatch k l d archive option (file ∷ more) =
    if str_eq option (codes "-i")
    then added (add_to_archive k l d archive file)
    else if str_eq option (codes "-e")
    then extracted (extract_from_archive k l d archive file)
    else if str_eq option (codes "-s")
    then shown (show_contents k l d archive)
    else help 1

-- `argv` without the program's name.
unfoldable pub main : Kernel → Layout → Disk → List Bytes → Run
main k l d [] = help 1
main k l d (archive ∷ args) =
    if str_eq archive (codes "-h")
    then help 0
    else elim args [ [] ↦ help 1 | option ∷ more ↦ dispatch k l d archive option more ]
