-- ===== src/Archiver/Show.antt =====
-- lab5/archiver.c: `show_contents`.
use operation_systems_mirea.Base.{
  ℕ, zero, suc, ◌+◌, List, [], ◌∷◌, Option, none, some, if◌then◌else◌, length,
}
use operation_systems_mirea.Base.Text.{Bytes}
use operation_systems_mirea.Archiver.Files.{Kernel, Disk, contents_of, open_read}
use operation_systems_mirea.Archiver.Entry.{Layout, read_entry}

-- What is printed between the header and the last line, and the total there.
pub record Listing : Type 0 where
  pub rows : List (Bytes × ℕ)
  pub count : ℕ

-- The loop over the entries; `lseek` goes past the data, also past the end of the file.
unfoldable pub show_loop : Kernel → Layout → ℕ → Disk → Bytes → ℕ → ℕ → Option Listing
unfolding read_entry
show_loop k l zero d archive offset count = none
show_loop k l (suc fuel) d archive offset count = elim (read_entry k l d archive offset) [
  | none ↦ some (record { rows = []; count = count })
  | some e ↦
      let rest = show_loop k l fuel d archive (offset + l.header_size + e.size) (count + 1) in
      elim rest [ none ↦ none | some r ↦ some (record r { rows = (e.name, e.size) ∷ r.rows }) ]
]

-- Each round takes a header, so one round more than the archive has bytes is enough; none where the
-- archive cannot be opened (the status is then 1, and 0 otherwise).
unfoldable pub show_contents : Kernel → Layout → Disk → Bytes → Option Listing
unfolding show_loop
show_contents k l d archive =
    if open_read k d archive
    then show_loop k l (suc (length (contents_of (d archive)))) d archive 0 0
    else none
