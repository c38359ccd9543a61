-- ===== src/Archiver/ExtractTests.antt =====
-- lab5/archiver.c: extraction at a concrete archive, and tests.
use operation_systems_mirea.Base.{◌≡◌, ◌≢◌, refl, [], ◌∷◌, none, some, arith, if◌then◌else◌}
use operation_systems_mirea.Base.Text.{Bytes, codes, str_eq}
use operation_systems_mirea.Archiver.Files.{Disk, File, write_at, put, contents_of}
use operation_systems_mirea.Archiver.Entry.{entry_of, buffer_size}
use operation_systems_mirea.Archiver.Add.{add_to_archive, returns, ok}
use operation_systems_mirea.Archiver.Extract.{Extracted, extract_from_archive}
use operation_systems_mirea.Archiver.Members.{serialize}
-- A number in `w` bytes, the lowest first.
use operation_systems_mirea.Archiver.Machine.{
  name_field, machine_layout, RoundTrips, machine_layout-IsLawful, plain_file, able, note, one_file,
  note_entry, two_members, archived,
}
use operation_systems_mirea.Archiver.Extraction.{Extraction, extract_from_archive-Extraction}
use operation_systems_mirea.Archiver.Rounds.{IsRestored}
use operation_systems_mirea.Archiver.RoundTrip.{extract-add}
use operation_systems_mirea.Archiver.Extract.{
  Extracted, extract_from_archive, extract_loop, round, conclude, removed, temp_archive,
}
use operation_systems_mirea.Archiver.Entry.{read_entry}

f_not_a : ◌≢◌ {A = Bytes} (codes "a") (codes "f")
f_not_a h = absurd (ground arith)

a_not_temp : (codes "a") ≢ temp_archive
a_not_temp h = absurd (ground arith)

f_not_temp : (codes "f") ≢ temp_archive
f_not_temp h = absurd (ground arith)

extract_from_archive-Extraction_example :
    (d' : Disk) × (extract_from_archive able machine_layout archived (codes "a") (codes "f")
      ≡ Extracted.returns 0 removed d')
    × Extraction able machine_layout
        (codes "a")
        (codes "f")
        archived
        two_members
        (note_entry, note)
        d'
unfolding RoundTrips name_field
extract_from_archive-Extraction_example =
    extract_from_archive-Extraction able machine_layout machine_layout-IsLawful (codes "a")
      (codes "f") a_not_temp f_not_a f_not_temp (λ name offset n. refl) (λ offset. refl) refl
      archived two_members (note_entry, note) ((refl, refl), ((refl, refl), tt)) refl refl refl refl
      refl

-- `f` and an empty archive
abbrev with_empty : Disk
with_empty name = if str_eq name (codes "a") then some (plain_file []) else one_file name

extract-add_example :
    (d1 : Disk) × (add_to_archive able machine_layout with_empty (codes "a") (codes "f")
      ≡ returns 0 ok d1)
    × ((again : Disk)
        → again (codes "a") ≡ d1 (codes "a")
        → (d2 : Disk) × (f' : File) × (extract_from_archive able machine_layout again
              (codes "a")
              (codes "f")
            ≡ Extracted.returns 0 removed d2)
          × (d2 (codes "f") ≡ some f')
          × IsRestored able (codes "f") (entry_of (codes "f") (plain_file note)) note f'
          × (contents_of (d2 (codes "a")) ≡ serialize machine_layout []))
unfolding RoundTrips name_field entry_of serialize
extract-add_example =
    extract-add able machine_layout machine_layout-IsLawful (codes "a") (codes "f") a_not_temp
      f_not_a f_not_temp (λ name offset n. refl) (λ name offset. refl) (λ name. refl) (λ name. refl)
      refl with_empty [] (plain_file note) tt refl refl (omega arith) refl

abbrev disk_of : Extracted → Disk
disk_of (Extracted.returns status m d) = d
disk_of (Extracted.runs_on d) = d

-- Extracting the first member writes it out and leaves the archive with the second.
extracted_first :
    let r = extract_from_archive able machine_layout archived (codes "a") (codes "f") in
    (contents_of (disk_of r (codes "f")) ≡ note)
    × (contents_of (disk_of r (codes "a"))
        ≡ serialize machine_layout ((record note_entry { name = codes "g" }, note) ∷ []))
    × (disk_of r (codes "temp_archive") ≡ none)
unfolding extract_from_archive serialize name_field put buffer_size write_at read_entry round
    conclude extract_loop
extracted_first = (refl, refl, refl)
