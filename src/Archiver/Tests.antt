-- ===== src/Archiver/Tests.antt =====
-- lab5/archiver.c: the theorems on adding and listing at a small disk.
use operation_systems_mirea.Base.{◌≡◌, ◌≢◌, refl, false, [], ◌∷◌, ◌++◌, none, some, arith}
use operation_systems_mirea.Base.Text.{Bytes, codes}
use operation_systems_mirea.Archiver.Files.{Kernel, Disk, or_created}
use operation_systems_mirea.Archiver.Entry.{entry_of}
use operation_systems_mirea.Archiver.Add.{add_to_archive, returns, ok, cannot_open}
use operation_systems_mirea.Archiver.Show.{show_contents}
use operation_systems_mirea.Archiver.Shown.{show_contents-serialize}
use operation_systems_mirea.Archiver.Growth.{Grown}
use operation_systems_mirea.Archiver.Addition.{add_to_archive-Grown, add_to_archive_unreadable}
use operation_systems_mirea.Archiver.Machine.{
  name_field, machine_layout, RoundTrips, machine_layout-IsLawful, plain_file, able, note, one_file,
  two_members, archived,
}

f_not_a : ◌≢◌ {A = Bytes} (codes "f") (codes "a")
f_not_a h = absurd (ground arith)

add_to_archive-Grown_example :
    (d' : Disk) × (add_to_archive able machine_layout one_file (codes "a") (codes "f")
      ≡ returns 0 ok d')
    × Grown one_file
        (codes "a")
        (or_created able (codes "a") 0o644 none)
        (machine_layout.encode (entry_of (codes "f") (plain_file note)) ++ note)
        d'
add_to_archive-Grown_example =
    add_to_archive-Grown able (codes "a") (codes "f") f_not_a (λ offset n. refl) (λ offset. refl)
      machine_layout machine_layout-IsLawful one_file (plain_file note) refl refl refl

-- As `able`, but no file can be opened for reading.
abbrev blind : Kernel
blind = record able { may_read = λ name. false }

add_to_archive_unreadable_example :
    (d' : Disk) × (add_to_archive blind machine_layout one_file (codes "a") (codes "f")
      ≡ returns 1 cannot_open d')
    × Grown one_file
        (codes "a")
        (or_created blind (codes "a") 0o644 none)
        (machine_layout.encode (entry_of (codes "f") (plain_file note)))
        d'
add_to_archive_unreadable_example =
    add_to_archive_unreadable blind (codes "a") (codes "f") f_not_a (λ offset n. refl)
      (λ offset. refl) machine_layout machine_layout-IsLawful one_file (plain_file note) refl refl
      refl

show_contents-serialize_example :
    show_contents able machine_layout archived (codes "a")
    ≡ some (record { rows = (codes "f", 5) ∷ (codes "g", 5) ∷ []; count = 2 })
unfolding RoundTrips name_field
show_contents-serialize_example =
    show_contents-serialize able machine_layout machine_layout-IsLawful archived (codes "a")
      (λ offset. refl) two_members ((refl, refl), ((refl, refl), tt)) refl refl
