-- ===== src/Archiver/RoundTrip.antt =====
-- lab5/archiver.c: a file that is added to an archive and then extracted.
use operation_systems_mirea.Base.{
  ℕ, zero, suc, ◌-◌, ◌≡◌, ◌≢◌, ◌≤◌, ◌<◌, refl, sym, ap, ◌∙◌, true, false, [], ◌∷◌, ◌++◌, append-nil,
  List, Option, none, some, arith, length, take,
}
use operation_systems_mirea.Base.Text.{Bytes, str_eq, str_eq_iff}
use operation_systems_mirea.Archiver.Files.{Kernel, Disk, File, contents_of, or_created}
use operation_systems_mirea.Archiver.Entry.{
  Layout, IsLawful, ArchiveEntry, entry_of, max_name_length,
}
use operation_systems_mirea.Archiver.Add
use operation_systems_mirea.Archiver.Add.{add_to_archive}
use operation_systems_mirea.Archiver.Extract
use operation_systems_mirea.Archiver.Extract.{extract_from_archive, temp_archive}
use operation_systems_mirea.Archiver.Members.{Member, serialize, AreValid, serialize-append}
use operation_systems_mirea.Archiver.Addition.{add_to_archive-Grown}
use operation_systems_mirea.Archiver.Rounds.{IsRestored}
use operation_systems_mirea.Archiver.Removal.{without, last_named}
use operation_systems_mirea.Archiver.Extraction.{extract_from_archive-Extraction}

-- Of a list that ends with a member of the name, that one is the last, and is left out.
last_named_end :
    (filename : Bytes) (ms : List Member) (m : Member)
    → str_eq m.0.name filename ≡ true
    → last_named filename (ms ++ m ∷ []) ≡ some m
last_named_end filename [] m h = rw h
last_named_end filename (n ∷ ms) m h = rw (last_named_end filename ms m h)

without_end :
    (filename : Bytes) (ms : List Member) (m : Member)
    → str_eq m.0.name filename ≡ true
    → without filename (ms ++ m ∷ []) ≡ without filename ms
without_end filename [] m h = rw h
without_end filename (n ∷ ms) m h = rw (without_end filename ms m h)

AreValid-end :
    (Valid : ArchiveEntry → Type 0) (ms : List Member) (m : Member)
    → AreValid Valid ms
    → Valid m.0
    → m.0.size ≡ length m.1
    → AreValid Valid (ms ++ m ∷ [])
AreValid-end Valid [] m h v e = ((v, e), tt)
AreValid-end Valid (n ∷ ms) m h v e = (h.0, AreValid-end Valid ms m h.1 v e)

take_short {ℓ} : {A : Type ℓ} (n : ℕ) (xs : List A) → length xs ≤ n → take n xs ≡ xs
take_short zero [] h = refl
take_short zero (x ∷ xs) h = absurd (omega arith)
take_short (suc n) [] h = refl
take_short (suc n) (x ∷ xs) h = ap (λ r. x ∷ r) (take_short n xs (omega arith))

-- The header of a file with a name that fits has that name.
entry_of-named :
    (filename : Bytes) (f : File)
    → length filename < max_name_length
    → str_eq (entry_of filename f).name filename ≡ true
unfolding entry_of
entry_of-named filename f h =
    (str_eq_iff _ filename).1 (take_short (max_name_length - 1) filename (omega arith))

or_created-contents :
    (k : Kernel) (name : Bytes) (mode : ℕ) (o : Option File)
    → (or_created k name mode o).contents ≡ contents_of o
or_created-contents k name mode none = refl
or_created-contents k name mode (some f) = refl

entry_of-size : (filename : Bytes) (f : File) → (entry_of filename f).size ≡ length f.contents
unfolding entry_of
entry_of-size filename f = refl

-- Where the archive, the file and the temporary file have three different names, every file may be
-- read and written, no read fails, every write has room, and the rename works: a file whose name and
-- entry fit the header, added to an archive of members `ms` with entries that do too, and later
-- extracted from it, is restored, whatever has happened to the other files in between, also if it was
-- removed. Both runs then end with status 0, and the archive holds the members of `ms` that have
-- other names.
pub extract-add :
    (k : Kernel) (l : Layout) {Valid : ArchiveEntry → Type 0}
    → IsLawful l Valid
    → (archive filename : Bytes) → archive ≢ temp_archive
    → archive ≢ filename
    → filename ≢ temp_archive
    → ((name : Bytes) (offset n : ℕ) → k.room name offset n ≡ n)
    → ((name : Bytes) (offset : ℕ) → k.read_fails name offset ≡ false)
    → ((name : Bytes) → k.may_read name ≡ true)
    → ((name : Bytes) → k.may_write name ≡ true)
    → k.rename_works ≡ true
    → (d : Disk) (ms : List Member) (f : File) → AreValid Valid ms
    → contents_of (d archive) ≡ serialize l ms
    → d filename ≡ some f
    → length filename < max_name_length
    → Valid (entry_of filename f)
    → (d1 : Disk) × (add_to_archive k l d archive filename ≡ Add.returns 0 Add.ok d1)
      × ((again : Disk)
          → again archive ≡ d1 archive
          → (d2 : Disk) × (f' : File) × (extract_from_archive k l again archive filename
              ≡ Extract.returns 0 Extract.removed d2)
            × (d2 filename ≡ some f')
            × IsRestored k filename (entry_of filename f) f.contents f'
            × (contents_of (d2 archive) ≡ serialize l (without filename ms)))
unfolding serialize
extract-add k l {Valid} lawful archive filename archive_apart file_apart temp_apart roomy readable
      may_read may_write renames d ms f v held there short fits =
    let m : Member = (entry_of filename f, f.contents) in
    let g : File = or_created k archive 0o644 (d archive) in
    let (d1, added, (grown, others)) =
      add_to_archive-Grown k archive filename (λ q. file_apart (sym q)) (roomy archive)
        (readable filename) l lawful d f there (may_read filename) (may_write archive) in
    let holds : contents_of (d1 archive) ≡ serialize l (ms ++ m ∷ []) =
      ap contents_of grown
      ∙ ap (λ c. c ++ (l.encode m.0 ++ m.1))
          (or_created-contents k archive 0o644 (d archive) ∙ held)
      ∙ ap (λ c. serialize l ms ++ (l.encode m.0 ++ c)) (sym (append-nil m.1))
      ∙ sym (serialize-append l ms (m ∷ [])) in
    let named : str_eq m.0.name filename ≡ true = entry_of-named filename f short in
    (
      d1,
      added,
      λ again kept.
          let (d2, run, ((f', now, restored), rest, _, _)) =
            extract_from_archive-Extraction k l lawful archive filename archive_apart file_apart
              temp_apart roomy (readable archive) (may_write filename) again (ms ++ m ∷ []) m
              (AreValid-end Valid ms m v fits (entry_of-size filename f))
              (rw (kept, grown, may_read archive, may_write archive)) (may_write temp_archive)
              renames (ap contents_of kept ∙ holds) (last_named_end filename ms m named) in
          (d2, f', run, now, restored, rest ∙ ap (serialize l) (without_end filename ms m named)),
    )
