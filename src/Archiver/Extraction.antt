-- ===== src/Archiver/Extraction.antt =====
-- lab5/archiver.c: what `extract_from_archive` does to the disk.
use operation_systems_mirea.Base.{
  ℕ, ◌≡◌, ◌≢◌, sym, ap, ◌∙◌, true, false, List, ◌++◌, none, some, inl, inr, Bool-cases,
}
use operation_systems_mirea.Base.Text.{Bytes, str_eq, str_eq_iff}
use operation_systems_mirea.Archiver.Files.{Kernel, Disk, File, put, contents_of, open_both}
use operation_systems_mirea.Archiver.Entry.{Layout, IsLawful, ArchiveEntry}
use operation_systems_mirea.Archiver.Extract.{
  Scan, temp_archive, conclude, extract_from_archive, returns, removed,
}
use operation_systems_mirea.Archiver.Members.{Member, serialize, AreValid, put_self, put-other}
use operation_systems_mirea.Archiver.Removal.{without, last_named, is_some, Outcome}
use operation_systems_mirea.Archiver.Scanning.{extract_from_archive-SortedOut}
use operation_systems_mirea.Archiver.Rounds.{IsRestored}

str_eq-ne : (a b : Bytes) → a ≢ b → str_eq a b ≡ false
str_eq-ne a b h = elim (Bool-cases (str_eq a b)) [
  | inl e ↦ absurd (h ((str_eq_iff a b).0 e))
  | inr e ↦ e
]

-- What a successful run leaves: the last member of the name is the file again, the archive holds
-- the other members in their order, the temporary file is gone, and nothing else has changed.
abbrev pub Extraction :
    Kernel → Layout → Bytes → Bytes → Disk → List Member → Member → Disk → Type 0
Extraction k l archive filename d ms m d' =
    ((f : File) × (d' filename ≡ some f) × IsRestored k filename m.0 m.1 f)
    × (contents_of (d' archive) ≡ serialize l (without filename ms))
    × (d' temp_archive ≡ none)
    × ((other : Bytes)
        → other ≢ filename
        → other ≢ archive
        → other ≢ temp_archive
        → d' other ≡ d other)

module _ (k : Kernel) (l : Layout) {Valid : ArchiveEntry → Type 0} (lawful : IsLawful l Valid)
    (archive filename : Bytes) (archive_apart : archive ≢ temp_archive)
    (file_apart : archive ≢ filename) (temp_apart : filename ≢ temp_archive)
    (roomy : (name : Bytes) (offset n : ℕ) → k.room name offset n ≡ n)
    (readable : (offset : ℕ) → k.read_fails archive offset ≡ false)
    (may_write : k.may_write filename ≡ true) where
  conclude_found :
      (s : Scan)
      → s.found ≡ true
      → k.rename_works ≡ true
      → (d' : Disk) × (conclude k archive s ≡ returns 0 removed d')
        × (d' archive ≡ s.disk temp_archive)
        × (d' temp_archive ≡ none)
        × ((other : Bytes) → other ≢ archive → other ≢ temp_archive → d' other ≡ s.disk other)
  unfolding conclude
  conclude_found s found renames =
      let differ : str_eq archive temp_archive ≡ false =
        str_eq-ne archive temp_archive archive_apart in
      let d1 : Disk = put s.disk archive (s.disk temp_archive) in
      (
        put d1 temp_archive none,
        rw (found, renames, differ),
        put-other d1 temp_archive archive none archive_apart ∙ put_self s.disk archive _,
        put_self d1 temp_archive none,
        λ other ne ne'.
            put-other d1 temp_archive other none ne' ∙ put-other s.disk archive other _ ne,
      )

  -- Where the archive, the file and the temporary file have three different names, the archive can be
  -- opened and holds the members `ms`, one of them named `filename`, every entry of them fits the
  -- header, the file and the temporary file can be written, no read fails, every write has room, and
  -- the rename works: extracting ends with status 0. The file
  -- then has the data of the last member of that name (and its mode, owner and times as far as the
  -- system lets them be set), the archive holds the members of other names in their order, the
  -- temporary file is gone, and no other file has changed.
  pub extract_from_archive-Extraction :
      (d : Disk) (ms : List Member) (m : Member)
      → AreValid Valid ms
      → open_both k d archive ≡ true
      → k.may_write temp_archive ≡ true
      → k.rename_works ≡ true
      → contents_of (d archive) ≡ serialize l ms
      → last_named filename ms ≡ some m
      → (d' : Disk) × (extract_from_archive k l d archive filename ≡ returns 0 removed d')
        × Extraction k l archive filename d ms m d'
  extract_from_archive-Extraction d ms m v opens may_write_temp renames held last =
      let (s', t, run, empty, h) =
        extract_from_archive-SortedOut k l lawful archive filename archive_apart file_apart
          temp_apart roomy readable may_write d ms v opens may_write_temp held in
      let (d', done, moved, gone, others) = conclude_found s' (h.found ∙ ap is_some last) renames in
      let restored : Outcome k filename (some m) (put d temp_archive (some t) filename)
          (s'.disk filename) =
        rw last at (h.outcome) in
      (
        d',
        run ∙ done,
        (
          (
            restored.0,
            others filename (λ q. file_apart (sym q)) temp_apart ∙ restored.1,
            restored.2,
          ),
          ap contents_of (moved ∙ h.kept) ∙ ap (λ c. c ++ serialize l (without filename ms)) empty,
          gone,
          λ other ne ne' ne''.
              others other ne' ne''
              ∙ h.elsewhere other ne ne''
              ∙ put-other d temp_archive other _ ne'',
        ),
      )
