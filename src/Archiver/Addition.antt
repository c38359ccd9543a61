-- ===== src/Archiver/Addition.antt =====
-- lab5/archiver.c: what `add_to_archive` does to the disk.
use operation_systems_mirea.Base.{
  ℕ, zero, suc, ◌+◌, ◌≡◌, ◌≢◌, ◌<◌, refl, sym, ap, subst, ◌∙◌, true, false, [], ◌∷◌, ◌++◌, some,
  arith, length, length-take, length-drop, take, drop, take-append-drop, Bool-cases, inl, inr,
  ==-refl, ◌==◌,
}
use operation_systems_mirea.Base.Text.{Bytes}
use operation_systems_mirea.Archiver.Files.{Kernel, Disk, File, put, contents_of, or_created}
use operation_systems_mirea.Archiver.Entry.{Layout, IsLawful, ArchiveEntry, entry_of, buffer_size}
use operation_systems_mirea.Archiver.Add.{
  returns, ok, copy_in, add_open, add_to_archive, cannot_open,
}
use operation_systems_mirea.Archiver.Growth.{
  Grown, Grown-trans, Grown-put, Grown-none, buffer_size_pos,
}
use operation_systems_mirea.Archiver.Members.{
  put_self, put-other, append_full, drop-add, drop-length-take,
}

-- An empty chunk means that nothing is left.
nothing_left : (n : ℕ) (xs : Bytes) → 0 < n → (length (take n xs) == 0) ≡ true → xs ≡ []
nothing_left zero xs h e = absurd (omega arith)
nothing_left (suc n) [] h e = refl
nothing_left (suc n) (x ∷ xs) h e = absurd (ground arith)

something_taken : (n : ℕ) (xs : Bytes) → (length (take n xs) == 0) ≡ false → 0 < length xs
something_taken n [] e = absurd (ground (arith, length-take n (let xs : Bytes = [] in xs)))
something_taken n (x ∷ xs) e = omega arith

module _ (k : Kernel) (archive file : Bytes) (apart : file ≢ archive)
    (roomy : (offset n : ℕ) → k.room archive offset n ≡ n)
    (readable : (offset : ℕ) → k.read_fails file offset ≡ false) where
  module _ (d : Disk) (g f : File) (at_archive : d archive ≡ some g) (at_file : d file ≡ some f)
      (offset : ℕ) where
    abbrev left : Bytes
    left = drop offset f.contents

    abbrev chunk : Bytes
    chunk = take buffer_size left

    abbrev grown : Disk
    grown = put d archive (some (record g { contents = g.contents ++ chunk }))

    copy_in_end :
        (fuel : ℕ)
        → (length chunk == 0) ≡ true
        → copy_in k (suc fuel) d archive file offset ≡ returns 0 ok d
    unfolding copy_in
    copy_in_end fuel e = rw (readable offset, at_file, e)

    copy_in_step :
        (fuel : ℕ)
        → (length chunk == 0) ≡ false
        → copy_in k (suc fuel) d archive file offset
          ≡ copy_in k fuel grown archive file (offset + length chunk)
    unfolding copy_in
    copy_in_step fuel e = rw (
      readable offset,
      at_file,
      e,
      append_full k d archive chunk g roomy at_archive,
      ==-refl (length chunk),
    )

  -- The loop copies what is left of the file, and ends within as many rounds as that has bytes, and one.
  copy_in-Grown :
      (fuel offset : ℕ) (d : Disk) (g f : File)
      → d archive ≡ some g
      → d file ≡ some f
      → length (drop offset f.contents) < fuel
      → (d' : Disk) × (copy_in k fuel d archive file offset ≡ returns 0 ok d')
        × Grown d archive g (drop offset f.contents) d'
  copy_in-Grown zero offset d g f at_archive at_file h = absurd (omega arith)
  copy_in-Grown (suc fuel) offset d g f at_archive at_file h =
      elim (Bool-cases (length (chunk d g f at_archive at_file offset) == 0)) [
        | inl e ↦ (
          d,
          copy_in_end d g f at_archive at_file offset fuel e,
          subst (λ m. Grown d archive g m d)
              (sym (nothing_left buffer_size (drop offset f.contents) buffer_size_pos e))
              (Grown-none d archive g at_archive),
        )
        | inr e ↦
            let c : Bytes = chunk d g f at_archive at_file offset in
            let d1 : Disk = grown d g f at_archive at_file offset in
            let rest : drop (offset + length c) f.contents
                ≡ drop buffer_size (drop offset f.contents) =
              drop-add offset (length c) f.contents
              ∙ drop-length-take buffer_size (drop offset f.contents) in
            let (d', run, more) =
              copy_in-Grown fuel (offset + length c) d1 _ f (put_self d archive _)
                (put-other d archive file _ apart ∙ at_file)
                (rw rest (
                  omega (
                    arith,
                    length-drop buffer_size (drop offset f.contents),
                    buffer_size_pos,
                    something_taken buffer_size (drop offset f.contents) e,
                  ))) in
            (
              d',
              copy_in_step d g f at_archive at_file offset fuel e ∙ run,
              subst (λ m. Grown d archive g m d')
                  (ap (λ r. c ++ r) rest ∙ take-append-drop buffer_size (drop offset f.contents))
                  (Grown-trans d d1 d' archive g c _ (Grown-put d archive g c) more),
            )
      ]

  -- The header and the whole file go to the end of the archive.
  add_open-Grown :
      (l : Layout) {Valid : ArchiveEntry → Type 0}
      → IsLawful l Valid
      → (d : Disk) (g f : File) → d archive ≡ some g
      → d file ≡ some f
      → k.may_read file ≡ true
      → (d' : Disk) × (add_open k l d archive file f ≡ returns 0 ok d')
        × Grown d archive g (l.encode (entry_of file f) ++ f.contents) d'
  unfolding add_open
  add_open-Grown l lawful d g f at_archive at_file may =
      let header : Bytes = l.encode (entry_of file f) in
      let d1 : Disk = put d archive (some (record g { contents = g.contents ++ header })) in
      let file_kept : d1 file ≡ some f = put-other d archive file _ apart ∙ at_file in
      let (d', run, more) =
        copy_in-Grown (suc (length (contents_of (d1 file)))) 0 d1
          (record g { contents = g.contents ++ header }) f (put_self d archive _) file_kept
          (rw file_kept (omega arith)) in
      (
        d',
        rw
            (
              append_full k d archive header g roomy at_archive,
              lawful.length-encode (entry_of file f),
              ==-refl l.header_size,
              file_kept,
              may,
            )
            (rw file_kept at run),
        Grown-trans d d1 d' archive g header f.contents (Grown-put d archive g header) more,
      )

  -- Where the file is not the archive itself, exists and can be read with no read that fails, the archive
  -- can be written and every write to it has room, adding ends with status 0. The archive, created if it was missing, then has its old bytes, the header
  -- and all bytes of the file, however many reads those take; no other file has changed.
  pub add_to_archive-Grown :
      (l : Layout) {Valid : ArchiveEntry → Type 0}
      → IsLawful l Valid
      → (d : Disk) (f : File) → d file ≡ some f
      → k.may_read file ≡ true
      → k.may_write archive ≡ true
      → (d' : Disk) × (add_to_archive k l d archive file ≡ returns 0 ok d')
        × Grown d archive
            (or_created k archive 0o644 (d archive))
            (l.encode (entry_of file f) ++ f.contents)
            d'
  unfolding add_to_archive
  add_to_archive-Grown l lawful d f at_file may_read may_write =
      let g : File = or_created k archive 0o644 (d archive) in
      let d1 : Disk = put d archive (some g) in
      let (d', run, (now, others)) =
        add_open-Grown l lawful d1 g f (put_self d archive _)
          (put-other d archive file _ apart ∙ at_file) may_read in
      (
        d',
        rw (at_file, may_write) run,
        (now, λ other ne. others other ne ∙ put-other d archive other _ ne),
      )

  -- Where the file exists but cannot be opened for reading, the archive can be written and the disk
  -- has room, adding ends with status 1 and has still put the header of the file at the end of the
  -- archive, with none of its bytes.
  pub add_to_archive_unreadable :
      (l : Layout) {Valid : ArchiveEntry → Type 0}
      → IsLawful l Valid
      → (d : Disk) (f : File) → d file ≡ some f
      → k.may_read file ≡ false
      → k.may_write archive ≡ true
      → (d' : Disk) × (add_to_archive k l d archive file ≡ returns 1 cannot_open d')
        × Grown d archive (or_created k archive 0o644 (d archive)) (l.encode (entry_of file f)) d'
  unfolding add_to_archive
  add_to_archive_unreadable l lawful d f at_file may_not may_write =
      let g : File = or_created k archive 0o644 (d archive) in
      let d1 : Disk = put d archive (some g) in
      let header : Bytes = l.encode (entry_of file f) in
      let g' : File = record g { contents = g.contents ++ header } in
      let d2 : Disk = put d1 archive (some g') in
      let kept : d2 file ≡ some f =
        put-other d1 archive file _ apart ∙ put-other d archive file _ apart ∙ at_file in
      (
        d2,
        rw (
          at_file,
          may_write,
          append_full k d1 archive header g roomy (put_self d archive _),
          lawful.length-encode (entry_of file f),
          ==-refl l.header_size,
          kept,
          may_not,
        ),
        (
          put_self d1 archive (some g'),
          λ other ne. put-other d1 archive other _ ne ∙ put-other d archive other _ ne,
        ),
      )
