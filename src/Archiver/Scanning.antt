-- ===== src/Archiver/Scanning.antt =====
-- lab5/archiver.c: the main loop of `extract_from_archive`, from the head of the archive to its end.
use operation_systems_mirea.Base.{
  ℕ, zero, suc, ◌+◌, ◌≡◌, ◌≢◌, ◌<◌, refl, sym, ap, ◌∙◌, true, false, List, [], ◌∷◌, ◌++◌,
  append-nil, append_assoc, some, arith, length, length-append, inl, inr, Bool-cases, Option-cases,
}
use operation_systems_mirea.Base.Text.{Bytes, str_eq}
use operation_systems_mirea.Archiver.Files.{
  Kernel, Disk, File, put, contents_of, open_both, open_truncate, or_emptied,
}
use operation_systems_mirea.Archiver.Entry.{Layout, IsLawful, ArchiveEntry, read_entry}
use operation_systems_mirea.Archiver.Extract.{
  Scan, next, temp_archive, round, conclude, extract_loop, extract_from_archive,
}
use operation_systems_mirea.Archiver.Members.{
  Member, serialize, AreValid, read_entry-encode, read_entry_end, put_self, put-other,
}
use operation_systems_mirea.Archiver.Growth.{Grown}
use operation_systems_mirea.Archiver.Shown.{length-serialize}
use operation_systems_mirea.Archiver.Removal.{
  SortedOut, SortedOut-extracted, SortedOut-kept, extract_loop_next, extract_loop_end,
}
use operation_systems_mirea.Archiver.Rounds.{
  IsRestored, keep_member-Grown, extract_member-IsRestored, or_emptied-contents,
}

-- A file that could be opened is there.
opened :
    (k : Kernel) (d : Disk) (name : Bytes)
    → open_both k d name ≡ true
    → (f : File) × (d name ≡ some f)
opened k d name h = elim (Option-cases (d name)) [ inl e ↦ absurd (ground arith) | inr x ↦ x ]

module _ (k : Kernel) (l : Layout) {Valid : ArchiveEntry → Type 0} (lawful : IsLawful l Valid)
    (archive filename : Bytes) (archive_apart : archive ≢ temp_archive)
    (file_apart : archive ≢ filename) (temp_apart : filename ≢ temp_archive)
    (roomy : (name : Bytes) (offset n : ℕ) → k.room name offset n ≡ n)
    (readable : (offset : ℕ) → k.read_fails archive offset ≡ false)
    (may_write : k.may_write filename ≡ true) where
  -- One round: the scan after the first member, and what it has done.
  module _ (before : Bytes) (e : ArchiveEntry) (c : Bytes) (ms : List Member) (a t : File)
      (s : Scan) (sized : e.size ≡ length c) (at_archive : s.disk archive ≡ some a)
      (held : a.contents ≡ before ++ (l.encode e ++ (c ++ serialize l ms)))
      (from_before : s.from ≡ length before) (at_temp : s.disk temp_archive ≡ some t)
      (to_end : s.to ≡ length t.contents) where
    abbrev behind : Scan
    behind = record s { from = s.from + l.header_size }

    held_behind : a.contents ≡ (before ++ l.encode e) ++ (c ++ serialize l ms)
    held_behind = held ∙ sym (append_assoc before (l.encode e) (c ++ serialize l ms))

    from_behind : behind.from ≡ length (before ++ l.encode e)
    from_behind = omega (arith, length-append before (l.encode e), lawful.length-encode e)

    round_keeps :
        str_eq e.name filename ≡ false
        → (d' : Disk) × (n : ℕ) × (round k l archive filename e behind
            ≡ next (record s { disk = d'; from = s.from + l.header_size + e.size; to = n }))
          × (n ≡ length t.contents + length (l.encode e ++ c))
          × Grown s.disk temp_archive t (l.encode e ++ c) d'
    unfolding round
    round_keeps other = rw other (
        keep_member-Grown k l lawful archive filename archive_apart file_apart roomy readable
          (before ++ l.encode e) c (serialize l ms) e a behind sized at_archive held_behind
          from_behind t at_temp to_end)

    round_extracts :
        str_eq e.name filename ≡ true
        → (d' : Disk) × (f : File) × (round k l archive filename e behind
            ≡ next (record s { disk = d'; from = s.from + l.header_size + e.size; found = true }))
          × (d' filename ≡ some f)
          × IsRestored k filename e c f
          × ((other : Bytes) → other ≢ filename → d' other ≡ s.disk other)
    unfolding round
    round_extracts same = rw same (
        extract_member-IsRestored k l lawful archive filename archive_apart file_apart roomy
          readable (before ++ l.encode e) c (serialize l ms) e a behind sized at_archive held_behind
          from_behind may_write)

  -- The loop takes the members one after the other to the end of the archive.
  extract_loop-SortedOut :
      (ms : List Member) (before : Bytes) (fuel : ℕ) (a t : File) (s : Scan)
      → AreValid Valid ms
      → length ms < fuel
      → s.disk archive ≡ some a
      → a.contents ≡ before ++ serialize l ms
      → s.from ≡ length before
      → s.disk temp_archive ≡ some t
      → s.to ≡ length t.contents
      → (s' : Scan) × (extract_loop k l fuel archive filename s ≡ conclude k archive s')
        × SortedOut k l filename ms t s s'
  unfolding serialize
  extract_loop-SortedOut ms before zero a t s v h at_archive held from_before at_temp to_end =
      absurd (omega arith)
  extract_loop-SortedOut [] before (suc fuel) a t s v h at_archive held from_before at_temp to_end =
      (
        s,
        extract_loop_end k l archive filename fuel s (
            rw from_before (
              read_entry_end k l lawful s.disk archive readable before
                (ap contents_of at_archive ∙ held ∙ append-nil before))),
        record {
          found = ground arith;
          kept = at_temp ∙ ap (λ c. some (record t { contents = c })) (sym (append-nil t.contents));
          outcome = refl;
          elsewhere = λ other _ _. refl;
        },
      )
  extract_loop-SortedOut ((e, c) ∷ ms) before (suc fuel) a t s ((v, sized), vs) h at_archive held
        from_before at_temp to_end =
      let read : read_entry k l s.disk archive s.from ≡ some e = rw from_before (
        read_entry-encode k l lawful s.disk archive readable before (c ++ serialize l ms) e v
          (ap contents_of at_archive ∙ held)) in
      let moved : s.from + l.header_size + e.size ≡ length (before ++ (l.encode e ++ c)) = omega (
        arith,
        length-append before (l.encode e ++ c),
        length-append (l.encode e) c,
        lawful.length-encode e,
      ) in
      elim (Bool-cases (str_eq e.name filename)) [
        | inl same ↦
            let (d1, f, goes, now, restored, others) =
              round_extracts before e c ms a t s sized at_archive held from_before at_temp to_end
                same in
            let s1 : Scan = record s {
              disk = d1;
              from = s.from + l.header_size + e.size;
              found = true;
            } in
            let (s', run, h') =
              extract_loop-SortedOut ms (before ++ (l.encode e ++ c)) fuel a t s1 vs (omega arith)
                (others archive file_apart ∙ at_archive) (held ∙ simp append_assoc) moved
                (others temp_archive (λ q. temp_apart (sym q)) ∙ at_temp) to_end in
            (
              s',
              extract_loop_next k l archive filename fuel s read goes ∙ run,
              SortedOut-extracted k l filename ms e c t s s1 s' f same refl now restored others h',
            )
        | inr differs ↦
            let (d1, n, goes, at_end, (now, others)) =
              round_keeps before e c ms a t s sized at_archive held from_before at_temp to_end
                differs in
            let t1 : File = record t { contents = t.contents ++ (l.encode e ++ c) } in
            let s1 : Scan = record s {
              disk = d1;
              from = s.from + l.header_size + e.size;
              to = n;
            } in
            let (s', run, h') =
              extract_loop-SortedOut ms (before ++ (l.encode e ++ c)) fuel a t1 s1 vs (omega arith)
                (others archive archive_apart ∙ at_archive) (held ∙ simp append_assoc) moved now
                (omega (arith, at_end, length-append t.contents (l.encode e ++ c))) in
            (
              s',
              extract_loop_next k l archive filename fuel s read goes ∙ run,
              SortedOut-kept k l filename ms e c t s s1 s' differs temp_apart refl others h',
            )
      ]

  -- The scan begins at the head of the archive with an empty temporary file.
  pub extract_from_archive-SortedOut :
      (d : Disk) (ms : List Member)
      → AreValid Valid ms
      → open_both k d archive ≡ true
      → k.may_write temp_archive ≡ true
      → contents_of (d archive) ≡ serialize l ms
      → (s' : Scan) × (t : File) × (extract_from_archive k l d archive filename
          ≡ conclude k archive s')
        × (t.contents ≡ [])
        × SortedOut k l filename ms t
            (record { disk = put d temp_archive (some t); from = 0; to = 0; found = false })
            s'
  unfolding extract_from_archive open_truncate
  extract_from_archive-SortedOut d ms v opens may_write_temp held =
      let t : File = or_emptied k temp_archive 0o644 (d temp_archive) in
      let d1 : Disk = put d temp_archive (some t) in
      let s : Scan = record { disk = d1; from = 0; to = 0; found = false } in
      let kept : d1 archive ≡ d archive = put-other d temp_archive archive _ archive_apart in
      let empty : t.contents ≡ [] = or_emptied-contents k temp_archive 0o644 (d temp_archive) in
      let (a, there) = opened k d archive opens in
      let (s', run, h) =
        extract_loop-SortedOut ms [] (suc (length (contents_of (d1 archive)))) a t s v
          (rw kept (
            omega (
              arith,
              ap length held,
              length-serialize l ms lawful.header_pos lawful.length-encode,
            )))
          (kept ∙ there) (ap contents_of (sym there) ∙ held) refl (put_self d temp_archive _)
          (rw empty) in
      (s', t, rw (opens, may_write_temp) run, empty, h)
