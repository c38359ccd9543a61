-- ===== src/Archiver/Rounds.antt =====
-- lab5/archiver.c: what a round of `extract_from_archive` does to the disk.
use operation_systems_mirea.Base.{
  ℕ, ◌+◌, ◌≡◌, ◌≢◌, refl, ap, subst, ◌∙◌, true, false, [], ◌++◌, Option, none, some, arith, length,
  length-append, if◌then◌else◌,
}
use operation_systems_mirea.Base.Text.{Bytes}
use operation_systems_mirea.Archiver.Files.{
  Kernel, Disk, File, put, or_emptied, open_truncate, write_at,
}
use operation_systems_mirea.Archiver.Entry.{Layout, IsLawful, ArchiveEntry}
use operation_systems_mirea.Archiver.Extract.{
  Scan, next, temp_archive, copy_out, restore, extract_member, keep_member, after_keep,
  after_extract,
}
use operation_systems_mirea.Archiver.Members.{put_self, put-other}
use operation_systems_mirea.Archiver.Growth.{Grown, Grown-trans, Grown-put}
use operation_systems_mirea.Archiver.Copying.{copy_out-Grown, write_full}

-- The file has the data of the member, and its mode, owner and times as far as the system sets them.
pub record IsRestored (k : Kernel) (filename : Bytes) (e : ArchiveEntry) (data' : Bytes) (f : File)
    : Type 0 where
  pub same_contents : f.contents ≡ data'
  pub same_mode : k.chmod_works filename ≡ true → f.mode ≡ e.mode
  pub same_uid : k.chown_works filename ≡ true → f.uid ≡ e.uid
  pub same_gid : k.chown_works filename ≡ true → f.gid ≡ e.gid
  pub same_atime : k.utime_works filename ≡ true → f.atime ≡ e.atime
  pub same_mtime : k.utime_works filename ≡ true → f.mtime ≡ e.mtime

-- `utime`, `chown` and `chmod` on a file that is there.
settled : Kernel → Bytes → ArchiveEntry → File → File
settled k filename e f =
    let f1 : File =
      if k.utime_works filename then record f { atime = e.atime; mtime = e.mtime } else f in
    let f2 : File = if k.chown_works filename then record f1 { uid = e.uid; gid = e.gid } else f1 in
    if k.chmod_works filename then record f2 { mode = e.mode } else f2

restore-settled :
    (k : Kernel) (filename : Bytes) (e : ArchiveEntry) (d : Disk) (f : File)
    → d filename ≡ some f
    → restore k filename e d ≡ put d filename (some (settled k filename e f))
unfolding settled
restore-settled k filename e d f there = ap (put d filename) (rw there refl)

settled-IsRestored :
    (k : Kernel) (filename : Bytes) (e : ArchiveEntry) (f : File)
    → IsRestored k filename e f.contents (settled k filename e f)
unfolding settled
settled-IsRestored k filename e f = ground arith

pub or_emptied-contents :
    (k : Kernel) (name : Bytes) (mode : ℕ) (o : Option File)
    → (or_emptied k name mode o).contents ≡ []
or_emptied-contents k name mode none = refl
or_emptied-contents k name mode (some f) = refl

module _ (k : Kernel) (l : Layout) {Valid : ArchiveEntry → Type 0} (lawful : IsLawful l Valid)
    (archive filename : Bytes) (archive_apart : archive ≢ temp_archive)
    (file_apart : archive ≢ filename)
    (roomy : (name : Bytes) (offset n : ℕ) → k.room name offset n ≡ n)
    (readable : (offset : ℕ) → k.read_fails archive offset ≡ false) where
  module _ (before data' after : Bytes) (e : ArchiveEntry) (a : File) (s : Scan)
      (sized : e.size ≡ length data') (at_archive : s.disk archive ≡ some a)
      (held : a.contents ≡ before ++ (data' ++ after)) (from_before : s.from ≡ length before) where
    at_parts : s.disk archive ≡ some (record a { contents = before ++ (data' ++ after) })
    at_parts = at_archive ∙ ap (λ c. some (record a { contents = c })) held

    -- A member that is kept goes to the end of the temporary file, header and data.
    pub keep_member-Grown :
        (t : File)
        → s.disk temp_archive ≡ some t
        → s.to ≡ length t.contents
        → (d' : Disk) × (n : ℕ) × (keep_member k l archive e s
            ≡ next (record s { disk = d'; from = s.from + e.size; to = n }))
          × (n ≡ length t.contents + length (l.encode e ++ data'))
          × Grown s.disk temp_archive t (l.encode e ++ data') d'
    unfolding keep_member
    keep_member-Grown t at_temp to_end =
        let header : Bytes = l.encode e in
        let t1 : File = record t { contents = t.contents ++ header } in
        let d1 : Disk = put s.disk temp_archive (some t1) in
        let written : write_at k s.disk temp_archive s.to header ≡ (length header, d1) =
          rw to_end (write_full k s.disk temp_archive header t (roomy temp_archive) at_temp) in
        let (d', run, more) =
          copy_out-Grown k archive temp_archive archive_apart (roomy temp_archive) readable e.size
            s.from (s.to + length header) e.size before data' after d1 a t1
            (put-other s.disk temp_archive archive _ archive_apart ∙ at_parts)
            (put_self s.disk temp_archive _) from_before
            (omega (arith, length-append t.contents header)) sized (omega arith) in
        (
          d',
          s.to + length header + e.size,
          ap
                (λ w.
                  after_keep s
                    (copy_out k e.size w.1 archive s.from temp_archive (s.to + w.0) e.size))
                written
              ∙ ap (after_keep s) run,
          omega (arith, length-append header data'),
          Grown-trans s.disk d1 d' temp_archive t header data'
              (Grown-put s.disk temp_archive t header) more,
        )

    -- The member that is asked for becomes the file.
    pub extract_member-IsRestored :
        k.may_write filename ≡ true
        → (d' : Disk) × (f : File) × (extract_member k archive filename e s
              (open_truncate k s.disk filename e.mode)
            ≡ next (record s { disk = d'; from = s.from + e.size; found = true }))
          × (d' filename ≡ some f)
          × IsRestored k filename e data' f
          × ((other : Bytes) → other ≢ filename → d' other ≡ s.disk other)
    unfolding open_truncate copy_out
    extract_member-IsRestored may_write =
        let t : File = or_emptied k filename e.mode (s.disk filename) in
        let d1 : Disk = put s.disk filename (some t) in
        let empty : t.contents ≡ [] = or_emptied-contents k filename e.mode (s.disk filename) in
        let (d', run, (now, others)) =
          copy_out-Grown k archive filename file_apart (roomy filename) readable e.size s.from 0
            e.size before data' after d1 a t
            (put-other s.disk filename archive _ file_apart ∙ at_parts) (put_self s.disk filename _)
            from_before (rw empty) sized (omega arith) in
        let t' : File = record t { contents = t.contents ++ data' } in
        let f : File = settled k filename e t' in
        (
          put d' filename (some f),
          f,
          rw may_write (
              ap (after_extract k filename e s) run
              ∙ ap (λ w. next (record s { disk = w; from = s.from + e.size; found = true }))
                  (restore-settled k filename e d' t' now)),
          put_self d' filename _,
          subst (λ c. IsRestored k filename e c f) (ap (λ c. c ++ data') empty)
              (settled-IsRestored k filename e t'),
          λ other ne.
              put-other d' filename other _ ne
              ∙ others other ne
              ∙ put-other s.disk filename other _ ne,
        )
