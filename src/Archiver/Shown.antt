-- ===== src/Archiver/Shown.antt =====
-- lab5/archiver.c: what `show_contents` prints of an archive.
use operation_systems_mirea.Base.{
  ℕ, zero, suc, ◌+◌, ◌≡◌, ◌≤◌, ◌<◌, ap, ◌∙◌, true, false, List, [], ◌∷◌, ◌++◌, map, append-nil,
  append_assoc, some, arith, length, length-append,
}
use operation_systems_mirea.Base.Text.{Bytes}
use operation_systems_mirea.Archiver.Files.{Kernel, Disk, contents_of, open_read}
use operation_systems_mirea.Archiver.Entry.{Layout, IsLawful, ArchiveEntry}
use operation_systems_mirea.Archiver.Show.{show_loop, show_contents}
use operation_systems_mirea.Archiver.Members.{
  Member, serialize, AreValid, read_entry-encode, read_entry_end,
}

abbrev pub row : Member → Bytes × ℕ
row m = (m.0.name, m.0.size)

pub length-serialize :
    (l : Layout) (ms : List Member)
    → 0 < l.header_size
    → ((e : ArchiveEntry) → length (l.encode e) ≡ l.header_size)
    → length ms ≤ length (serialize l ms)
unfolding serialize
length-serialize l [] h f = omega arith
length-serialize l ((e, c) ∷ ms) h f = omega (
  arith,
  length-append (l.encode e) (c ++ serialize l ms),
  length-append c (serialize l ms),
  f e,
  length-serialize l ms h f,
)

module _ (k : Kernel) (l : Layout) {Valid : ArchiveEntry → Type 0} (lawful : IsLawful l Valid)
    (d : Disk) (archive : Bytes)
    (readable : (offset : ℕ) → k.read_fails archive offset ≡ false) where
  show_loop-serialize :
      (ms : List Member) (before : Bytes) (fuel count : ℕ)
      → AreValid Valid ms
      → length ms < fuel
      → contents_of (d archive) ≡ before ++ serialize l ms
      → show_loop k l fuel d archive (length before) count
        ≡ some (record { rows = map row ms; count = count + length ms })
  unfolding show_loop serialize
  show_loop-serialize ms before zero count v h e = absurd (omega arith)
  show_loop-serialize [] before (suc fuel) count v h e =
      rw (read_entry_end k l lawful d archive readable before (e ∙ append-nil before), show_loop)
        (ap (λ n. some (record { rows = []; count = n })) (omega arith))
  show_loop-serialize ((x, c) ∷ ms) before (suc fuel) count ((v, size), vs) h e =
      let next : contents_of (d archive) ≡ (before ++ (l.encode x ++ c)) ++ serialize l ms =
        e ∙ simp append_assoc in
      let here : length (before ++ (l.encode x ++ c)) ≡ length before + l.header_size + x.size =
        omega (
          arith,
          length-append before (l.encode x ++ c),
          length-append (l.encode x) c,
          lawful.length-encode x,
          size,
        ) in
      rw
        (
          read_entry-encode k l lawful d archive readable before (c ++ serialize l ms) x v e,
          show_loop,
        )
        (rw
          (rw here at (
            show_loop-serialize ms (before ++ (l.encode x ++ c)) fuel (count + 1) vs (omega arith)
              next))
          (ap (λ n. some (record { rows = row (x, c) ∷ map row ms; count = n })) (omega arith)))

  -- An archive that can be opened and read, and that holds the members `ms` and nothing else, is
  -- listed to its end: a row with the name and the size of each member, in order, and their number.
  pub show_contents-serialize :
      (ms : List Member)
      → AreValid Valid ms
      → open_read k d archive ≡ true
      → contents_of (d archive) ≡ serialize l ms
      → show_contents k l d archive ≡ some (record { rows = map row ms; count = length ms })
  unfolding show_contents
  show_contents-serialize ms v opens e = rw (opens) (
      show_loop-serialize ms [] (suc (length (contents_of (d archive)))) 0 v
        (omega (arith, ap length e, length-serialize l ms lawful.header_pos lawful.length-encode)) e
      ∙ ap (λ n. some (record { rows = map row ms; count = n })) (omega arith))
