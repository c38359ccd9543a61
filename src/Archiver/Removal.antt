-- ===== src/Archiver/Removal.antt =====
-- lab5/archiver.c: what a run of the main loop of `extract_from_archive` comes to, by the members
-- that it reads.
use operation_systems_mirea.Base.{
  ℕ, suc, ◌+◌, ◌≡◌, ◌≢◌, refl, ap, ◌∙◌, Bool, true, false, ◌||◌, List, [], ◌∷◌, ◌++◌, append_assoc,
  Option, none, some, arith, if◌then◌else◌,
}
use operation_systems_mirea.Base.Text.{Bytes, str_eq}
use operation_systems_mirea.Archiver.Files.{Kernel, File}
use operation_systems_mirea.Archiver.Entry.{Layout, ArchiveEntry, read_entry}
use operation_systems_mirea.Archiver.Extract.{
  Scan, next, temp_archive, round, conclude, extract_loop,
}
use operation_systems_mirea.Archiver.Members.{Member, serialize}
use operation_systems_mirea.Archiver.Rounds.{IsRestored}

-- The members that are not asked for, in their order.
abbrev pub without : Bytes → List Member → List Member
without filename [] = []
without filename (m ∷ ms) =
    let rest = without filename ms in if str_eq m.0.name filename then rest else m ∷ rest

abbrev pub or_else : Option Member → Member → Bool → Option Member
or_else (some m') m named = some m'
or_else none m true = some m
or_else none m false = none

-- The last member of a name: it is written last.
abbrev pub last_named : Bytes → List Member → Option Member
last_named filename [] = none
last_named filename (m ∷ ms) = or_else (last_named filename ms) m (str_eq m.0.name filename)

abbrev pub is_some : Option Member → Bool
is_some none = false
is_some (some m) = true

-- The file of the name before and after: untouched, or the member restored.
abbrev pub Outcome : Kernel → Bytes → Option Member → Option File → Option File → Type 0
Outcome k filename none old new = new ≡ old
Outcome k filename (some (e, c)) old new = (f : File) × (new ≡ some f) × IsRestored k filename e c f

-- From `s` to `s'` the members went to the temporary file `t`, or to the file of the name.
pub record SortedOut (k : Kernel) (l : Layout) (filename : Bytes) (ms : List Member) (t : File)
    (s s' : Scan) : Type 0 where
  pub found : s'.found ≡ (s.found || is_some (last_named filename ms))
  pub kept :
      s'.disk temp_archive
      ≡ some (record t { contents = t.contents ++ serialize l (without filename ms) })
  pub outcome : Outcome k filename (last_named filename ms) (s.disk filename) (s'.disk filename)
  pub elsewhere :
      (other : Bytes) → other ≢ filename → other ≢ temp_archive → s'.disk other ≡ s.disk other

module _ (k : Kernel) (l : Layout) (archive filename : Bytes) (fuel : ℕ) (s : Scan) where
  pub extract_loop_next :
      {e : ArchiveEntry} {s' : Scan}
      → read_entry k l s.disk archive s.from ≡ some e
      → round k l archive filename e (record s { from = s.from + l.header_size }) ≡ next s'
      → extract_loop k l (suc fuel) archive filename s ≡ extract_loop k l fuel archive filename s'
  unfolding extract_loop
  extract_loop_next read goes = ground arith

  pub extract_loop_end :
      read_entry k l s.disk archive s.from ≡ none
      → extract_loop k l (suc fuel) archive filename s ≡ conclude k archive s
  unfolding extract_loop
  extract_loop_end read = ground arith

Outcome_kept :
    (k : Kernel) (filename : Bytes) (last : Option Member) (m : Member) (old old' new : Option File)
    → old' ≡ old
    → Outcome k filename last old' new
    → Outcome k filename (or_else last m false) old new
Outcome_kept k filename none m old old' new e h = h ∙ e
Outcome_kept k filename (some m') m old old' new e h = h

Outcome_extracted :
    (k : Kernel) (filename : Bytes) (last : Option Member) (e : ArchiveEntry) (c : Bytes) (f : File)
    (old old' new : Option File)
    → old' ≡ some f
    → IsRestored k filename e c f
    → Outcome k filename last old' new
    → Outcome k filename (or_else last (e, c) true) old new
Outcome_extracted k filename none e c f old old' new now r h = (f, h ∙ now, r)
Outcome_extracted k filename (some m) e c f old old' new now r h = h

is_some_named : (o : Option Member) (m : Member) → is_some (or_else o m true) ≡ true
is_some_named none m = refl
is_some_named (some m') m = refl

is_some_other : (o : Option Member) (m : Member) → is_some (or_else o m false) ≡ is_some o
is_some_other none m = refl
is_some_other (some m') m = refl

module _ (k : Kernel) (l : Layout) (filename : Bytes) (ms : List Member) (e : ArchiveEntry)
    (c : Bytes) (t : File) (s s1 s' : Scan) where
  -- The first member became the file, and the others were sorted out.
  pub SortedOut-extracted :
      (f : File)
      → str_eq e.name filename ≡ true
      → s1.found ≡ true
      → s1.disk filename ≡ some f
      → IsRestored k filename e c f
      → ((other : Bytes) → other ≢ filename → s1.disk other ≡ s.disk other)
      → SortedOut k l filename ms t s1 s'
      → SortedOut k l filename ((e, c) ∷ ms) t s s'
  SortedOut-extracted f same marked now restored others h = record {
    found = rw (same, is_some_named (last_named filename ms) (e, c)) (ground (arith, h.found));
    kept = rw same (h.kept);
    outcome = rw same (
        Outcome_extracted k filename (last_named filename ms) e c f (s.disk filename)
          (s1.disk filename) (s'.disk filename) now restored h.outcome);
    elsewhere = λ other ne ne'. h.elsewhere other ne ne' ∙ others other ne;
  }

  -- The first member went to the temporary file, and the others were sorted out.
  pub SortedOut-kept :
      str_eq e.name filename ≡ false
      → filename ≢ temp_archive
      → s1.found ≡ s.found
      → ((other : Bytes) → other ≢ temp_archive → s1.disk other ≡ s.disk other)
      → SortedOut k l filename ms (record t { contents = t.contents ++ (l.encode e ++ c) }) s1 s'
      → SortedOut k l filename ((e, c) ∷ ms) t s s'
  unfolding serialize
  SortedOut-kept differs temp_apart unmarked others h = record {
    found = rw (differs, is_some_other (last_named filename ms) (e, c)) (ground (arith, h.found));
    kept = rw differs (h.kept ∙ ap (λ b. some (record t { contents = b })) (simp append_assoc));
    outcome = rw differs (
        Outcome_kept k filename (last_named filename ms) (e, c) (s.disk filename) (s1.disk filename)
          (s'.disk filename) (others filename temp_apart) h.outcome);
    elsewhere = λ other ne ne'. h.elsewhere other ne ne' ∙ others other ne';
  }
