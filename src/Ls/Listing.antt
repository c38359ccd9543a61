-- ===== src/Ls/Listing.antt =====
-- lab2/demls.c: what `main` prints of a directory, and where it frees a copy twice.
use operation_systems_mirea.Base.{
  All, ℕ, ◌≡◌, refl, sym, ap, subst, ◌∙◌, Bool, true, false, ◌&&◌, List, [], ◌∷◌, ◌++◌, arith, ltb,
  leb, length, length-append, if◌then◌else◌, Bool-cases, inl, inr, Option, none, some,
}
use operation_systems_mirea.Base.Text.{Bytes}
use operation_systems_mirea.Ls.Format.{Kernel}
use operation_systems_mirea.Ls.Collect.{
  Memory, Collected, collected, no_array, no_memory, read_failed, past_end, store, grow,
  dirent_compare, collect_loop, collect_entries, check_read,
}
use operation_systems_mirea.Ls.Array.{Holds, collect_loop-Holds}
use operation_systems_mirea.Ls.Frees.{
  items, IsShowable, IsUnshowable, print_loop-items, print_loop_missing,
}
use operation_systems_mirea.Ls.Release.{Faulty, main-GivesBack}
use operation_systems_mirea.Ls.State.Clearing.{GivesBack, IsReleased}
use operation_systems_mirea.Ls.State.{ProgramState, begun, Outcome, exited, double_free}
use operation_systems_mirea.Ls.{
  Flags, print_loop, Directory, Sorter, with_entries, list_directory, conclude, OptionLetter, go,
  read_options, main,
}

-- Every allocation succeeds.
abbrev pub IsAmple : Memory → Type 0
IsAmple m =
    (m.path_fits ≡ true) × ((n : ℕ) → m.array_fits n ≡ true) × ((i : ℕ) → m.copy_fits i ≡ true)

abbrev HasRoom : Collected → Type 0
HasRoom no_array = ⊥
HasRoom (no_memory n) = ⊥
HasRoom (read_failed n) = ⊥
HasRoom _ = Unit {0}

and_false : (b : Bool) → (b && false) ≡ false
and_false true = refl
and_false false = refl

collect_loop-HasRoom :
    (m : Memory) (names entries : List Bytes) (capacity : ℕ)
    → IsAmple m
    → HasRoom (collect_loop m names entries capacity)
unfolding collect_loop
collect_loop-HasRoom m [] entries capacity h = tt
collect_loop-HasRoom m (name ∷ names) entries capacity h =
    rw (array, copy, and_false (leb capacity (length entries)), collect_loop)
      (stored
        (collect_loop-HasRoom m names (entries ++ name ∷ []) (grow (length entries) capacity) h))
  where
    array : m.array_fits (grow (length entries) capacity) ≡ true
    array = h.1 (grow (length entries) capacity)

    copy : m.copy_fits (length entries) ≡ true
    copy = h.2 (length entries)

    stored :
        HasRoom (collect_loop m names (entries ++ name ∷ []) (grow (length entries) capacity))
        → HasRoom (elim (store entries (grow (length entries) capacity) name) [
          | none ↦ past_end
          | some entries' ↦ collect_loop m names entries' (grow (length entries) capacity)
        ])
    stored rest = elim (Bool-cases (ltb (length entries) (grow (length entries) capacity))) [
      | inl room ↦ rw (room) rest
      | inr none_left ↦ rw (none_left) tt
    ]

-- The entries that `collectEntries` finds with room for all.
collect_entries_ample :
    (m : Memory) (names : List Bytes)
    → IsAmple m
    → (capacity : ℕ) × (collect_entries m names false ≡ collected names capacity)
unfolding collect_entries
collect_entries_ample m names (p, array, copy) = rw (array 32) (
    whole (collect_loop m names [] 32) (collect_loop-HasRoom m names [] 32 (p, array, copy))
      (collect_loop-Holds m names [] 32 (omega arith) (omega arith)))
  where
    whole :
        (r : Collected)
        → HasRoom r
        → Holds names r
        → (capacity : ℕ) × (check_read false r ≡ collected names capacity)
    whole (collected entries capacity) room (e, l) = (capacity, ap (λ es. collected es capacity) e)
    whole no_array room h = absurd room
    whole (no_memory n) room h = absurd room
    whole (read_failed n) room h = absurd room
    whole past_end room h = absurd h

-- What `main` does when the options are read, everything fits, and the directory is read.
main-print_loop :
    (k : Kernel) (m : Memory) (open_dir : Bytes → Option Directory) (sort : Sorter)
    (options : List OptionLetter) (flags : Flags) (base : Bytes) (names : List Bytes)
    → IsAmple m
    → read_options (record { all = false; long = false }) options ≡ go flags
    → open_dir base ≡ some (record { names = names; read_error = false })
    → main k m open_dir sort options (base ∷ [])
      ≡ conclude (
          print_loop k flags base 0
            (with_entries (length names) (record begun { path_buffer = true; open_dir = true }))
            []
            (sort dirent_compare names))
unfolding main list_directory conclude
main-print_loop k m open_dir sort options flags base names h reads opens =
    let (capacity, e) = collect_entries_ample m names h in rw (h.0, reads, opens, e) refl

-- A run with status 0 that prints the text and has given everything back.
abbrev pub Prints : Bytes → Outcome → Type 0
Prints text o = (s : ProgramState) × (o ≡ exited 0 text none s) × IsReleased s

abbrev pub KeepsLength : Sorter → Type 0
KeepsLength sort = (names : List Bytes) → length (sort dirent_compare names) ≡ length names

module _ (k : Kernel) (m : Memory) (open_dir : Bytes → Option Directory) (sort : Sorter)
    (options : List OptionLetter) (flags : Flags) (base : Bytes) (names : List Bytes)
    (sorts : KeepsLength sort) (ample : IsAmple m)
    (reads : read_options (record { all = false; long = false }) options ≡ go flags)
    (opens : open_dir base ≡ some (record { names = names; read_error = false })) where
  abbrev opened : ProgramState
  opened = with_entries (length names) (record begun { path_buffer = true; open_dir = true })

  released :
      (text : Bytes)
      → ((s : ProgramState) × (main k m open_dir sort options (base ∷ []) ≡ exited 0 text none s))
      → Prints text (main k m open_dir sort options (base ∷ []))
  released text (s, e) = (
    s,
    e,
    subst
        (GivesBack (
          Faulty k open_dir sort (base ∷ [])
            (read_options (record { all = false; long = false }) options)))
        e (main-GivesBack k m open_dir sort sorts options (base ∷ [])),
  )

  -- When every allocation succeeds, the options are known ones without -h, the directory can be read,
  -- `qsort` keeps the number of entries, and every entry is skipped or can be examined under a path that
  -- fits: `main` prints the entries in the order of `qsort`, each as its line or its column, skips the
  -- hidden ones without -a, ends a short listing with a newline, and returns 0 with everything freed.
  pub main-Prints :
      All (IsShowable k flags base) (sort dirent_compare names)
      → Prints
          (if flags.long
            then items k flags base (sort dirent_compare names)
            else items k flags base (sort dirent_compare names) ++ 10 ∷ [])
          (main k m open_dir sort options (base ∷ []))
  unfolding conclude
  main-Prints shown = released _ (
    _,
    main-print_loop k m open_dir sort options flags base names ample reads opens
        ∙ ap conclude (
            print_loop-items k flags base 0 opened [] (sort dirent_compare names)
              (λ j. ground arith) shown),
  )

  -- In the same way, when the entries before a visible one are skipped or can be examined, and that one
  -- cannot, since `lstat` fails under a path that fits, or since the path is too long and it is not the
  -- first: `main` frees a copy twice.
  pub main_missing :
      (before after : List Bytes) (name : Bytes)
      → sort dirent_compare names ≡ before ++ name ∷ after
      → All (IsShowable k flags base) before
      → IsUnshowable k flags base (length before) name
      → main k m open_dir sort options (base ∷ []) ≡ double_free
  unfolding conclude
  main_missing before after name sorted shown bad =
      main-print_loop k m open_dir sort options flags base names ample reads opens
      ∙ ap (λ es. conclude (print_loop k flags base 0 opened [] es)) sorted
      ∙ ap conclude (
          print_loop_missing k flags base 0 opened [] before after name (λ j. ground arith) refl
            (omega
              (arith, sym (sorts names) ∙ ap length sorted, length-append before (name ∷ after)))
            shown (subst (λ j. IsUnshowable k flags base j name) (omega arith) bad))
