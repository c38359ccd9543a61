-- ===== src/Ls/Release.antt =====
-- lab2/demls.c: what a run has given back when it ends.
use operation_systems_mirea.Base.{
  ℕ, zero, suc, ◌+◌, ◌<◌, ◌⊎◌, ◌≡◌, refl, sym, subst, true, false, not, ◌&&◌, List, [], ◌∷◌, ◌++◌,
  arith, leb, length, Bool-cases, inl, inr, Option, none, some,
}
use operation_systems_mirea.Base.Schedule.{Kept}
use operation_systems_mirea.Base.Text.{Bytes, codes}
use operation_systems_mirea.Ls.Format.{Kernel, Stat}
use operation_systems_mirea.Ls.Collect.{
  Memory, Collected, collected, no_array, no_memory, read_failed, past_end, is_hidden,
  dirent_compare, collect_entries,
}
use operation_systems_mirea.Ls.Array.{Holds, collect_entries-Holds}
use operation_systems_mirea.Ls.Frees.{IsUnshowable}
use operation_systems_mirea.Ls.State.Clearing.{
  Upto, Upto-next, freed_at, free_copy_next, Accounts, AllFreed, IsCleared, IsSome,
  drop_entries-IsSome, Intact, drop_entries-IsCleared, GivesBack, finish-GivesBack,
  fail_with-GivesBack,
}
use operation_systems_mirea.Ls.State.{
  ProgramState, Message, begun, double_free, fail_with, drop_entries, cannot_collect, cannot_stat,
  path_too_long, cannot_open, invalid_option, too_many_arguments,
}
use operation_systems_mirea.Ls.{
  Flags, stat_failed, Printed, printed, ended, then_free, print_entry, print_stat, print_loop,
  compose_path, max_path_length, Directory, Sorter, with_entries, give_up, print_collected,
  list_opened, list_directory, conclude, list_operands, OptionLetter, Parsed, go, help, refused,
  run_options, read_options, main, help_text,
}

-- After an entry the state is the same but for its copy.
abbrev Goes : Type 0 → ℕ → ProgramState → Printed → Type 0
Goes P i s (printed text t) = t ≡ freed_at s (i ∷ s.freed)
Goes P i s (ended o) = GivesBack P o

module _ (P : Type 0) (k : Kernel) (flags : Flags) (base : Bytes) where
  print_stat-Goes :
      (i : ℕ) (s : ProgramState) (out path name : Bytes) (st : Option Stat)
      → Upto i s.freed
      → s.entries ≡ true
      → s.entry_count ≡ s.copies
      → (st ≡ none → P)
      → Goes P i s (print_stat k flags path name i s out st)
  unfolding print_stat
  print_stat-Goes i s out path name none u e c bad =
      rw (free_copy_next i s u, stat_failed)
        (fail_with-GivesBack P cannot_stat (freed_at s (i ∷ s.freed)) out
          (λ _. c, λ n. absurd (ground (arith, e, n))) (λ _. inr (bad refl)))
  print_stat-Goes i s out path name (some st) u e c bad = rw (free_copy_next i s u, then_free) refl

  -- A copy is freed twice only at an entry that cannot be shown.
  print_entry-Goes :
      (i : ℕ) (s : ProgramState) (out name : Bytes)
      → Upto i s.freed
      → s.entries ≡ true
      → s.entry_count ≡ s.copies
      → (IsUnshowable k flags base i name → P)
      → Goes P i s (print_entry k flags base i s out name)
  unfolding print_entry
  print_entry-Goes i s out name u e c bad = elim (Bool-cases (is_hidden name && not flags.all)) [
    | inl hidden ↦ rw (hidden, free_copy_next i s u, then_free) refl
    | inr shown ↦ elim (Bool-cases (leb max_path_length (length (compose_path base name)))) [
      | inl long ↦
          rw (shown, long)
            (fail_with-GivesBack P path_too_long s out (λ _. c, λ n. absurd (ground (arith, e, n)))
              (λ _. intact i u (λ later. bad (shown, inr (long, later)))))
      | inr fits ↦
          rw (shown, fits)
            (print_stat-Goes i s out (compose_path base name) name
              (k.lstat (compose_path base name)) u e c
              (λ missing. bad (shown, inl (fits, missing))))
    ]
  ]
    where
      intact : (j : ℕ) → Upto j s.freed → (0 < j → P) → Upto 0 s.freed ⊎ P
      intact zero v p = inl v
      intact (suc j) v p = inr (p (omega arith))

abbrev Closes : Type 0 → Printed → Type 0
Closes P (printed text s) = (s.entries ≡ false) × AllFreed s
Closes P (ended o) = GivesBack P o

-- One of the names, which stand from place `i` on, cannot be shown.
abbrev pub Meets : Kernel → Flags → Bytes → ℕ → List Bytes → Type 0
Meets k flags base i [] = ⊥
Meets k flags base i (name ∷ names) =
    IsUnshowable k flags base i name ⊎ Meets k flags base (i + 1) names

module _ (P : Type 0) (k : Kernel) (flags : Flags) (base : Bytes) where
  print_loop-Closes :
      (i : ℕ) (s : ProgramState) (out : Bytes) (names : List Bytes)
      → Upto i s.freed
      → s.entries ≡ true
      → s.entry_count ≡ s.copies
      → i + length names ≡ s.copies
      → (Meets k flags base i names → P)
      → Closes P (print_loop k flags base i s out names)
  unfolding print_loop
  print_loop-Closes i s out [] u e c l bad = (refl, λ j b. ground (arith, u j))
  print_loop-Closes i s out (name ∷ names) u e c l bad =
      after (print_entry k flags base i s out name)
        (print_entry-Goes P k flags base i s out name u e c (λ h. bad (inl h)))
        (λ text.
          print_loop-Closes (i + 1) (freed_at s (i ∷ s.freed)) (out ++ text) names
            (Upto-next i s.freed u) e c (omega arith) (λ h. bad (inr h)))
    where
      after :
          (p : Printed)
          → Goes P i s p
          → ((text : Bytes)
              → Closes P
                  (print_loop k flags base (i + 1) (freed_at s (i ∷ s.freed)) (out ++ text) names))
          → Closes P (elim p [
            | printed text t ↦ print_loop k flags base (i + 1) t (out ++ text) names
            | ended o ↦ ended o
          ])
      after (ended o) h rest = h
      after (printed text t) h rest =
          subst (λ t. Closes P (print_loop k flags base (i + 1) t (out ++ text) names)) (sym h)
            (rest text)

-- Before there is an array.
abbrev IsFresh : ProgramState → Type 0
IsFresh s = (s.entries ≡ false) × (s.copies ≡ 0) × (s.freed ≡ [])

IsFresh-Accounts : (s : ProgramState) → IsFresh s → Accounts s
IsFresh-Accounts s (e, c, f) = (λ h. absurd (ground (arith, e, h)), λ _ j b. absurd (omega arith))

IsFresh-Intact : (P : Type 0) (s : ProgramState) → IsFresh s → Intact P s
IsFresh-Intact P s (e, c, f) h = absurd (ground (arith, e, h))

fail_with-fresh :
    (P : Type 0) (m : Message) (s : ProgramState) → IsFresh s → GivesBack P (fail_with m s [])
fail_with-fresh P m s f = fail_with-GivesBack P m s [] (IsFresh-Accounts s f) (IsFresh-Intact P s f)

give_up-GivesBack :
    (P : Type 0) (s : ProgramState)
    → s.entry_count ≡ s.copies
    → Upto 0 s.freed
    → GivesBack P (give_up s)
unfolding give_up
give_up-GivesBack P s c u =
    after (drop_entries s) (drop_entries-IsCleared s c) (drop_entries-IsSome s u)
  where
    after :
        (o : Option ProgramState)
        → Kept (IsCleared s) o
        → IsSome o
        → GivesBack P (elim o [ none ↦ double_free | some t ↦ fail_with cannot_collect t [] ])
    after none h i = absurd i
    after (some t) (_, _, e, f) i =
        fail_with-GivesBack P cannot_collect t [] (λ h. absurd (ground (arith, e, h)), λ _. f)
          (λ h. absurd (ground (arith, e, h)))

-- The directory that is listed has an entry that is not skipped and that cannot be shown: `lstat`
-- fails under a path that fits, or the path is too long and it is not the first.
abbrev pub Fault : Kernel → (Bytes → Option Directory) → Sorter → Flags → Bytes → Type 0
Fault k open_dir sort flags base =
    (dir : Directory) × (open_dir base ≡ some dir)
    × Meets k flags base 0 (sort dirent_compare dir.names)

-- The flags and the directory of a run, and a fault of that directory.
abbrev pub Faulty : Kernel → (Bytes → Option Directory) → Sorter → List Bytes → Parsed → Type 0
Faulty k open_dir sort [] (go flags) = Fault k open_dir sort flags (codes ".")
Faulty k open_dir sort (path ∷ []) (go flags) = Fault k open_dir sort flags path
Faulty k open_dir sort _ _ = ⊥

module _ (k : Kernel) (m : Memory) (open_dir : Bytes → Option Directory) (sort : Sorter)
    (sorts : (names : List Bytes) → length (sort dirent_compare names) ≡ length names) where
  print_collected-Closes :
      (P : Type 0) (flags : Flags) (base : Bytes) (s : ProgramState) (names : List Bytes)
      (r : Collected)
      → IsFresh s
      → Holds names r
      → (Meets k flags base 0 (sort dirent_compare names) → P)
      → Closes P (print_collected k sort flags base s r)
  unfolding print_collected
  print_collected-Closes P flags base s names (collected entries capacity) (e, c, f) h bad =
      print_loop-Closes P k flags base 0 (with_entries (length entries) s) []
        (sort dirent_compare entries) (λ j. ground (arith, f)) refl refl
        (omega (arith, sorts entries))
        (subst (λ es. Meets k flags base 0 (sort dirent_compare es) → P) (sym h.0) bad)
  print_collected-Closes P flags base s names no_array f h bad =
      fail_with-fresh P cannot_collect s f
  print_collected-Closes P flags base s names (no_memory n) (e, c, f) h bad =
      give_up-GivesBack P (with_entries n s) refl (λ j. ground (arith, f))
  print_collected-Closes P flags base s names (read_failed n) (e, c, f) h bad =
      give_up-GivesBack P (with_entries n s) refl (λ j. ground (arith, f))
  print_collected-Closes P flags base s names past_end f h bad = h

  list_opened-Closes :
      (P : Type 0) (flags : Flags) (base : Bytes) (s : ProgramState) (o : Option Directory)
      → IsFresh s
      → ((dir : Directory)
          → o ≡ some dir
          → Meets k flags base 0 (sort dirent_compare dir.names)
          → P)
      → Closes P (list_opened k m sort flags base s o)
  unfolding list_opened
  list_opened-Closes P flags base s none f bad = fail_with-fresh P cannot_open s f
  list_opened-Closes P flags base s (some dir) f bad =
      print_collected-Closes P flags base (record s { open_dir = true }) dir.names
        (collect_entries m dir.names dir.read_error) f
        (collect_entries-Holds m dir.names dir.read_error) (bad dir refl)

  conclude-GivesBack : (P : Type 0) (p : Printed) → Closes P p → GivesBack P (conclude p)
  unfolding conclude
  conclude-GivesBack P (printed out s) (e, f) =
      finish-GivesBack P 0 out none s (λ h. absurd (ground (arith, e, h)), λ _. f)
        (λ h. absurd (ground (arith, e, h)))
  conclude-GivesBack P (ended o) h = h

  listed-GivesBack :
      (P : Type 0) (flags : Flags) (base : Bytes) (s : ProgramState)
      → IsFresh s
      → (Fault k open_dir sort flags base → P)
      → GivesBack P (conclude (list_directory k m open_dir sort flags s base))
  unfolding list_directory
  listed-GivesBack P flags base s f bad =
      conclude-GivesBack P (list_directory k m open_dir sort flags s base) (
        list_opened-Closes P flags base s (open_dir base) f
          (λ dir opens meets. bad (dir, opens, meets)))

  run_options-GivesBack :
      (s : ProgramState) (operands : List Bytes) (p : Parsed)
      → IsFresh s
      → GivesBack (Faulty k open_dir sort operands p) (run_options k m open_dir sort s operands p)
  unfolding run_options list_operands
  run_options-GivesBack s [] (go flags) f =
      listed-GivesBack (Faulty k open_dir sort [] (go flags)) flags (codes ".") s f (λ h. h)
  run_options-GivesBack s (path ∷ []) (go flags) f =
      listed-GivesBack (Faulty k open_dir sort (path ∷ []) (go flags)) flags path s f (λ h. h)
  run_options-GivesBack s (path ∷ other ∷ more) (go flags) f =
      finish-GivesBack ⊥ 1 [] (some too_many_arguments) s (IsFresh-Accounts s f)
        (IsFresh-Intact ⊥ s f)
  run_options-GivesBack s operands help f =
      finish-GivesBack (Faulty k open_dir sort operands help) 0 help_text none s
        (IsFresh-Accounts s f) (IsFresh-Intact (Faulty k open_dir sort operands help) s f)
  run_options-GivesBack s operands refused f =
      fail_with-fresh (Faulty k open_dir sort operands refused) invalid_option s f

  -- With a `qsort` that keeps the number of entries: whatever the arguments, the directory and the
  -- answers of the system, no run writes past the end of the array, and before it ends every run
  -- frees each copy of an entry, the array and the path buffer and closes the directory, each copy
  -- once, unless the options are known ones without -h, there is at most one operand, and the
  -- directory that is listed has an entry that is not skipped and either cannot be examined by
  -- `lstat` under a path that fits, or has a path that is too long and is not the first.
  pub main-GivesBack :
      (options : List OptionLetter) (operands : List Bytes)
      → GivesBack
          (Faulty k open_dir sort operands
            (read_options (record { all = false; long = false }) options))
          (main k m open_dir sort options operands)
  unfolding main
  main-GivesBack options operands = elim (Bool-cases m.path_fits) [
    | inl e ↦ rw (e) (
        run_options-GivesBack (record begun { path_buffer = true }) operands
          (read_options (record { all = false; long = false }) options) (refl, refl, refl))
    | inr e ↦ rw (e) (refl, refl, refl, λ j b. absurd (omega arith))
  ]
