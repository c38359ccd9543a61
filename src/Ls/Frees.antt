-- ===== src/Ls/Frees.antt =====
-- lab2/demls.c: the copies of the entries and `free`, on the good path and on the bad one.
use operation_systems_mirea.Base.{
  All, ℕ, subst, ◌+◌, ◌≡◌, ◌<◌, ◌⊎◌, refl, sym, Bool, true, false, not, ◌&&◌, List, [], ◌∷◌, ◌++◌,
  arith, leb, length, append_assoc, append-nil, if◌then◌else◌, Bool-cases, inl, inr, Option, none,
  some,
}
use operation_systems_mirea.Base.Text.{Bytes}
use operation_systems_mirea.Ls.Format.{Kernel, Stat, long_line, short_item}
use operation_systems_mirea.Ls.Collect.{is_hidden}
use operation_systems_mirea.Ls.State.Clearing.{
  Upto, Upto-next, freed_at, free_copy_next, cleanup_program_freed,
}
use operation_systems_mirea.Ls.State.{ProgramState, double_free, Freed, fail_with}
use operation_systems_mirea.Ls.{
  Flags, stat_failed, printed, ended, then_free, print_entry, print_loop, compose_path,
  max_path_length,
}

module _ (k : Kernel) (flags : Flags) (base : Bytes) where
  abbrev pub is_skipped : Bytes → Bool
  is_skipped name = is_hidden name && not flags.all

  abbrev text_of : Bytes → Option Stat → Bytes
  text_of name none = []
  text_of name (some st) =
      if flags.long then long_line k (compose_path base name) name st else short_item name st

  -- What one entry adds to the listing.
  pub item : Bytes → Bytes
  item name = if is_skipped name then [] else text_of name (k.lstat (compose_path base name))

  abbrev pub items : List Bytes → Bytes
  items [] = []
  items (name ∷ names) = item name ++ items names

  -- An entry that is skipped, or whose path fits and whose file can be examined.
  abbrev pub IsShowable : Bytes → Type 0
  IsShowable name =
      (is_skipped name ≡ true)
      ⊎ ((leb max_path_length (length (compose_path base name)) ≡ false)
          × ((st : Stat) × (k.lstat (compose_path base name) ≡ some st)))

-- What is freed after the copies of `names`, which stand from place `i` on.
abbrev pub freed_after : ℕ → List Bytes → Freed → Freed
freed_after i [] freed = freed
freed_after i (name ∷ names) freed = freed_after (i + 1) names (i ∷ freed)

pub freed_after-Upto :
    (i : ℕ) (names : List Bytes) (freed : Freed)
    → Upto i freed
    → Upto (i + length names) (freed_after i names freed)
freed_after-Upto i [] freed h j = ground (arith, h j)
freed_after-Upto i (name ∷ names) freed h j =
    ground (arith, freed_after-Upto (i + 1) names (i ∷ freed) (Upto-next i freed h) j)

module _ (k : Kernel) (flags : Flags) (base : Bytes) where
  print_entry-item :
      (i : ℕ) (s : ProgramState) (out name : Bytes)
      → Upto i s.freed
      → IsShowable k flags base name
      → print_entry k flags base i s out name
        ≡ printed (item k flags base name) (freed_at s (i ∷ s.freed))
  unfolding print_entry item
  print_entry-item i s out name u (inl skipped) = rw (skipped, free_copy_next i s u, then_free) refl
  print_entry-item i s out name u (inr (fits, (st, found))) =
      elim (Bool-cases (is_skipped k flags base name)) [
        | inl skipped ↦ rw (skipped, free_copy_next i s u, then_free) refl
        | inr visible ↦ rw (visible, fits, found, free_copy_next i s u, then_free) refl
      ]

  -- The loop over entries that are skipped or can be examined.
  pub print_loop-items :
      (i : ℕ) (s : ProgramState) (out : Bytes) (names : List Bytes)
      → Upto i s.freed
      → All (IsShowable k flags base) names
      → print_loop k flags base i s out names
        ≡ printed
            (if flags.long
              then out ++ items k flags base names
              else (out ++ items k flags base names) ++ 10 ∷ [])
            (record s { entry_count = 0; entries = false; freed = freed_after i names s.freed })
  unfolding print_loop
  print_loop-items i s out [] u h = rw append-nil refl
  print_loop-items i s out (name ∷ names) u (here, rest) =
      rw (print_entry-item i s out name u here, print_loop)
        (rw (sym (append_assoc out (item k flags base name) (items k flags base names))) (
          print_loop-items (i + 1) (freed_at s (i ∷ s.freed)) (out ++ item k flags base name) names
            (Upto-next i s.freed u) rest))

module _ (k : Kernel) (flags : Flags) (base : Bytes) where
  -- A visible entry in place `i` whose file cannot be examined, or whose path does not fit while there
  -- is a place before.
  abbrev pub IsUnshowable : ℕ → Bytes → Type 0
  IsUnshowable i name =
      (is_skipped k flags base name ≡ false)
      × (((leb max_path_length (length (compose_path base name)) ≡ false)
            × (k.lstat (compose_path base name) ≡ none))
          ⊎ ((leb max_path_length (length (compose_path base name)) ≡ true) × (0 < i)))

  print_entry_missing :
      (i : ℕ) (s : ProgramState) (out name : Bytes)
      → Upto i s.freed
      → s.entries ≡ true
      → i < s.entry_count
      → IsUnshowable i name
      → print_entry k flags base i s out name ≡ ended double_free
  unfolding print_entry
  print_entry_missing i s out name u e l (visible, inl (fits, missing)) =
      rw (visible, fits, missing, stat_failed, free_copy_next i s u)
        (rw (cleanup_program_freed (freed_at s (i ∷ s.freed)) i e l (ground arith), fail_with) refl)
  print_entry_missing i s out name u e l (visible, inr (long, later)) =
      rw (visible, long)
        (rw (cleanup_program_freed s 0 e (omega arith) (ground (arith, u 0)), fail_with) refl)

  -- The loop over entries that are skipped or can be examined, and then one that cannot be shown.
  pub print_loop_missing :
      (i : ℕ) (s : ProgramState) (out : Bytes) (before after : List Bytes) (name : Bytes)
      → Upto i s.freed
      → s.entries ≡ true
      → i + length before < s.entry_count
      → All (IsShowable k flags base) before
      → IsUnshowable (i + length before) name
      → print_loop k flags base i s out (before ++ name ∷ after) ≡ ended double_free
  unfolding print_loop
  print_loop_missing i s out [] after name u e l h bad =
      rw
        (
          print_entry_missing i s out name u e (omega arith)
              (subst (λ j. IsUnshowable j name) (omega arith) bad),
          print_loop,
        )
        refl
  print_loop_missing i s out (x ∷ before) after name u e l (here, rest) bad =
      rw (print_entry-item k flags base i s out x u here, print_loop)
        (print_loop_missing (i + 1) (freed_at s (i ∷ s.freed)) (out ++ item k flags base x) before
          after name (Upto-next i s.freed u) e (omega arith) rest
          (subst (λ j. IsUnshowable j name) (omega arith) bad))
