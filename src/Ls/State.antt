-- ===== src/Ls/State.antt =====
-- lab2/demls.c: what the program has allocated, `cleanupProgram`, and the ends of a run.
pub mod Clearing
use operation_systems_mirea.Base.{
  ℕ, zero, suc, ◌+◌, Bool, true, false, ◌||◌, List, [], ◌∷◌, Option, none, some, ◌==◌,
  if◌then◌else◌,
}
use operation_systems_mirea.Base.Text.{Bytes}

pub data Message : Type 0 where
  invalid_option cannot_open cannot_collect cannot_stat path_too_long too_many_arguments
        no_path_buffer :
      Message

-- The places of the array whose copies have been freed.
abbrev pub Freed : Type 0
Freed = List ℕ

abbrev pub is_freed : ℕ → Freed → Bool
is_freed i [] = false
is_freed i (j ∷ freed) = i == j || is_freed i freed

abbrev pub free : ℕ → Freed → Option Freed
free i freed = if is_freed i freed then none else some (i ∷ freed)

-- What there is to give back. Each of the first three is a pointer that is not null, which then points
-- to what is allocated, or open; the copies are those of the entries, sorted or not.
pub record ProgramState : Type 0 where
  pub path_buffer : Bool
  pub open_dir : Bool
  pub entries : Bool
  pub entry_count : ℕ
  pub copies : ℕ  -- how many were allocated
  pub freed : Freed

abbrev pub begun : ProgramState
begun = record {
  path_buffer = false;
  open_dir = false;
  entries = false;
  entry_count = 0;
  copies = 0;
  freed = [];
}

-- The end of a run: its status, what it printed, the message on stderr, and what is left. Or `free` was
-- called for a copy of an entry that was freed before; or the array was written past its end.
pub data Outcome : Type 0 where
  exited : ℕ → Bytes → Option Message → ProgramState → Outcome
  double_free : Outcome
  overrun : Outcome

-- The loop over `free(g_state.entries[i])`: the copies from place `i` on, `n` of them.
unfoldable pub free_entries : ℕ → ℕ → Freed → Option Freed
free_entries zero i freed = some freed
free_entries (suc n) i freed = elim (free i freed) [
  | none ↦ none
  | some freed' ↦ free_entries n (i + 1) freed'
]

-- The loop, `free(g_state.entries)` and the null pointer.
abbrev pub drop_entries : ProgramState → Option ProgramState
unfolding free_entries
drop_entries s = elim (free_entries s.entry_count 0 s.freed) [
  | none ↦ none
  | some freed' ↦ some (record s { entries = false; freed = freed' })
]

abbrev pub cleanup_program : ProgramState → Option ProgramState
unfolding free_entries
cleanup_program s =
    let closed : ProgramState = record s { path_buffer = false; open_dir = false } in
    if s.entries then drop_entries closed else some closed

-- `exit` after `cleanupProgram`.
abbrev pub finish : ℕ → Bytes → Option Message → Option ProgramState → Outcome
finish status out m none = double_free
finish status out m (some s) = exited status out m s

abbrev pub fail_with : Message → ProgramState → Bytes → Outcome
unfolding free_entries
fail_with m s out = finish 1 out (some m) (cleanup_program s)

-- `free(entry)`
abbrev pub free_copy : ℕ → ProgramState → Option ProgramState
free_copy i s = elim (free i s.freed) [
  | none ↦ none
  | some freed' ↦ some (record s { freed = freed' })
]
