-- ===== src/Ls.antt =====
-- lab2/demls.c: `ls`. The system's answers are the parameters `Kernel`, `Memory` and `Directory`; of
-- `getopt` the program's options and operands are taken, and `qsort` is the parameter `sort`.
pub mod State
pub mod Format
pub mod Collect
pub mod Order
pub mod Array
pub mod Mode
pub mod Frees
pub mod Release
pub mod Listing
mod Tests
use operation_systems_mirea.Base.{
  ℕ, zero, suc, ◌+◌, Bool, true, false, not, ◌&&◌, ◌||◌, List, [], ◌∷◌, ◌++◌, Option, none, some,
  leb, ◌==◌, if◌then◌else◌, length,
}
use operation_systems_mirea.Base.Text.{Bytes, codes}
use State.{
  Message, invalid_option, cannot_open, cannot_collect, cannot_stat, path_too_long,
  too_many_arguments, no_path_buffer, Freed, is_freed, free, ProgramState, begun, Outcome, exited,
  double_free, overrun, free_entries, drop_entries, cleanup_program, finish, fail_with, free_copy,
}
use Format.{Kernel, Stat, long_line, short_item}
use Collect.{
  Sign, Collected, collected, no_array, no_memory, read_failed, past_end, dirent_compare,
  collect_entries, is_hidden,
}

pub record Flags : Type 0 where
  pub all : Bool
  pub long : Bool

pub data Printed : Type 0 where
  printed : Bytes → ProgramState → Printed
  ended : Outcome → Printed

abbrev pub then_free : ℕ → ProgramState → Bytes → Printed
then_free i s text = elim (free_copy i s) [ none ↦ ended double_free | some s' ↦ printed text s' ]

-- `lstat` failed: the copy is freed, and then the program fails.
abbrev pub stat_failed : ℕ → ProgramState → Bytes → Outcome
unfolding free_entries
stat_failed i s out = elim (free_copy i s) [
  | none ↦ double_free
  | some s' ↦ fail_with cannot_stat s' out
]

abbrev pub max_path_length : ℕ
max_path_length = 4096

abbrev pub compose_path : Bytes → Bytes → Bytes
compose_path base name = base ++ b'/' ∷ name

abbrev pub print_stat :
    Kernel → Flags → Bytes → Bytes → ℕ → ProgramState → Bytes → Option Stat → Printed
unfolding free_entries long_line short_item
print_stat k flags path name i s out none = ended (stat_failed i s out)
print_stat k flags path name i s out (some st) =
    then_free i s (if flags.long then long_line k path name st else short_item name st)

-- `out` is what has been printed before.
unfoldable pub print_entry : Kernel → Flags → Bytes → ℕ → ProgramState → Bytes → Bytes → Printed
unfolding free_entries long_line short_item
print_entry k flags base i s out name =
    if is_hidden name && not flags.all
    then then_free i s []
    else if leb max_path_length (length (compose_path base name))
    then ended (fail_with path_too_long s out)
    else print_stat k flags (compose_path base name) name i s out (k.lstat (compose_path base name))

-- The loop of `listDirectory` from place `i` on, and what follows it.
unfoldable pub print_loop : Kernel → Flags → Bytes → ℕ → ProgramState → Bytes → List Bytes → Printed
unfolding print_entry
print_loop k flags base i s out [] =
    printed (if flags.long then out else out ++ 10 ∷ [])
      (record s { entry_count = 0; entries = false })
print_loop k flags base i s out (name ∷ names) = elim (print_entry k flags base i s out name) [
  | printed text s' ↦ print_loop k flags base (i + 1) s' (out ++ text) names
  | ended o ↦ ended o
]

-- What `opendir` and `readdir` give for a path.
pub record Directory : Type 0 where
  pub names : List Bytes
  pub read_error : Bool

-- `qsort` with a comparison
abbrev pub Sorter : Type 0
Sorter = (Bytes → Bytes → Sign) → List Bytes → List Bytes

-- The state with `n` copies in the array.
abbrev pub with_entries : ℕ → ProgramState → ProgramState
with_entries n s = record s { entries = true; entry_count = n; copies = n }

-- `collectEntries` gives the array back and fails.
abbrev pub give_up : ProgramState → Outcome
unfolding free_entries
give_up s = elim (drop_entries s) [ none ↦ double_free | some s' ↦ fail_with cannot_collect s' [] ]

-- From the end of the loop of `collectEntries` to the end of `listDirectory`.
abbrev pub print_collected : Kernel → Sorter → Flags → Bytes → ProgramState → Collected → Printed
unfolding print_loop free_entries
print_collected k sort flags base s (collected entries capacity) =
    print_loop k flags base 0 (with_entries (length entries) s) [] (sort dirent_compare entries)
print_collected k sort flags base s no_array = ended (fail_with cannot_collect s [])
print_collected k sort flags base s (no_memory n) = ended (give_up (with_entries n s))
print_collected k sort flags base s (read_failed n) = ended (give_up (with_entries n s))
print_collected k sort flags base s past_end = ended overrun

abbrev pub list_opened :
    Kernel → Collect.Memory → Sorter → Flags → Bytes → ProgramState → Option Directory → Printed
unfolding collect_entries print_loop free_entries
list_opened k m sort flags base s none = ended (fail_with cannot_open s [])
list_opened k m sort flags base s (some dir) =
    print_collected k sort flags base (record s { open_dir = true })
      (collect_entries m dir.names dir.read_error)

unfoldable pub list_directory :
    Kernel
    → Collect.Memory
    → (Bytes → Option Directory)
    → Sorter
    → Flags
    → ProgramState
    → Bytes
    → Printed
unfolding collect_entries print_loop free_entries
list_directory k m open_dir sort flags s base = list_opened k m sort flags base s (open_dir base)

-- What `getopt` returns, one after the other.
pub data OptionLetter : Type 0 where
  letter_h letter_l letter_a unknown : OptionLetter

pub data Parsed : Type 0 where
  go : Flags → Parsed
  help : Parsed
  refused : Parsed

unfoldable pub read_options : Flags → List OptionLetter → Parsed
read_options flags [] = go flags
read_options flags (letter_h ∷ os) = help
read_options flags (letter_l ∷ os) = read_options (record flags { long = true }) os
read_options flags (letter_a ∷ os) = read_options (record flags { all = true }) os
read_options flags (unknown ∷ os) = refused

abbrev pub help_text : Bytes
help_text =
    codes
      "ls - list directory contents\nusage: ls [params...] [file]\n -a - do not ignore entries starting with '.'\n -l - use a long listing format\n -h - print this message\n"

-- `main` after `listDirectory`.
abbrev pub conclude : Printed → Outcome
unfolding free_entries
conclude (printed out s) = finish 0 out none (cleanup_program s)
conclude (ended o) = o

abbrev pub list_operands :
    Kernel
    → Collect.Memory
    → (Bytes → Option Directory)
    → Sorter
    → Flags
    → ProgramState
    → List Bytes
    → Outcome
unfolding list_directory free_entries
list_operands k m open_dir sort flags s [] =
    conclude (list_directory k m open_dir sort flags s (codes "."))
list_operands k m open_dir sort flags s (path ∷ []) =
    conclude (list_directory k m open_dir sort flags s path)
list_operands k m open_dir sort flags s _ =
    finish 1 [] (some too_many_arguments) (cleanup_program s)

-- `main` after `initProgram`.
abbrev pub run_options :
    Kernel
    → Collect.Memory
    → (Bytes → Option Directory)
    → Sorter
    → ProgramState
    → List Bytes
    → Parsed
    → Outcome
unfolding list_directory free_entries
run_options k m open_dir sort s operands (go flags) =
    list_operands k m open_dir sort flags s operands
run_options k m open_dir sort s operands help = finish 0 help_text none (cleanup_program s)
run_options k m open_dir sort s operands refused = fail_with invalid_option s []

abbrev pub init_program : Collect.Memory → Option ProgramState
init_program m = if m.path_fits then some (record begun { path_buffer = true }) else none

unfoldable pub main :
    Kernel
    → Collect.Memory
    → (Bytes → Option Directory)
    → Sorter
    → List OptionLetter
    → List Bytes
    → Outcome
unfolding list_directory read_options free_entries
main k m open_dir sort options operands = elim (init_program m) [
  | none ↦ exited 1 [] (some no_path_buffer) begun
  | some s ↦
      run_options k m open_dir sort s operands
        (read_options (record { all = false; long = false }) options)
]
