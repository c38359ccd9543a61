-- ===== src/Chmod.antt =====
-- lab4/main.c: `mychmod`. The mode is octal or symbolic; the file is reached through `stat` and
-- `chmod`, whose answers are the parameter `Kernel`.
pub mod Octal
pub mod Symbolic
pub mod Bits
pub mod Grammar
pub mod Accepted
pub mod Numeral
pub mod Change
pub mod Ending
mod Tests
pub mod Spec
use operation_systems_mirea.Base.{
  ℕ, Bool, true, false, not, ◌&&◌, ◌||◌, List, [], ◌∷◌, Option, none, some, ltb, if◌then◌else◌,
}
use operation_systems_mirea.Base.Text.{Bytes}
use Octal.{Strtol, strtol_octal, is_octal_format}
use Symbolic.{Parsed, no_operator, bad_character, change, parse_symbolic, updated_mode}

-- What the system answers: `st_mode` of a file, or none where `stat` fails; and whether `chmod`
-- of a file to a mode succeeds.
pub record Kernel : Type 0 where
  pub stat : Bytes → Option ℕ
  pub chmod_works : Bytes → ℕ → Bool

-- What the program writes to stderr.
pub data Message : Type 0 where
  usage : Message
  invalid_octal : Bytes → Message
  invalid_operator : Bytes → Message
  invalid_character : ℕ → Bytes → Message
  perror : Bytes → Message

-- The end of a run: the exit status, the message, and the mode that `chmod` gave the file.
pub record Outcome : Type 0 where
  pub status : ℕ
  pub message : Option Message
  pub changed : Option ℕ

abbrev pub failed : Message → Outcome
failed m = record { status = 1; message = some m; changed = none }

-- `chmod(target_filename, mode)`, with the exit where it fails.
abbrev pub apply_mode : Kernel → Bytes → ℕ → Outcome
apply_mode k file mode =
    if k.chmod_works file mode
    then record { status = 0; message = none; changed = some mode }
    else failed (perror file)

abbrev pub is_nil : Bytes → Bool
is_nil [] = true
is_nil (c ∷ s) = false

unfoldable pub process_octal_permissions : Kernel → Bytes → Bytes → Outcome
process_octal_permissions k text file =
    let r = strtol_octal text in
    if not (is_nil r.rest) || r.negative && ltb 0 r.magnitude || ltb 0o7777 r.magnitude
    then failed (invalid_octal text)
    else apply_mode k file r.magnitude

abbrev pub apply_parsed : Kernel → Bytes → Bytes → ℕ → Parsed → Outcome
apply_parsed k text file mode no_operator = failed (invalid_operator text)
apply_parsed k text file mode (bad_character c) = failed (invalid_character c text)
apply_parsed k text file mode (change categories op permissions) =
    apply_mode k file (updated_mode op categories permissions mode)

unfoldable pub process_symbolic_permissions : Kernel → Bytes → Bytes → Outcome
process_symbolic_permissions k text file = elim (k.stat file) [
  | none ↦ failed (perror file)
  | some mode ↦ apply_parsed k text file mode (parse_symbolic text)
]

-- `argv` without the program's name.
unfoldable pub main : Kernel → List Bytes → Outcome
unfolding process_octal_permissions process_symbolic_permissions
main k (text ∷ file ∷ []) =
    if is_octal_format text
    then process_octal_permissions k text file
    else process_symbolic_permissions k text file
main k _ = failed usage
