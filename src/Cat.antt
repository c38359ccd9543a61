-- ===== src/Cat.antt =====
-- lab1/demcat.c: `mycat`. Files are the parameter `Env`: what each path opens, standard input, and
-- whether that is a terminal.
pub mod Laws
mod Tests
use operation_systems_mirea.Base.CString.{c_string}
use operation_systems_mirea.Base.{
  ℕ, ◌+◌, Bool, true, false, not, ◌&&◌, ◌||◌, List, [], ◌∷◌, ◌++◌, Option, none, some, ltb, ◌==◌,
  if◌then◌else◌, length,
}
use operation_systems_mirea.Base.Text.{Bytes, str_eq}
use operation_systems_mirea.Base.Decimal.{pad_left}
use operation_systems_mirea.Base.Int.{next_int, int_text}
use operation_systems_mirea.Lines.{read_lines, newline}

pub record Options : Type 0 where
  pub number_display : Bool
  pub blank_skip : Bool
  pub end_marker : Bool

abbrev pub no_options : Options
no_options = record { number_display = false; blank_skip = false; end_marker = false }

abbrev pub ends_with_newline : Bytes → Bool
ends_with_newline [] = false
ends_with_newline (c ∷ []) = c == newline
ends_with_newline (c ∷ d ∷ s) = ends_with_newline (d ∷ s)

abbrev pub drop_last : Bytes → Bytes
drop_last [] = []
drop_last (c ∷ []) = []
drop_last (c ∷ d ∷ s) = c ∷ drop_last (d ∷ s)

-- The text with its end marked, or as it is.
abbrev pub marked : Bool → Bytes → Bytes
marked mark text =
    if mark && ltb 0 (length text) && ends_with_newline text
    then drop_last text ++ b'$' ∷ newline ∷ []
    else if mark
    then text ++ b'$' ∷ []
    else text

abbrev pub tab : ℕ
tab = 9

-- What is printed, and the counter after it.
unfoldable pub handle_text_line : Options → ℕ → Bytes → Bytes × ℕ
handle_text_line o counter text =
    if o.blank_skip && str_eq text (newline ∷ [])
    then ([], counter)
    else if o.number_display
    then (pad_left 6 (int_text counter) ++ tab ∷ marked o.end_marker text, next_int counter)
    else (marked o.end_marker text, counter)

-- The loop over the texts in the buffer.
unfoldable pub print_lines : Options → ℕ → List Bytes → Bytes
unfolding handle_text_line
print_lines o counter [] = []
print_lines o counter (l ∷ ls) =
    let (out, next) = handle_text_line o counter (c_string l) in out ++ print_lines o next ls

-- One open file, numbered from 1.
unfoldable pub print_file : Options → Bytes → Bytes
unfolding print_lines read_lines
print_file o contents = print_lines o 1 (read_lines contents)

unfoldable pub add_letter : Options → ℕ → Options
add_letter o c =
    if c == b'n'
    then record o { number_display = true }
    else if c == b'b'
    then record o { blank_skip = true; number_display = true }
    else if c == b'E'
    then record o { end_marker = true }
    else o

abbrev pub add_letters : Options → Bytes → Options
add_letters o [] = o
add_letters o (c ∷ s) = add_letters (add_letter o c) s

-- The arguments that begin with a dash, and the files after them.
unfoldable pub parse_options : Options → List Bytes → Options × List Bytes
unfolding add_letter
parse_options o [] = (o, [])
parse_options o ([] ∷ args) = (o, [] ∷ args)
parse_options o ((c ∷ letters) ∷ args) =
    let rest = parse_options (add_letters o letters) args in
    if c == b'-' then rest else (o, (c ∷ letters) ∷ args)

pub record Env : Type 0 where
  pub standard_input : Bytes
  pub is_terminal : Bool
  pub open_file : Bytes → Option Bytes

pub data Message : Type 0 where
  reading_standard_input : Message
  unable_to_access : Bytes → Message

pub record Outcome : Type 0 where
  pub out : Bytes
  pub errors : List Message

abbrev pub after_file : Options → Bytes → Option Bytes → Outcome → Outcome
unfolding print_file
after_file o path none rest = record rest { errors = unable_to_access path ∷ rest.errors }
after_file o path (some contents) rest = record rest { out = print_file o contents ++ rest.out }

unfoldable pub print_files : Env → Options → List Bytes → Outcome
unfolding print_file
print_files env o [] = record { out = []; errors = [] }
print_files env o (path ∷ paths) = after_file o path (env.open_file path) (print_files env o paths)

-- `main` always returns 0.
unfoldable pub main : Env → List Bytes → Outcome
unfolding print_file print_files parse_options
main env args =
    let (o, paths) = parse_options no_options args in
    elim paths [
      | [] ↦ record {
        out = print_file o env.standard_input;
        errors = if env.is_terminal then reading_standard_input ∷ [] else [];
      }
      | path ∷ more ↦ print_files env o (path ∷ more)
    ]
