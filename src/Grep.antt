-- ===== src/Grep.antt =====
-- lab1/demgrep.c: `mygrep`. Files are the parameter `Env`: what each path opens, and standard input.
pub mod Laws
mod Tests
use operation_systems_mirea.Base.CString.{c_string}
use operation_systems_mirea.Base.{
  ℕ, ◌+◌, Bool, true, false, ◌&&◌, ◌||◌, List, [], ◌∷◌, ◌++◌, Option, none, some, ltb, ◌==◌,
  if◌then◌else◌, length,
}
use operation_systems_mirea.Base.Text.{Bytes, codes}
use operation_systems_mirea.Base.Int.{next_int, int_text}
use operation_systems_mirea.Lines.{read_lines, newline}

abbrev pub starts_with : Bytes → Bytes → Bool
starts_with [] s = true
starts_with (p ∷ ps) [] = false
starts_with (p ∷ ps) (c ∷ s) = p == c && starts_with ps s

-- `strstr(text, pattern) != NULL`
unfoldable pub contains : Bytes → Bytes → Bool
contains pattern [] = starts_with pattern []
contains pattern (c ∷ s) = starts_with pattern (c ∷ s) || contains pattern s

-- The loop over standard input: what is printed from a count of matches on.
unfoldable pub match_input : Bytes → ℕ → List Bytes → Bytes
unfolding contains
match_input pattern match_count [] = []
match_input pattern match_count (l ∷ ls) =
    let line = c_string l in
    let found = contains pattern line in
    let rest = match_input pattern (if found then next_int match_count else match_count) ls in
    if found
    then codes "Match " ++ int_text (next_int match_count) ++ codes ": " ++ line ++ rest
    else rest

-- How a matching line of a file is printed: with the file's name if there are several files.
abbrev pub show_match : Bool → Bytes → ℕ → Bytes → Bytes
show_match several path line_number line =
    if several
    then path ++ codes ":" ++ int_text line_number ++ codes ": " ++ line
    else codes "Line " ++ int_text line_number ++ codes ": " ++ line

-- The loop over a file: what is printed, and the count of matches at its end.
unfoldable pub match_file : Bytes → Bool → Bytes → ℕ → ℕ → List Bytes → Bytes × ℕ
unfolding contains
match_file pattern several path line_number file_match_count [] = ([], file_match_count)
match_file pattern several path line_number file_match_count (l ∷ ls) =
    let line = c_string l in
    let found = contains pattern line in
    let (out, count) =
      match_file pattern several path (next_int line_number)
        (if found then next_int file_match_count else file_match_count) ls in
    if found then (show_match several path line_number line ++ out, count) else (out, count)

pub record Env : Type 0 where
  pub standard_input : Bytes
  pub open_file : Bytes → Option Bytes

pub data Message : Type 0 where
  usage : Message
  could_not_open : Bytes → Message

pub record Outcome : Type 0 where
  pub status : ℕ
  pub out : Bytes
  pub errors : List Message

abbrev pub file_header : Bytes → Bytes
file_header path =
    codes "Searching in: " ++ path ++ newline ∷ codes "----------------------------" ++ newline ∷ []

abbrev pub file_footer : Bytes → ℕ → Bytes
file_footer path count =
    codes "Matches in " ++ path ++ codes ": " ++ int_text count ++ newline ∷ newline ∷ []

unfoldable pub search_file : Bytes → Bool → Bytes → Bytes → Bytes
unfolding match_file read_lines
search_file pattern several path contents =
    let (out, count) = match_file pattern several path 1 0 (read_lines contents) in
    file_header path ++ out ++ file_footer path count

abbrev pub after_file : Bytes → Bool → Bytes → Option Bytes → Outcome → Outcome
after_file pattern several path none rest = record rest {
  errors = could_not_open path ∷ rest.errors;
}
after_file pattern several path (some contents) rest = record rest {
  out = search_file pattern several path contents ++ rest.out;
}

unfoldable pub search_files : Env → Bytes → Bool → List Bytes → Outcome
unfolding search_file
search_files env pattern several [] = record { status = 0; out = []; errors = [] }
search_files env pattern several (path ∷ paths) =
    after_file pattern several path (env.open_file path) (search_files env pattern several paths)

-- `argv` without the program's name.
unfoldable pub main : Env → List Bytes → Outcome
unfolding match_input search_files read_lines
main env [] = record { status = 1; out = []; errors = usage ∷ [] }
main env (pattern ∷ []) = record {
  status = 0;
  out = match_input pattern 0 (read_lines env.standard_input);
  errors = [];
}
main env (pattern ∷ path ∷ paths) =
    search_files env pattern (ltb 1 (length (path ∷ paths))) (path ∷ paths)
