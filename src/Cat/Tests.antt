-- ===== src/Cat/Tests.antt =====
-- lab1/demcat.c: the theorems on `mycat` at concrete files, and tests.
use operation_systems_mirea.Base.{
  ◌≡◌, ◌++◌, refl, true, false, [], ◌∷◌, none, some, arith, replicate, if◌then◌else◌,
}
use operation_systems_mirea.Base.Text.{Bytes, codes, str_eq}
use operation_systems_mirea.Base.Decimal.{decimal, pad_left}
use operation_systems_mirea.Base.Int.{int_text, next_int}
use operation_systems_mirea.Lines.{newline}
use operation_systems_mirea.Lines.Laws.{split_lines}
use operation_systems_mirea.Cat.{Options, no_options, print_file, Env, main, unable_to_access, tab}
use operation_systems_mirea.Cat.Laws.{print_file_plain, print_file-numbered, numbered, kept}

-- "a", a blank line, and "b" with no newline
abbrev three_lines : Bytes
three_lines = b'a' ∷ newline ∷ newline ∷ b'b' ∷ []

abbrev numbers_and_ends : Options
numbers_and_ends = record { number_display = true; blank_skip = true; end_marker = true }

print_file_plain_example : print_file no_options three_lines ≡ three_lines
print_file_plain_example = print_file_plain three_lines (omega arith)

print_file-numbered_example :
    print_file numbers_and_ends three_lines
    ≡ numbered numbers_and_ends 1 (kept numbers_and_ends (split_lines three_lines))
unfolding split_lines
print_file-numbered_example =
    print_file-numbered numbers_and_ends three_lines (omega arith) (omega arith) (omega arith)

numbered_text :
    print_file numbers_and_ends three_lines
    ≡ codes "     1" ++ tab ∷ codes "a$" ++ newline ∷ codes "     2" ++ tab ∷ codes "b$"
unfolding print_file decimal pad_left int_text next_int
numbered_text = refl

abbrev one_file : Env
one_file = record {
  standard_input = [];
  is_terminal = false;
  open_file = λ path. if str_eq path (codes "f") then some three_lines else none;
}

missing_file :
    main one_file (codes "g" ∷ codes "f" ∷ [])
    ≡ record { out = three_lines; errors = unable_to_access (codes "g") ∷ [] }
unfolding main
missing_file = refl

-- A line longer than the buffer is taken for two: the end marker comes in its middle too.
long_line :
    print_file (record no_options { end_marker = true }) (replicate 4100 b'x')
    ≡ replicate 4095 b'x' ++ b'$' ∷ replicate 5 b'x' ++ b'$' ∷ []
unfolding print_file
long_line = refl
