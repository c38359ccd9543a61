-- ===== src/Grep/Tests.antt =====
-- lab1/demgrep.c: the theorems on `mygrep` at concrete texts, and tests.
use operation_systems_mirea.Base.{◌≡◌, ◌↔◌, ◌++◌, refl, true, false, [], ◌∷◌, none, arith, length}
use operation_systems_mirea.Base.Text.{Bytes, codes}
use operation_systems_mirea.Base.Decimal.{decimal}
use operation_systems_mirea.Base.Int.{int_text, next_int}
use operation_systems_mirea.Lines.{newline}
use operation_systems_mirea.Lines.Laws.{split_lines}
use operation_systems_mirea.Grep.{contains, search_file, Env, main, file_header, file_footer}
use operation_systems_mirea.Grep.Laws.{
  contains-Within, Within, search_file-matches, matches, show_all,
}

-- Three lines, of which the first and the last hold "ab".
abbrev cabin : Bytes
cabin = codes "cab" ++ newline ∷ codes "bc" ++ newline ∷ codes "abba" ++ newline ∷ []

contains-Within_example :
    (contains (codes "ab") (codes "cabin") ≡ true) ↔ Within (codes "ab") (codes "cabin")
contains-Within_example = contains-Within (codes "ab") (codes "cabin")

search_file-matches_example :
    search_file (codes "ab") false (codes "f") cabin
    ≡ file_header (codes "f")
      ++ show_all false (codes "f") (matches (codes "ab") 1 (split_lines cabin))
      ++ file_footer (codes "f") (length (matches (codes "ab") 1 (split_lines cabin)))
unfolding split_lines
search_file-matches_example =
    search_file-matches (codes "ab") false (codes "f") cabin (omega arith) (omega arith)
      (omega arith)

abbrev typed : Env
typed = record { standard_input = cabin; open_file = λ path. none }

typed_text :
    (main typed (codes "ab" ∷ [])).out
    ≡ codes "Match 1: cab" ++ newline ∷ codes "Match 2: abba" ++ newline ∷ []
unfolding main decimal int_text next_int
typed_text = refl
