-- ===== src/Grep/Laws.antt =====
-- lab1/demgrep.c: which lines `mygrep` finds, and how it counts them.
use operation_systems_mirea.Base.CString.{NoNul, c_string_lem}
use operation_systems_mirea.Base.{
  All, ℕ, ◌+◌, ◌-◌, ◌^◌, ◌<◌, ◌≤◌, ◌≡◌, ◌↔◌, refl, ap, sym, List, [], ◌∷◌, ◌++◌, ◌==◌, ==_iff,
  if◌then◌else◌, length, arith, Bool, Bool-cases, inl, inr, true, false, &&-left, &&-right,
}
use mathlib.Core.Path.{ap₂}
use operation_systems_mirea.Base.Text.{Bytes, codes}
use operation_systems_mirea.Base.Decimal.{decimal}
use operation_systems_mirea.Base.Int.{int_text_below, next_int_below}
use operation_systems_mirea.Lines.{read_lines, buffer_size}
use operation_systems_mirea.Lines.Laws.{split_lines, Fits, read_lines-split_lines}
use operation_systems_mirea.Cat.Laws.{NoNul-read_lines}
use operation_systems_mirea.Grep.{
  starts_with, contains, match_input, match_file, show_match, search_file, Env, main, file_header,
  file_footer,
}

-- The pattern stands somewhere in the text.
abbrev pub Within : Bytes → Bytes → Type 0
Within pattern text = (before : Bytes) × (after : Bytes) × (text ≡ before ++ (pattern ++ after))

starts_with-append : (p after : Bytes) → starts_with p (p ++ after) ≡ true
starts_with-append [] after = refl
starts_with-append (c ∷ p) after = ground (arith, starts_with-append p after)

starts_with_split : (p s : Bytes) → starts_with p s ≡ true → (after : Bytes) × (s ≡ p ++ after)
starts_with_split [] s h = (s, refl)
starts_with_split (c ∷ p) [] h = absurd (ground arith)
starts_with_split (c ∷ p) (d ∷ s) h =
    let (after, e) = starts_with_split p s (&&-right (c == d) (starts_with p s) h) in
    let same : d ≡ c = sym ((==_iff c d).0 (&&-left (c == d) (starts_with p s) h)) in
    (after, ap₂ ◌∷◌ same e)

contains-Within_to : (p s : Bytes) → contains p s ≡ true → Within p s
unfolding contains
contains-Within_to p [] h = let (after, e) = starts_with_split p [] h in ([], after, e)
contains-Within_to p (c ∷ s) h = elim (Bool-cases (starts_with p (c ∷ s))) [
  | inl e ↦ let (after, t) = starts_with_split p (c ∷ s) e in ([], after, t)
  | inr e ↦
      let (before, after, t) = contains-Within_to p s (rw e at h) in
      (c ∷ before, after, ap (λ r. c ∷ r) t)
]

contains-append : (p before after : Bytes) → contains p (before ++ (p ++ after)) ≡ true
unfolding contains
contains-append [] [] [] = refl
contains-append [] [] (c ∷ after) = refl
contains-append (c ∷ p) [] after = ground (arith, starts_with-append (c ∷ p) after)
contains-append p (c ∷ before) after = ground (arith, contains-append p before after)

-- A line is found exactly when the pattern stands in it: the test is right in both directions.
pub contains-Within : (p s : Bytes) → (contains p s ≡ true) ↔ Within p s
contains-Within p s =
    (contains-Within_to p s, λ (before, after, e). rw e (contains-append p before after))

-- The lines in which the pattern stands, with their numbers.
pub matches : Bytes → ℕ → List Bytes → List (ℕ × Bytes)
matches pattern n [] = []
matches pattern n (l ∷ ls) =
    let rest = matches pattern (n + 1) ls in if contains pattern l then (n, l) ∷ rest else rest

-- A line that was found, with its number, and the file's name if there are several files.
abbrev pub found_line : Bool → Bytes → ℕ → Bytes → Bytes
found_line several path n line =
    (if several then path ++ codes ":" else codes "Line ") ++ decimal n ++ codes ": " ++ line

abbrev pub show_all : Bool → Bytes → List (ℕ × Bytes) → Bytes
show_all several path [] = []
show_all several path ((n, l) ∷ found) = found_line several path n l ++ show_all several path found

abbrev pub show_numbered : ℕ → List (ℕ × Bytes) → Bytes
show_numbered k [] = []
show_numbered k ((n, l) ∷ found) =
    codes "Match " ++ decimal k ++ codes ": " ++ l ++ show_numbered (k + 1) found

show_match-found_line :
    (several : Bool) (path : Bytes) (n : ℕ) (line : Bytes)
    → n < 2 ^ 31
    → show_match several path n line ≡ found_line several path n line
show_match-found_line true path n line h = rw (int_text_below n h) refl
show_match-found_line false path n line h = rw (int_text_below n h) refl

match_file-matches :
    (pattern : Bytes) (several : Bool) (path : Bytes) (n k : ℕ) (ls : List Bytes)
    → All NoNul ls
    → n + length ls < 2 ^ 31
    → k ≤ n
    → match_file pattern several path n k ls
      ≡ (show_all several path (matches pattern n ls), k + length (matches pattern n ls))
unfolding match_file matches
match_file-matches pattern several path n k [] h few less = ap (λ m. ([], m)) (omega arith)
match_file-matches pattern several path n k (l ∷ ls) h few less =
    rw (c_string_lem l h.0) (elim (Bool-cases (contains pattern l)) [
      | inl e ↦ rw e (
          rw
            (
              next_int_below n (omega arith),
              next_int_below k (omega arith),
              show_match-found_line several path n l (omega arith),
              match_file-matches pattern several path (n + 1) (k + 1) ls h.1 (omega arith)
                  (omega arith),
            )
            (ap
              (λ m. (
                found_line several path n l ++ show_all several path (matches pattern (n + 1) ls),
                m,
              ))
              (omega arith)))
      | inr e ↦ rw e (
          rw (
            next_int_below n (omega arith),
            match_file-matches pattern several path (n + 1) k ls h.1 (omega arith) (omega arith),
          ))
    ])

match_input-matches :
    (pattern : Bytes) (n k : ℕ) (ls : List Bytes)
    → All NoNul ls
    → k + length ls < 2 ^ 31
    → match_input pattern k ls ≡ show_numbered (k + 1) (matches pattern n ls)
unfolding match_input matches
match_input-matches pattern n k [] h few = refl
match_input-matches pattern n k (l ∷ ls) h few =
    rw (c_string_lem l h.0) (elim (Bool-cases (contains pattern l)) [
      | inl e ↦ rw e (
          rw (
            next_int_below k (omega arith),
            int_text_below (k + 1) (omega arith),
            match_input-matches pattern (n + 1) (k + 1) ls h.1 (omega arith),
          ))
      | inr e ↦ rw e (match_input-matches pattern (n + 1) k ls h.1 (omega arith))
    ])

-- A file without NUL bytes whose lines fit the buffer and are fewer than 2 ^ 31 - 1 is reported by
-- its lines: between the header and the footer stand the lines that hold the pattern, in order, each with its number from 1, and
-- the footer gives how many they are.
pub search_file-matches :
    (pattern : Bytes) (several : Bool) (path contents : Bytes)
    → NoNul contents
    → Fits (buffer_size - 1) (split_lines contents)
    → length (split_lines contents) + 1 < 2 ^ 31
    → let found = matches pattern 1 (split_lines contents) in
      search_file pattern several path contents
      ≡ file_header path ++ show_all several path found ++ file_footer path (length found)
unfolding search_file
search_file-matches pattern several path contents h f few =
    rw
      (match_file-matches pattern several path 1 0 (read_lines contents)
        (NoNul-read_lines contents h)
        (omega (arith, few, ap length (read_lines-split_lines contents f))) (omega arith))
      (rw (read_lines-split_lines contents f) (
        ap
          (λ k.
            file_header path
            ++ show_all several path (matches pattern 1 (split_lines contents))
            ++ file_footer path k)
          (omega arith)))

-- Standard input without NUL bytes whose lines fit the buffer and are fewer than 2 ^ 31 is reported by the lines that hold
-- the pattern, in order, numbered among themselves from 1; the status is 0.
pub main_input :
    (env : Env) (pattern : Bytes)
    → NoNul env.standard_input
    → Fits (buffer_size - 1) (split_lines env.standard_input)
    → length (split_lines env.standard_input) < 2 ^ 31
    → main env (pattern ∷ []) ≡ record {
      status = 0;
      out = show_numbered 1 (matches pattern 1 (split_lines env.standard_input));
      errors = [];
    }
unfolding main
main_input env pattern h f few =
    rw
      (match_input-matches pattern 1 0 (read_lines env.standard_input)
        (NoNul-read_lines env.standard_input h)
        (omega (arith, few, ap length (read_lines-split_lines env.standard_input f))))
      (rw (read_lines-split_lines env.standard_input f))
