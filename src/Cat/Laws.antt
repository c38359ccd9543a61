-- ===== src/Cat/Laws.antt =====
-- lab1/demcat.c: what `mycat` prints, by the lines of its input.
use operation_systems_mirea.Base.CString.{NoNul, c_string_lem}
use operation_systems_mirea.Base.{
  All, ℕ, ◌+◌, ◌-◌, ◌^◌, ◌<◌, length, ◌≡◌, refl, ap, sym, ◌∙◌, subst, List, [], ◌∷◌, ◌++◌, ◌==◌,
  if◌then◌else◌, arith, Bool-cases, inl, inr, true, false, ◌&&◌,
}
use mathlib.Core.Path.{ap₂}
use operation_systems_mirea.Base.Text.{Bytes, str_eq}
use operation_systems_mirea.Base.Decimal.{decimal, pad_left}
use operation_systems_mirea.Base.Int.{int_text_below, next_int_below}
use operation_systems_mirea.Lines.{read_lines, buffer_size, newline}
use operation_systems_mirea.Lines.Laws.{
  concat, concat-read_lines, read_lines-split_lines, split_lines, Fits,
}
use operation_systems_mirea.Cat.{
  Options, no_options, marked, handle_text_line, print_lines, print_file, tab, parse_options,
  add_letters, add_letter,
}

NoNul-halves : (a b : Bytes) → NoNul (a ++ b) → NoNul a × NoNul b
NoNul-halves [] b h = (tt, h)
NoNul-halves (c ∷ a) b h = let (x, y) = NoNul-halves a b h.1 in ((h.0, x), y)

NoNul-concat : (ls : List Bytes) → NoNul (concat ls) → All NoNul ls
NoNul-concat [] h = tt
NoNul-concat (l ∷ ls) h = let (x, y) = NoNul-halves l (concat ls) h in (x, NoNul-concat ls y)

pub NoNul-read_lines : (s : Bytes) → NoNul s → All NoNul (read_lines s)
NoNul-read_lines s h = NoNul-concat (read_lines s) (subst NoNul (sym (concat-read_lines s)) h)

print_lines-concat :
    (n : ℕ) (ls : List Bytes) → All NoNul ls → print_lines no_options n ls ≡ concat ls
unfolding print_lines
print_lines-concat n [] h = refl
print_lines-concat n (l ∷ ls) h =
    rw (c_string_lem l h.0) (ap (λ r. l ++ r) (print_lines-concat n ls h.1))

-- With no option a file without NUL bytes is printed as it is, however long its lines are.
pub print_file_plain : (s : Bytes) → NoNul s → print_file no_options s ≡ s
unfolding print_file
print_file_plain s h =
    print_lines-concat 1 (read_lines s) (NoNul-read_lines s h) ∙ concat-read_lines s

-- The line with a dollar sign before its newline, or at its end if it has none.
abbrev pub mark_end : Bytes → Bytes
mark_end [] = b'$' ∷ []
mark_end (c ∷ []) = if c == newline then b'$' ∷ newline ∷ [] else c ∷ b'$' ∷ []
mark_end (c ∷ d ∷ s) = c ∷ mark_end (d ∷ s)

abbrev pub shown : Options → Bytes → Bytes
shown o l = if o.end_marker then mark_end l else l

-- The lines that are printed: blank ones go with `-b`.
abbrev pub kept : Options → List Bytes → List Bytes
kept o [] = []
kept o (l ∷ ls) =
    let rest = kept o ls in if o.blank_skip && str_eq l (newline ∷ []) then rest else l ∷ rest

-- Each line on its own, with its number if numbers are wanted.
abbrev pub numbered : Options → ℕ → List Bytes → Bytes
numbered o n [] = []
numbered o n (l ∷ ls) =
    (if o.number_display then pad_left 6 (decimal n) ++ tab ∷ shown o l else shown o l)
    ++ numbered o (n + 1) ls

marked-mark_end : (l : Bytes) → marked true l ≡ mark_end l
marked-mark_end [] = refl
marked-mark_end (c ∷ []) = ground arith
marked-mark_end (c ∷ d ∷ s) = ground (arith, marked-mark_end (d ∷ s))

marked-shown : (o : Options) (l : Bytes) → marked o.end_marker l ≡ shown o l
marked-shown o l = elim (Bool-cases o.end_marker) [
  | inl e ↦ rw e (marked-mark_end l)
  | inr e ↦ rw e
]

numbered-plain :
    (o : Options) (n m : ℕ) (ls : List Bytes)
    → o.number_display ≡ false
    → numbered o n ls ≡ numbered o m ls
numbered-plain o n m [] h = refl
numbered-plain o n m (l ∷ ls) h =
    rw h (ap (λ r. shown o l ++ r) (numbered-plain o (n + 1) (m + 1) ls h))

print_lines-numbered :
    (o : Options) (n : ℕ) (ls : List Bytes)
    → All NoNul ls
    → n + length ls < 2 ^ 31
    → print_lines o n ls ≡ numbered o n (kept o ls)
unfolding print_lines
print_lines-numbered o n [] h few = refl
print_lines-numbered o n (l ∷ ls) h few =
    rw (c_string_lem l h.0) (elim (Bool-cases (o.blank_skip && str_eq l (newline ∷ []))) [
      | inl blank ↦ rw (blank, handle_text_line) (print_lines-numbered o n ls h.1 (omega arith))
      | inr text ↦ elim (Bool-cases o.number_display) [
        | inl on ↦
            rw
              (
                text,
                on,
                int_text_below n (omega arith),
                next_int_below n (omega arith),
                handle_text_line,
              )
              (ap₂ (λ a b. (pad_left 6 (decimal n) ++ tab ∷ a) ++ b) (marked-shown o l)
                (print_lines-numbered o (n + 1) ls h.1 (omega arith)))
        | inr off ↦
            rw (text, off, handle_text_line)
              (ap₂ ◌++◌ (marked-shown o l) (
                print_lines-numbered o n ls h.1 (omega arith)
                ∙ numbered-plain o n (n + 1) (kept o ls) off))
      ]
    ])

-- With any options, a file without NUL bytes whose lines fit the buffer and are fewer than
-- 2 ^ 31 - 1 is printed line by line: `-b` drops the blank lines, numbers count the lines that are
-- printed, from 1, and `-E` puts a dollar sign before the newline of each, and at the end of a last
-- line that has none.
pub print_file-numbered :
    (o : Options) (s : Bytes)
    → NoNul s
    → Fits (buffer_size - 1) (split_lines s)
    → length (split_lines s) + 1 < 2 ^ 31
    → print_file o s ≡ numbered o 1 (kept o (split_lines s))
unfolding print_file
print_file-numbered o s h f few =
    print_lines-numbered o 1 (read_lines s) (NoNul-read_lines s h)
      (omega (arith, few, ap length (read_lines-split_lines s f)))
    ∙ ap (λ ls. numbered o 1 (kept o ls)) (read_lines-split_lines s f)

add_letters-append :
    (o : Options) (a b : Bytes) → add_letters o (a ++ b) ≡ add_letters (add_letters o a) b
add_letters-append o [] b = refl
add_letters-append o (c ∷ a) b = add_letters-append (add_letter o c) a b

-- Letters behind one dash mean what they mean behind two: `-ab` is `-a -b`.
pub parse_options-append :
    (o : Options) (a b : Bytes) (args : List Bytes)
    → parse_options o ((b'-' ∷ a ++ b) ∷ args) ≡ parse_options o ((b'-' ∷ a) ∷ (b'-' ∷ b) ∷ args)
unfolding parse_options
parse_options-append o a b args = ap (λ p. parse_options p args) (add_letters-append o a b)
