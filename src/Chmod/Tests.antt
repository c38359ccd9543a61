-- ===== src/Chmod/Tests.antt =====
-- lab4/main.c: the theorems on `mychmod` at concrete runs, and tests.
use operation_systems_mirea.Base.{ℕ, ◌≡◌, refl, [], ◌∷◌, none, some, arith, true}
use operation_systems_mirea.Base.Text.{codes}
use operation_systems_mirea.Chmod.{
  Kernel, Outcome, main, failed, invalid_octal, invalid_character, invalid_operator,
}
use operation_systems_mirea.Chmod.Octal.{is_octal_format}
use operation_systems_mirea.Chmod.Symbolic.{parse_symbolic, updated_mode, minus}
use operation_systems_mirea.Chmod.Spec.{user, group, write, execute}
use operation_systems_mirea.Chmod.Numeral.{main_octal}
use operation_systems_mirea.Chmod.Change.{main_symbolic, main-Rendered, Obeys}
use operation_systems_mirea.Chmod.Accepted.{Rendered}

-- A regular file with mode 0644, which its owner may change.
abbrev willing : Kernel
willing = record { stat = λ file. some 0o100644; chmod_works = λ file mode. true }

abbrev changed_to : ℕ → Outcome
changed_to mode = record { status = 0; message = none; changed = some mode }

add_execute : main willing (codes "+x" ∷ codes "f" ∷ []) ≡ changed_to 0o100755
unfolding main is_octal_format parse_symbolic updated_mode
add_execute = refl

drop_read : main willing (codes "u-r" ∷ codes "f" ∷ []) ≡ changed_to 0o100244
unfolding main is_octal_format parse_symbolic updated_mode
drop_read = refl

set_group : main willing (codes "g=wx" ∷ codes "f" ∷ []) ≡ changed_to 0o100634
unfolding main is_octal_format parse_symbolic updated_mode
set_group = refl

bad_letter :
    main willing (codes "u+q" ∷ codes "f" ∷ []) ≡ failed (invalid_character b'q' (codes "u+q"))
unfolding main is_octal_format parse_symbolic updated_mode
bad_letter = refl

no_sign : main willing (codes "ux" ∷ codes "f" ∷ []) ≡ failed (invalid_operator (codes "ux"))
unfolding main is_octal_format parse_symbolic updated_mode
no_sign = refl

-- The empty text is a number, and takes every permission away.
main_octal_example : main willing ([] ∷ codes "f" ∷ []) ≡ changed_to 0
unfolding main is_octal_format parse_symbolic updated_mode
main_octal_example = main_octal willing [] (codes "f") refl

too_large : main willing (codes "10000" ∷ codes "f" ∷ []) ≡ failed (invalid_octal (codes "10000"))
unfolding main is_octal_format parse_symbolic updated_mode
too_large = main_octal willing (codes "10000") (codes "f") refl

main_symbolic_example :
    (new : ℕ) × (main willing (codes "ug-wx" ∷ codes "f" ∷ []) ≡ changed_to new)
    × Obeys (user ∷ group ∷ []) minus (write ∷ execute ∷ []) 0o100644 new
main_symbolic_example =
    main_symbolic willing (codes "f") (user ∷ group ∷ []) minus (write ∷ execute ∷ []) 0o100644 refl
      (omega arith) (λ m. refl)

main-Rendered_example : Rendered (codes "g+w")
unfolding main is_octal_format parse_symbolic updated_mode
main-Rendered_example = main-Rendered willing (codes "g+w") (codes "f") refl refl
