-- ===== src/Chmod/Ending.antt =====
-- lab4/main.c: how a run of `mychmod` ends, on every branch.
use operation_systems_mirea.Base.{
  ℕ, ◌≡◌, refl, Bool, true, false, List, [], ◌∷◌, none, some, Option-cases, ◌⊎◌, if◌then◌else◌,
  Bool-cases, inl, inr,
}
use operation_systems_mirea.Base.Text.{Bytes}
use operation_systems_mirea.Chmod.{
  Kernel, Message, Outcome, apply_mode, apply_parsed, main, process_octal_permissions,
  process_symbolic_permissions,
}
use operation_systems_mirea.Chmod.Octal.{is_octal_format}
use operation_systems_mirea.Chmod.Symbolic.{
  Parsed, no_operator, bad_character, change, parse_symbolic,
}

abbrev pub IsClean : Outcome → Type 0
IsClean o =
    ((o.status ≡ 0) × (o.message ≡ none) × ((m : ℕ) × (o.changed ≡ some m)))
    ⊎ ((o.status ≡ 1) × ((m : Message) × (o.message ≡ some m)) × (o.changed ≡ none))

apply_mode-IsClean : (k : Kernel) (file : Bytes) (mode : ℕ) → IsClean (apply_mode k file mode)
apply_mode-IsClean k file mode = elim (Bool-cases (k.chmod_works file mode)) [
  | inl e ↦ rw e (inl (refl, refl, (mode, refl)))
  | inr e ↦ rw e (inr (refl, (_, refl), refl))
]

apply_parsed-IsClean :
    (k : Kernel) (text file : Bytes) (mode : ℕ) (r : Parsed)
    → IsClean (apply_parsed k text file mode r)
apply_parsed-IsClean k text file mode no_operator = inr (refl, (_, refl), refl)
apply_parsed-IsClean k text file mode (bad_character c) = inr (refl, (_, refl), refl)
apply_parsed-IsClean k text file mode (change cats op perms) = apply_mode-IsClean k file _

if-IsClean : (b : Bool) (o p : Outcome) → IsClean o → IsClean p → IsClean (if b then o else p)
if-IsClean true o p h k = h
if-IsClean false o p h k = k

process_octal-IsClean :
    (k : Kernel) (text file : Bytes) → IsClean (process_octal_permissions k text file)
unfolding process_octal_permissions
process_octal-IsClean k text file =
    if-IsClean _ _ _ (inr (refl, (_, refl), refl)) (apply_mode-IsClean k file _)

process_symbolic-IsClean :
    (k : Kernel) (text file : Bytes) → IsClean (process_symbolic_permissions k text file)
unfolding process_symbolic_permissions
process_symbolic-IsClean k text file = elim (Option-cases (k.stat file)) [
  | inl e ↦ rw (e, process_symbolic_permissions) (inr (refl, (_, refl), refl))
  | inr (mode, e) ↦
      rw (e, process_symbolic_permissions)
        (apply_parsed-IsClean k text file mode (parse_symbolic text))
]

-- Every run ends in one of two ways: with status 0, no message and a new mode of the file, or with
-- status 1, one message and the file untouched.
pub main-IsClean : (k : Kernel) (args : List Bytes) → IsClean (main k args)
unfolding main
main-IsClean k [] = inr (refl, (_, refl), refl)
main-IsClean k (text ∷ []) = inr (refl, (_, refl), refl)
main-IsClean k (text ∷ file ∷ []) = elim (Bool-cases (is_octal_format text)) [
  | inl e ↦ rw e (process_octal-IsClean k text file)
  | inr e ↦ rw e (process_symbolic-IsClean k text file)
]
main-IsClean k (text ∷ file ∷ more ∷ args) = inr (refl, (_, refl), refl)
