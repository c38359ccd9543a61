-- ===== src/Chmod/Change.antt =====
-- lab4/main.c: runs of `mychmod` with a symbolic mode.
use operation_systems_mirea.Base.{
  ℕ, zero, suc, ◌^◌, ◌≤◌, ◌<◌, ◌≡◌, refl, sym, ap, ◌∙◌, Bool, true, false, List, [], ◌∷◌, none,
  some, Option-cases, ◌⊎◌, ◌==◌, arith, inl, inr,
}
use operation_systems_mirea.Base.Bits.{bit, bit_ext}
use operation_systems_mirea.Base.Text.{Bytes}
use operation_systems_mirea.Chmod.{
  Kernel, apply_mode, apply_parsed, main, process_symbolic_permissions,
}
use operation_systems_mirea.Chmod.Octal.{is_octal_format}
use operation_systems_mirea.Chmod.Symbolic.{
  Operator, plus, minus, assign, Parsed, no_operator, bad_character, change, parse_symbolic,
  updated_mode,
}
use operation_systems_mirea.Chmod.Spec.{
  Who, user, group, others, everyone, Class, owner, in_group, other, Perm, read, write, execute,
  render, selects, grants, allowed, to_bit, position,
}
use operation_systems_mirea.Chmod.Bits.{
  category_bits, permission_bits, has, bit-updated_mode, bit-updated_mode_high, updated_mode-lt,
  of_class, of_perm,
}
use operation_systems_mirea.Chmod.Grammar.{parse_symbolic-render}
use operation_systems_mirea.Chmod.Accepted.{parse_symbolic-split, Rendered}

render-not_octal :
    (ws : List Who) (op : Operator) (ps : List Perm) → is_octal_format (render ws op ps) ≡ false
unfolding is_octal_format
render-not_octal [] plus ps = refl
render-not_octal [] minus ps = refl
render-not_octal [] assign ps = refl
render-not_octal (user ∷ ws) op ps = refl
render-not_octal (group ∷ ws) op ps = refl
render-not_octal (others ∷ ws) op ps = refl
render-not_octal (everyone ∷ ws) op ps = refl

-- The mode that a change makes of `mode`.
changed_mode : List Who → Operator → List Perm → ℕ → ℕ
changed_mode ws op ps mode =
    updated_mode op (category_bits (selects ws owner) (selects ws in_group) (selects ws other))
      (permission_bits (grants ps read) (grants ps write) (grants ps execute)) mode

main-render :
    (k : Kernel) (file : Bytes) (ws : List Who) (op : Operator) (ps : List Perm) (mode : ℕ)
    → k.stat file ≡ some mode
    → main k (render ws op ps ∷ file ∷ []) ≡ apply_mode k file (changed_mode ws op ps mode)
unfolding main changed_mode
main-render k file ws op ps mode h =
    rw (render-not_octal ws op ps)
      (rw (h, process_symbolic_permissions) (rw (parse_symbolic-render ws op ps)))

of_class-selects :
    (ws : List Who) (cl : Class)
    → of_class (selects ws owner) (selects ws in_group) (selects ws other) cl ≡ selects ws cl
of_class-selects ws owner = refl
of_class-selects ws in_group = refl
of_class-selects ws other = refl

of_perm-grants :
    (ps : List Perm) (p : Perm)
    → of_perm (grants ps read) (grants ps write) (grants ps execute) p ≡ grants ps p
of_perm-grants ps read = refl
of_perm-grants ps write = refl
of_perm-grants ps execute = refl

-- What a change asks of the new mode: each class has each permission as the change says, and the
-- bits above the nine permissions are kept.
abbrev pub Obeys : List Who → Operator → List Perm → ℕ → ℕ → Type 0
Obeys ws op ps mode new =
    ((cl : Class) (p : Perm)
      → bit new (position cl p) ≡ to_bit (allowed op (selects ws cl) (grants ps p) (has mode cl p)))
    × ((j : ℕ) → 9 ≤ j → bit new j ≡ bit mode j)

changed_mode-Obeys :
    (ws : List Who) (op : Operator) (ps : List Perm) (mode : ℕ)
    → mode < 2 ^ 32
    → Obeys ws op ps mode (changed_mode ws op ps mode)
unfolding changed_mode
changed_mode-Obeys ws op ps mode word = (
  λ cl p.
      rw (← of_class-selects ws cl, ← of_perm-grants ps p)
        (bit-updated_mode (selects ws owner) (selects ws in_group) (selects ws other)
          (grants ps read) (grants ps write) (grants ps execute) mode word op cl p),
  bit-updated_mode_high (selects ws owner) (selects ws in_group) (selects ws other) (grants ps read)
      (grants ps write) (grants ps execute) mode word op,
)

-- A change written as `[ugoa]*[+-=][rwx]*` succeeds where `stat` and `chmod` do: the file gets one
-- new mode, in which each of owner, group and others has each of r, w and x as the change says (a
-- change that names no users is for all), and every bit of the old mode above the nine is kept.
pub main_symbolic :
    (k : Kernel) (file : Bytes) (ws : List Who) (op : Operator) (ps : List Perm) (mode : ℕ)
    → k.stat file ≡ some mode
    → mode < 2 ^ 32
    → ((m : ℕ) → k.chmod_works file m ≡ true)
    → (new : ℕ) × (main k (render ws op ps ∷ file ∷ [])
        ≡ record { status = 0; message = none; changed = some new })
      × Obeys ws op ps mode new
main_symbolic k file ws op ps mode found word works = (
  changed_mode ws op ps mode,
  main-render k file ws op ps mode found ∙ rw (works (changed_mode ws op ps mode)),
  changed_mode-Obeys ws op ps mode word,
)

rejected_or_change :
    (k : Kernel) (text file : Bytes) (mode : ℕ) (r : Parsed)
    → parse_symbolic text ≡ r
    → (apply_parsed k text file mode r).status ≡ 0
    → Rendered text
rejected_or_change k text file mode no_operator e h = absurd (omega arith)
rejected_or_change k text file mode (bad_character c) e h = absurd (omega arith)
rejected_or_change k text file mode (change cats op perms) e h = parse_symbolic-split text e

-- A text with a byte that is no octal digit is accepted only if it is a change written as
-- `[ugoa]*[+-=][rwx]*`: any other ends the run with a status other than 0.
pub main-Rendered :
    (k : Kernel) (text file : Bytes)
    → is_octal_format text ≡ false
    → (main k (text ∷ file ∷ [])).status ≡ 0
    → Rendered text
unfolding main
main-Rendered k text file h s = elim (Option-cases (k.stat file)) [
  | inl e ↦ absurd (ground arith)
  | inr (mode, e) ↦
      rejected_or_change k text file mode (parse_symbolic text) refl
        (rw (h, e, process_symbolic_permissions) at s)
]

place_of : (j : ℕ) → ((cl : Class) × (p : Perm) × (position cl p ≡ j)) ⊎ (9 ≤ j)
place_of zero = inl (other, execute, refl)
place_of (suc zero) = inl (other, write, refl)
place_of (suc (suc zero)) = inl (other, read, refl)
place_of (suc (suc (suc zero))) = inl (in_group, execute, refl)
place_of (suc (suc (suc (suc zero)))) = inl (in_group, write, refl)
place_of (suc (suc (suc (suc (suc zero))))) = inl (in_group, read, refl)
place_of (suc (suc (suc (suc (suc (suc zero)))))) = inl (owner, execute, refl)
place_of (suc (suc (suc (suc (suc (suc (suc zero))))))) = inl (owner, write, refl)
place_of (suc (suc (suc (suc (suc (suc (suc (suc zero)))))))) = inl (owner, read, refl)
place_of (suc (suc (suc (suc (suc (suc (suc (suc (suc j))))))))) = inr (omega arith)

allowed_twice :
    (op : Operator) (s g old : Bool)
    → allowed op s g (to_bit (allowed op s g old) == 1) ≡ allowed op s g old
allowed_twice plus s g old = ground arith
allowed_twice minus s g old = ground arith
allowed_twice assign s g old = ground arith

Obeys-twice :
    (ws : List Who) (op : Operator) (ps : List Perm) (mode new again : ℕ)
    → Obeys ws op ps mode new
    → Obeys ws op ps new again
    → again ≡ new
Obeys-twice ws op ps mode new again h k = bit_ext again new λ j. same j (place_of j)
  where
    same :
        (j : ℕ)
        → ((cl : Class) × (p : Perm) × (position cl p ≡ j)) ⊎ (9 ≤ j)
        → bit again j ≡ bit new j
    same j (inl (cl, p, e)) = rw (← e) (
        k.0 cl p
        ∙ ap (λ b. to_bit (allowed op (selects ws cl) (grants ps p) (b == 1))) (h.0 cl p)
        ∙ ap to_bit (allowed_twice op (selects ws cl) (grants ps p) (has mode cl p))
        ∙ sym (h.0 cl p))
    same j (inr l) = k.1 j l

apply_mode-changed :
    (k : Kernel) (file : Bytes) (mode : ℕ) {new : ℕ}
    → (apply_mode k file mode).changed ≡ some new
    → new ≡ mode
apply_mode-changed k file mode h = ground arith

changed_mode-lt :
    (ws : List Who) (op : Operator) (ps : List Perm) (mode : ℕ)
    → mode < 2 ^ 32
    → changed_mode ws op ps mode < 2 ^ 32
unfolding changed_mode
changed_mode-lt ws op ps mode word =
    updated_mode-lt (selects ws owner) (selects ws in_group) (selects ws other) (grants ps read)
      (grants ps write) (grants ps execute) mode word op

-- A change written as `[ugoa]*[+-=][rwx]*` that gave the file a new mode, run again when the file
-- has that mode, asks `chmod` for the same mode again.
pub main_symbolic_twice :
    (k again : Kernel) (file : Bytes) (ws : List Who) (op : Operator) (ps : List Perm)
    (mode new : ℕ)
    → k.stat file ≡ some mode
    → mode < 2 ^ 32
    → (main k (render ws op ps ∷ file ∷ [])).changed ≡ some new
    → again.stat file ≡ some new
    → main again (render ws op ps ∷ file ∷ []) ≡ apply_mode again file new
main_symbolic_twice k again file ws op ps mode new found word first second =
    let e : new ≡ changed_mode ws op ps mode =
      apply_mode-changed k file _ (rw (main-render k file ws op ps mode found) at first) in
    main-render again file ws op ps new second
    ∙ ap (apply_mode again file) (
        rw e (
          Obeys-twice ws op ps mode (changed_mode ws op ps mode) _
            (changed_mode-Obeys ws op ps mode word)
            (changed_mode-Obeys ws op ps _ (changed_mode-lt ws op ps mode word))))
