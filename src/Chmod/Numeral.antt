-- ===== src/Chmod/Numeral.antt =====
-- lab4/main.c: runs of `mychmod` with an octal mode.
use operation_systems_mirea.Base.{
  ℕ, ◌+◌, ◌-◌, ◌*◌, ◌^◌, ◌≡◌, refl, ap, ◌∙◌, true, false, [], ◌∷◌, ltb, min, &&-left, &&-right,
  if◌then◌else◌, arith, length, Bool-cases, inl, inr,
}
use native.Mathlib.Nat.{pow-suc}
use operation_systems_mirea.Base.Text.{Bytes}
use operation_systems_mirea.Chmod.{Kernel, Outcome, failed, apply_mode, invalid_octal, main}
use operation_systems_mirea.Chmod.Octal.{
  is_octal_format, is_octal_digit, octal_digits, strtol_octal, skip_space, take_sign,
}

-- The number that a text of octal digits denotes, by the weight of each place.
abbrev pub octal_value : Bytes → ℕ
octal_value [] = 0
octal_value (c ∷ s) = (c - b'0') * 8 ^ length s + octal_value s

shift_value : (n d p v : ℕ) → (n * 8 + d) * p + v ≡ n * (p * 8) + (d * p + v)
shift_value n d p v = omega arith

octal_digits-octal_value :
    (s : Bytes) (n : ℕ)
    → is_octal_format s ≡ true
    → octal_digits n s ≡ (n * 8 ^ length s + octal_value s, [])
unfolding is_octal_format octal_digits
octal_digits-octal_value [] n h = ap (λ v. (v, [])) (omega arith)
octal_digits-octal_value (c ∷ s) n h = rw (&&-left (is_octal_digit c) (is_octal_format s) h) (
    octal_digits-octal_value s (n * 8 + (c - b'0')) (&&-right _ (is_octal_format s) h)
    ∙ ap (λ v. (v, []))
        (rw (pow-suc 8 (length s)) (shift_value n (c - b'0') (8 ^ length s) (octal_value s))))

no_prefix :
    (c : ℕ) (s : Bytes) → is_octal_digit c ≡ true → take_sign (skip_space (c ∷ s)) ≡ (false, c ∷ s)
unfolding skip_space take_sign
no_prefix c s h = ground arith

strtol_octal-octal_value :
    (s : Bytes)
    → is_octal_format s ≡ true
    → strtol_octal s
      ≡ record { negative = false; magnitude = min (octal_value s) (2 ^ 63 - 1); rest = [] }
unfolding is_octal_format strtol_octal
strtol_octal-octal_value [] h = refl
strtol_octal-octal_value (c ∷ s) h =
    let d = &&-left (is_octal_digit c) (is_octal_format s) h in
    rw (no_prefix c s d, octal_digits-octal_value (c ∷ s) 0 h, d)
      (ap (λ v. record { negative = false; magnitude = min v (2 ^ 63 - 1); rest = [] })
        (omega arith))

-- The clamp of `strtol` lies above every mode.
clamped :
    (v : ℕ) (refused : Outcome) (go : ℕ → Outcome)
    → (if ltb 0o7777 (min v (2 ^ 63 - 1)) then refused else go (min v (2 ^ 63 - 1)))
      ≡ (if ltb 0o7777 v then refused else go v)
clamped v refused go = elim (Bool-cases (ltb 0o7777 v)) [
  | inl big ↦ ground arith
  | inr small ↦ let e : min v (2 ^ 63 - 1) ≡ v = ground arith in rw e
]

-- A text of octal digits, the empty text included, is taken for a number. At most 07777, it becomes
-- the mode of the file, and the run fails only if `chmod` does; a larger one is refused and the
-- file keeps its mode.
pub main_octal :
    (k : Kernel) (text file : Bytes)
    → is_octal_format text ≡ true
    → main k (text ∷ file ∷ []) ≡ (
        if ltb 0o7777 (octal_value text)
        then failed (invalid_octal text)
        else apply_mode k file (octal_value text))
unfolding main
main_octal k text file h = rw h (
    rw (strtol_octal-octal_value text h)
      (clamped (octal_value text) (failed (invalid_octal text)) (apply_mode k file)))
