-- ===== src/Chmod/Octal.antt =====
-- lab4/main.c, the octal form of a mode: `strtol` in base 8, and the loop of `main` that looks for
-- a byte that is no octal digit.
use operation_systems_mirea.Base.{
  ℕ, ◌+◌, ◌-◌, ◌*◌, ◌^◌, min, Bool, true, false, ◌&&◌, ◌||◌, [], ◌∷◌, leb, ◌==◌, if◌then◌else◌,
}
use operation_systems_mirea.Base.Text.{Bytes}

-- The value of `strtol`, as a sign and a magnitude, and the text that its end pointer names.
pub record Strtol : Type 0 where
  pub negative : Bool
  pub magnitude : ℕ
  pub rest : Bytes

abbrev pub is_space : ℕ → Bool
is_space c = c == b' ' || leb 9 c && leb c 13

abbrev pub is_octal_digit : ℕ → Bool
is_octal_digit c = leb b'0' c && leb c b'7'

unfoldable pub skip_space : Bytes → Bytes
skip_space [] = []
skip_space (c ∷ s) = if is_space c then skip_space s else c ∷ s

unfoldable pub take_sign : Bytes → Bool × Bytes
take_sign [] = (false, [])
take_sign (c ∷ s) =
    if c == b'-' then (true, s) else if c == b'+' then (false, s) else (false, c ∷ s)

-- The digits at the front, on top of the value `n`, and what follows them.
unfoldable pub octal_digits : ℕ → Bytes → ℕ × Bytes
octal_digits n [] = (n, [])
octal_digits n (c ∷ s) =
    let more = octal_digits (n * 8 + (c - b'0')) s in if is_octal_digit c then more else (n, c ∷ s)

-- LONG_MIN and LONG_MAX where the value leaves the range.
abbrev pub clamp_long : Bool → ℕ → ℕ
clamp_long negative n = if negative then min n (2 ^ 63) else min n (2 ^ 63 - 1)

abbrev pub starts_with_digit : Bytes → Bool
starts_with_digit [] = false
starts_with_digit (c ∷ s) = is_octal_digit c

-- With no digit to read the value is 0 and the end pointer is the start of the text.
unfoldable pub strtol_octal : Bytes → Strtol
unfolding skip_space take_sign octal_digits
strtol_octal text =
    let (negative, body) = take_sign (skip_space text) in
    let (n, rest) = octal_digits 0 body in
    if starts_with_digit body
    then record { negative = negative; magnitude = clamp_long negative n; rest = rest }
    else record { negative = false; magnitude = 0; rest = text }

unfoldable pub is_octal_format : Bytes → Bool
is_octal_format [] = true
is_octal_format (c ∷ s) = is_octal_digit c && is_octal_format s
