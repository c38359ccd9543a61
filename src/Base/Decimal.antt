-- ===== src/Base/Decimal.antt =====
-- `%d` of a number that is not negative, and padding to a field width.
use Prim.Native.Nat.{ℕ, zero, suc, ◌+◌, ◌-◌, ◌*◌, ◌/◌, ◌%◌, ◌<◌, ◌≤◌}
use mathlib.Core.Logic.{inl, inr}
use native.Mathlib.Omega.{arith}
use mathlib.Core.List.{[], ◌∷◌, ◌++◌}
use operation_systems_mirea.Base.Tests.{ltb, if◌then◌else◌, Bool-cases}
use operation_systems_mirea.Base.Lists.{length, replicate}
use operation_systems_mirea.Base.Text.{Bytes}

-- The digits of `n` in front of `rest`; `n + 1` rounds are more than it has digits.
abbrev pub decimal_digits : ℕ → ℕ → Bytes → Bytes
decimal_digits zero n rest = rest
decimal_digits (suc k) n rest =
    let more = decimal_digits k (n / 10) ((b'0' + n % 10) ∷ rest) in
    if ltb n 10 then (b'0' + n) ∷ rest else more

unfoldable pub decimal : ℕ → Bytes
decimal n = decimal_digits (n + 1) n []

-- `%6d`: blanks on the left up to the width.
unfoldable pub pad_left : ℕ → Bytes → Bytes
pad_left width s = replicate (width - length s) b' ' ++ s

-- `%-8s`: blanks on the right.
unfoldable pub pad_right : ℕ → Bytes → Bytes
pad_right width s = s ++ replicate (width - length s) b' '

-- Powers of ten.
abbrev pub tens : ℕ → ℕ
tens zero = 1
tens (suc d) = 10 * tens d

length-decimal_digits :
    (d k n : ℕ) (rest : Bytes)
    → n < tens (suc d)
    → length (decimal_digits k n rest) ≤ suc d + length rest
length-decimal_digits d zero n rest h = omega arith
length-decimal_digits zero (suc k) n rest h = elim (Bool-cases (ltb n 10)) [
  | inl e ↦ rw e (omega arith)
  | inr e ↦ ground arith
]
length-decimal_digits (suc d) (suc k) n rest h = elim (Bool-cases (ltb n 10)) [
  | inl e ↦ rw e (omega arith)
  | inr e ↦ rw e (
      omega (arith, length-decimal_digits d k (n / 10) ((b'0' + n % 10) ∷ rest) (omega (arith, h))))
]

-- A number below a power of ten has as many digits at most.
pub length-decimal : (d n : ℕ) → n < tens (suc d) → length (decimal n) ≤ suc d
unfolding decimal
length-decimal d n h = omega (arith, length-decimal_digits d (n + 1) n [] h)
