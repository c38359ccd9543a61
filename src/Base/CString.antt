-- ===== src/Base/CString.antt =====
-- C strings that stand in buffers: the text up to the first NUL.
use Prim.Native.Nat.{ℕ, zero, suc, ◌+◌, ◌/◌, ◌%◌, ◌<◌}
use mathlib.Core.Path.{◌≡◌, refl}
use mathlib.Core.Logic.{◌≢◌, inl, inr}
use mathlib.Core.List.{[], ◌∷◌, ◌++◌}
use native.Mathlib.Omega.{arith}
use operation_systems_mirea.Base.Tests.{◌==◌, ltb, if◌then◌else◌, Bool-cases}
use operation_systems_mirea.Base.Lists.{All, length, take}
use operation_systems_mirea.Base.Text.{Bytes}
use operation_systems_mirea.Base.Decimal.{decimal, decimal_digits}

-- The bytes of a buffer before its first NUL.
abbrev pub c_string : Bytes → Bytes
c_string [] = []
c_string (c ∷ s) = let rest = c_string s in if c == 0 then [] else c ∷ rest

abbrev pub NoNul : Bytes → Type 0
NoNul = All (λ c. c ≢ 0)

pub c_string_lem : (s : Bytes) → NoNul s → c_string s ≡ s
c_string_lem [] h = refl
c_string_lem (c ∷ s) h = ground (arith, c_string_lem s h.1)

pub NoNul-append : (a b : Bytes) → NoNul a → NoNul b → NoNul (a ++ b)
NoNul-append [] b h k = k
NoNul-append (c ∷ a) b h k = (h.0, NoNul-append a b h.1 k)

pub NoNul-take : (n : ℕ) (a : Bytes) → NoNul a → NoNul (take n a)
NoNul-take zero a h = tt
NoNul-take (suc n) [] h = tt
NoNul-take (suc n) (c ∷ a) h = (h.0, NoNul-take n a h.1)

pub NoNul-c_string : (a : Bytes) → NoNul (c_string a)
NoNul-c_string [] = tt
NoNul-c_string (c ∷ a) = ground (arith, NoNul-c_string a)

NoNul-decimal_digits : (k n : ℕ) (rest : Bytes) → NoNul rest → NoNul (decimal_digits k n rest)
NoNul-decimal_digits zero n rest h = h
NoNul-decimal_digits (suc k) n rest h = elim (Bool-cases (ltb n 10)) [
  | inl e ↦ rw e (ground arith, h)
  | inr e ↦ rw e (NoNul-decimal_digits k (n / 10) ((b'0' + n % 10) ∷ rest) (ground arith, h))
]

pub NoNul-decimal : (n : ℕ) → NoNul (decimal n)
unfolding decimal
NoNul-decimal n = NoNul-decimal_digits (n + 1) n [] tt

pub c_string-take :
    (n : ℕ) (m : Bytes) → NoNul m → length m < n → c_string (take n (m ++ 0 ∷ [])) ≡ m
c_string-take zero m h l = absurd (ground arith)
c_string-take (suc n) [] h l = refl
c_string-take (suc n) (c ∷ m) h l = ground (arith, c_string-take n m h.1 (ground arith))

pub NoNul-parts :
    (a b c d e f : Bytes)
    → NoNul a
    → NoNul b
    → NoNul c
    → NoNul d
    → NoNul e
    → NoNul f
    → NoNul (a ++ b ++ c ++ d ++ e ++ f)
NoNul-parts a b c d e f h i j k l m =
    NoNul-append (a ++ b ++ c ++ d ++ e) f
      (NoNul-append (a ++ b ++ c ++ d) e
        (NoNul-append (a ++ b ++ c) d (NoNul-append (a ++ b) c (NoNul-append a b h i) j) k) l)
      m
