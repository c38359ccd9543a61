-- ===== src/Base/Bits.antt =====
-- The binary digits of `&`, `|` and of a 32-bit complement, at every position.
use Prim.Native.Nat.{
  ℕ, zero, suc, ◌+◌, ◌-◌, ◌*◌, ◌/◌, ◌%◌, ◌^◌, ◌≤◌, ◌<◌, min, max, bit_and, bit_or, digits,
  bit_and-bitwise, bit_or-bitwise,
}
use mathlib.Core.Path.{◌≡◌, refl, ap, ◌∙◌}
use native.Mathlib.Decide.{dec_le, dec_lt}
use native.Mathlib.Nat.{pow-suc, one-le-pow}
use native.Mathlib.Omega.{arith}

-- The digit of `a` at position `k`.
abbrev pub bit : ℕ → ℕ → ℕ
bit a zero = a % 2
bit a (suc k) = bit (a / 2) k

-- One more round of the library's digit recursion changes nothing once the number fits.
round-digits :
    (z : ℕ → ℕ) (f : ℕ → ℕ → ℕ) (n a b : ℕ) → a ≤ n → digits z f (suc n) a b ≡ digits z f n a b
round-digits z f zero zero b h = refl
round-digits z f zero (suc a) b h = absurd (omega arith)
round-digits z f (suc n) zero b h = refl
round-digits z f (suc n) (suc a) b h = rw (round-digits z f n (suc a / 2) (b / 2) (omega arith))

digits_settled :
    (z : ℕ → ℕ) (f : ℕ → ℕ → ℕ) (n a b : ℕ) → a ≤ n → digits z f n a b ≡ digits z f a a b
digits_settled z f zero a b h = let e : a ≡ 0 = omega arith in rw e
digits_settled z f (suc n) a b h = elim (dec_le a n) [
  | yes p ↦ round-digits z f n a b p ∙ digits_settled z f n a b p
  | no p ↦ let e : a ≡ suc n = omega arith in rw e
]

-- The lowest digit of the answer, and the answer on the other digits.
pub bit_or_low : (x y : ℕ) → max (x % 2) (y % 2) + 2 * bit_or (x / 2) (y / 2) ≡ bit_or x y
bit_or_low zero y = simp bit_or-bitwise (omega arith)
bit_or_low (suc x) y =
    let fit = digits_settled (λ d. d) max x (suc x / 2) (y / 2) (omega arith) in
    simp bit_or-bitwise (omega (arith, fit))

pub bit_and_low : (x y : ℕ) → min (x % 2) (y % 2) + 2 * bit_and (x / 2) (y / 2) ≡ bit_and x y
bit_and_low zero y = simp bit_and-bitwise (omega arith)
bit_and_low (suc x) y =
    let fit = digits_settled (λ _. 0) min x (suc x / 2) (y / 2) (omega arith) in
    simp bit_and-bitwise (omega (arith, fit))

half-bit_or : (a b : ℕ) → bit_or a b / 2 ≡ bit_or (a / 2) (b / 2)
half-bit_or a b = omega (arith, bit_or_low a b)

half-bit_and : (a b : ℕ) → bit_and a b / 2 ≡ bit_and (a / 2) (b / 2)
half-bit_and a b = omega (arith, bit_and_low a b)

pub bit-bit_or : (k a b : ℕ) → bit (bit_or a b) k ≡ max (bit a k) (bit b k)
bit-bit_or zero a b = omega (arith, bit_or_low a b)
bit-bit_or (suc k) a b = rw (half-bit_or a b) (bit-bit_or k (a / 2) (b / 2))

pub bit-bit_and : (k a b : ℕ) → bit (bit_and a b) k ≡ min (bit a k) (bit b k)
bit-bit_and zero a b = omega (arith, bit_and_low a b)
bit-bit_and (suc k) a b = rw (half-bit_and a b) (bit-bit_and k (a / 2) (b / 2))

pub bit-lt : (k a : ℕ) → bit a k < 2
bit-lt zero a = omega arith
bit-lt (suc k) a = bit-lt k (a / 2)

pub bit-zero : (k : ℕ) → bit 0 k ≡ 0
bit-zero zero = refl
bit-zero (suc k) = bit-zero k

-- Numbers with the same digits are equal.
bit_ext_fuel : (n a b : ℕ) → a ≤ n → b ≤ n → ((k : ℕ) → bit a k ≡ bit b k) → a ≡ b
bit_ext_fuel zero a b p q h = omega arith
bit_ext_fuel (suc n) a b p q h =
    omega (arith, h 0, bit_ext_fuel n (a / 2) (b / 2) (omega arith) (omega arith) (λ k. h (suc k)))

pub bit_ext : (a b : ℕ) → ((k : ℕ) → bit a k ≡ bit b k) → a ≡ b
bit_ext a b h = bit_ext_fuel (a + b) a b (omega arith) (omega arith) h

-- `~a` of a `w`-bit word
abbrev pub complement : ℕ → ℕ → ℕ
complement w a = 2 ^ w - 1 - a

pub bit-eq-zero : (w k a : ℕ) → a < 2 ^ w → w ≤ k → bit a k ≡ 0
bit-eq-zero zero k a h l = let e : a ≡ 0 = omega arith in rw e (bit-zero k)
bit-eq-zero (suc w) zero a h l = absurd (omega arith)
bit-eq-zero (suc w) (suc k) a h l =
    bit-eq-zero w k (a / 2) (omega (arith, pow-suc 2 w)) (omega arith)

half-complement : (w a : ℕ) → complement (suc w) a / 2 ≡ complement w (a / 2)
half-complement w a = omega (arith, pow-suc 2 w, one-le-pow w 2)

pub bit-complement : (w k a : ℕ) → a < 2 ^ w → k < w → bit (complement w a) k + bit a k ≡ 1
bit-complement zero k a h l = absurd (omega arith)
bit-complement (suc w) zero a h l = omega (arith, pow-suc 2 w)
bit-complement (suc w) (suc k) a h l =
    rw (half-complement w a) (bit-complement w k (a / 2) (omega (arith, pow-suc 2 w)) (omega arith))

-- `m & ~a` clears the digits of `a` and keeps the others.
pub bit-clear :
    (w k m a : ℕ)
    → m < 2 ^ w
    → a < 2 ^ w
    → bit (bit_and m (complement w a)) k ≡ min (bit m k) (1 - bit a k)
bit-clear w k m a hm ha = elim (dec_lt k w) [
  | yes p ↦ omega (arith, bit-bit_and k m (complement w a), bit-complement w k a ha p)
  | no p ↦ omega (arith, bit-bit_and k m (complement w a), bit-eq-zero w k m hm (omega arith))
]

pub bit_or-lt : (w a b : ℕ) → a < 2 ^ w → b < 2 ^ w → bit_or a b < 2 ^ w
bit_or-lt zero a b h l =
    let e : a ≡ 0 = omega arith in let f : b ≡ 0 = omega arith in rw (e, f) (omega arith)
bit_or-lt (suc w) a b h l = omega (
  arith,
  pow-suc 2 w,
  bit_or_low a b,
  bit_or-lt w (a / 2) (b / 2) (omega (arith, pow-suc 2 w)) (omega (arith, pow-suc 2 w)),
)

pub bit_and-lt : (w a b : ℕ) → a < 2 ^ w → bit_and a b < 2 ^ w
bit_and-lt zero a b h =
    let e : a ≡ 0 = omega arith in rw e (omega (arith, bit_and_low 0 b, bit_and-bitwise 0 b))
bit_and-lt (suc w) a b h =
    omega (
      arith,
      pow-suc 2 w,
      bit_and_low a b,
      bit_and-lt w (a / 2) (b / 2) (omega (arith, pow-suc 2 w)),
    )

bit_and-none : (a : ℕ) → bit_and a 0 ≡ 0
bit_and-none a = bit_ext (bit_and a 0) 0 (λ k. omega (arith, bit-bit_and k a 0, bit-zero k))

double-half : (k : ℕ) → 2 ^ k * 2 / 2 ≡ 2 ^ k
double-half k = omega arith

-- A mask of one digit shows that digit.
pub bit_and-pow : (k a : ℕ) → bit_and a (2 ^ k) ≡ bit a k * 2 ^ k
bit_and-pow zero a = omega (arith, bit_and_low a 1, bit_and-none (a / 2))
bit_and-pow (suc k) a = rw (pow-suc 2 k) (
    omega (
      arith,
      bit_and_low a (2 ^ k * 2),
      bit_and-pow k (a / 2),
      ap (λ m. bit_and (a / 2) m) (double-half k),
    ))
