-- ===== src/Chmod/Bits.antt =====
-- The categories and the permissions as numbers of a few bits, and the bits of the new mode.
use operation_systems_mirea.Base.{
  ==_iff, &&-right, &&-left, ltb→lt, for_both, for_both_sound, ltb, ◌==◌, ℕ, ◌+◌, ◌*◌, ◌^◌, ◌≤◌,
  ◌<◌, ◌≡◌, refl, Bool, true, ◌&&◌, bit_and, arith,
}
use operation_systems_mirea.Base.Bits.{
  bit, complement, bit_or-lt, bit_and-lt, bit-bit_or, bit-clear, bit-eq-zero, bit-lt,
}
use operation_systems_mirea.Chmod.Symbolic.{
  Operator, plus, minus, assign, applicable_bits, permission_mask, updated_mode,
}
use operation_systems_mirea.Chmod.Spec.{
  Class, owner, in_group, other, Perm, read, write, execute, to_bit, position, allowed,
}

-- Three truth values as the categories, and as the permissions.
abbrev pub category_bits : Bool → Bool → Bool → ℕ
category_bits a b c = to_bit a * 4 + to_bit b * 2 + to_bit c

abbrev pub permission_bits : Bool → Bool → Bool → ℕ
permission_bits r w x = to_bit r * 0o444 + to_bit w * 0o222 + to_bit x * 0o111

abbrev pub of_class : Bool → Bool → Bool → Class → Bool
of_class a b c owner = a
of_class a b c in_group = b
of_class a b c other = c

abbrev pub of_perm : Bool → Bool → Bool → Perm → Bool
of_perm r w x read = r
of_perm r w x write = w
of_perm r w x execute = x

-- A statement about three truth values, checked at all eight.
abbrev pub for_three : (Bool → Bool → Bool → Bool) → Bool
for_three p = for_both (λ a. for_both (λ b. for_both (λ c. p a b c)))

pub for_three_sound :
    (p : Bool → Bool → Bool → Bool) → for_three p ≡ true → (a b c : Bool) → p a b c ≡ true
for_three_sound p h a b c =
    for_both_sound (p a b)
      (for_both_sound (λ b'. for_both (p a b'))
        (for_both_sound (λ a'. for_both (λ b'. for_both (p a' b'))) h a) b)
      c

abbrev for_places : (Class → Perm → Bool) → Bool
for_places p =
    p owner read
    && p owner write
    && p owner execute
    && p in_group read
    && p in_group write
    && p in_group execute
    && p other read
    && p other write
    && p other execute

for_places_sound :
    (f : Class → Perm → Bool) → for_places f ≡ true → (cl : Class) (p : Perm) → f cl p ≡ true
for_places_sound f h owner read = ground arith
for_places_sound f h owner write = ground arith
for_places_sound f h owner execute = ground arith
for_places_sound f h in_group read = ground arith
for_places_sound f h in_group write = ground arith
for_places_sound f h in_group execute = ground arith
for_places_sound f h other read = ground arith
for_places_sound f h other write = ground arith
for_places_sound f h other execute = ground arith

applicable : Bool → Bool → Bool → Bool → Bool → Bool → ℕ
unfolding applicable_bits
applicable a b c r w x = applicable_bits (category_bits a b c) (permission_bits r w x)

abbrev has_applicable : Bool → Bool → Bool → Bool → Bool → Bool → Class → Perm → Bool
has_applicable a b c r w x cl p =
    bit (applicable a b c r w x) (position cl p) == to_bit (of_class a b c cl && of_perm r w x p)

abbrev applicable_fits : Bool → Bool → Bool → Bool → Bool → Bool → Bool
applicable_fits a b c r w x =
    ltb (applicable a b c r w x) 512 && for_places (has_applicable a b c r w x)

applicable-table : for_three (λ a b c. for_three (applicable_fits a b c)) ≡ true
unfolding applicable
applicable-table = refl

mask : Bool → Bool → Bool → ℕ
unfolding permission_mask
mask a b c = permission_mask (category_bits a b c)

abbrev has_mask : Bool → Bool → Bool → Class → Perm → Bool
has_mask a b c cl p = bit (mask a b c) (position cl p) == to_bit (of_class a b c cl)

abbrev mask_fits : Bool → Bool → Bool → Bool
mask_fits a b c = ltb (mask a b c) 512 && for_places (has_mask a b c)

mask-table : for_three mask_fits ≡ true
unfolding mask
mask-table = refl

module _ (a b c r w x : Bool) where
  applicable-checked : applicable_fits a b c r w x ≡ true
  applicable-checked =
      for_three_sound (applicable_fits a b c)
        (for_three_sound (λ a' b' c'. for_three (applicable_fits a' b' c')) applicable-table a b c)
        r w x

  applicable-lt : applicable a b c r w x < 512
  applicable-lt = ltb→lt _ _ (&&-left _ _ applicable-checked)

  bit-applicable :
      (cl : Class) (p : Perm)
      → bit (applicable a b c r w x) (position cl p) ≡ to_bit (of_class a b c cl && of_perm r w x p)
  bit-applicable cl p =
      (==_iff _ _).0
        (for_places_sound (has_applicable a b c r w x) (&&-right _ _ applicable-checked) cl p)

module _ (a b c : Bool) where
  mask-checked : mask_fits a b c ≡ true
  mask-checked = for_three_sound mask_fits mask-table a b c

  mask-lt : mask a b c < 512
  mask-lt = ltb→lt _ _ (&&-left _ _ mask-checked)

  bit-mask : (cl : Class) (p : Perm) → bit (mask a b c) (position cl p) ≡ to_bit (of_class a b c cl)
  bit-mask cl p =
      (==_iff _ _).0 (for_places_sound (has_mask a b c) (&&-right _ _ mask-checked) cl p)

abbrev pub has : ℕ → Class → Perm → Bool
has mode cl p = bit mode (position cl p) == 1

module _ (a b c r w x : Bool) (mode : ℕ) (word : mode < 2 ^ 32) where
  abbrev updated : Operator → ℕ
  updated op = updated_mode op (category_bits a b c) (permission_bits r w x) mode

  abbrev allowed_bits : ℕ
  allowed_bits = applicable a b c r w x

  allowed_word : allowed_bits < 2 ^ 32
  allowed_word = omega (arith, applicable-lt a b c r w x)

  mask_word : mask a b c < 2 ^ 32
  mask_word = omega (arith, mask-lt a b c)

  pub bit-updated_mode :
      (op : Operator) (cl : Class) (p : Perm)
      → bit (updated op) (position cl p)
        ≡ to_bit (allowed op (of_class a b c cl) (of_perm r w x p) (has mode cl p))
  unfolding updated_mode applicable mask
  bit-updated_mode plus cl p = ground (
    arith,
    bit-bit_or (position cl p) mode allowed_bits,
    bit-applicable a b c r w x cl p,
    bit-lt (position cl p) mode,
  )
  bit-updated_mode minus cl p = ground (
    arith,
    bit-clear 32 (position cl p) mode allowed_bits word allowed_word,
    bit-applicable a b c r w x cl p,
    bit-lt (position cl p) mode,
  )
  bit-updated_mode assign cl p = ground (
    arith,
    bit-bit_or (position cl p) (bit_and mode (complement 32 (mask a b c))) allowed_bits,
    bit-clear 32 (position cl p) mode (mask a b c) word mask_word,
    bit-applicable a b c r w x cl p,
    bit-mask a b c cl p,
    bit-lt (position cl p) mode,
  )

  -- The bits above the nine permissions are kept.
  pub bit-updated_mode_high : (op : Operator) (j : ℕ) → 9 ≤ j → bit (updated op) j ≡ bit mode j
  unfolding updated_mode applicable mask
  bit-updated_mode_high plus j h = omega (
    arith,
    bit-bit_or j mode allowed_bits,
    bit-eq-zero 9 j allowed_bits (applicable-lt a b c r w x) h,
  )
  bit-updated_mode_high minus j h = omega (
    arith,
    bit-clear 32 j mode allowed_bits word allowed_word,
    bit-eq-zero 9 j allowed_bits (applicable-lt a b c r w x) h,
    bit-lt j mode,
  )
  bit-updated_mode_high assign j h = omega (
    arith,
    bit-bit_or j (bit_and mode (complement 32 (mask a b c))) allowed_bits,
    bit-clear 32 j mode (mask a b c) word mask_word,
    bit-eq-zero 9 j allowed_bits (applicable-lt a b c r w x) h,
    bit-eq-zero 9 j (mask a b c) (mask-lt a b c) h,
    bit-lt j mode,
  )

  pub updated_mode-lt : (op : Operator) → updated op < 2 ^ 32
  unfolding updated_mode applicable mask
  updated_mode-lt plus = bit_or-lt 32 mode allowed_bits word allowed_word
  updated_mode-lt minus = bit_and-lt 32 mode (complement 32 allowed_bits) word
  updated_mode-lt assign =
      bit_or-lt 32 _ allowed_bits (bit_and-lt 32 mode (complement 32 (mask a b c)) word)
        allowed_word
