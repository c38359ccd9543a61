-- ===== src/Ls/Mode.antt =====
-- lab2/demls.c: the nine letters of the long format say what the mode says.
use operation_systems_mirea.Base.{
  ℕ, ◌^◌, ◌≡◌, [], ◌∷◌, arith, ◌∙◌, Bool-cases, inl, inr, ==_iff, ◌==◌, if◌then◌else◌, bit_and,
}
use operation_systems_mirea.Base.Bits.{bit, bit_and-pow, bit-lt}
use native.Mathlib.Nat.{one-le-pow}
use operation_systems_mirea.Ls.Format.{permission_string, has_bits}

-- The letter where the mode has the digit at a position, a dash where not.
abbrev pub letter_if : ℕ → ℕ → ℕ → ℕ
letter_if mode position letter = if bit mode position == 1 then letter else b'-'

mask_letter :
    (mode k letter : ℕ) → (if has_bits mode (2 ^ k) then letter else b'-') ≡ letter_if mode k letter
mask_letter mode k letter = elim (Bool-cases (bit mode k == 1)) [
  | inl e ↦
      let set_bit : bit mode k ≡ 1 = (==_iff _ _).0 e in
      let there : bit_and mode (2 ^ k) ≡ 2 ^ k = bit_and-pow k mode ∙ rw set_bit (omega arith) in
      rw there (ground (arith, one-le-pow k 2, e))
  | inr e ↦
      let clear_bit : bit mode k ≡ 0 = ground (arith, bit-lt k mode) in
      let gone : bit_and mode (2 ^ k) ≡ 0 = bit_and-pow k mode ∙ rw clear_bit (omega arith) in
      rw (gone, e)
]

-- The nine letters of a mode are, from the left, r, w and x of the owner, of the group and of the
-- others, each where the mode has its bit and a dash where not.
pub permission_string_lem :
    (mode : ℕ)
    → permission_string mode
      ≡ letter_if mode 8 b'r'
        ∷ letter_if mode 7 b'w'
        ∷ letter_if mode 6 b'x'
        ∷ letter_if mode 5 b'r'
        ∷ letter_if mode 4 b'w'
        ∷ letter_if mode 3 b'x'
        ∷ letter_if mode 2 b'r'
        ∷ letter_if mode 1 b'w'
        ∷ letter_if mode 0 b'x'
        ∷ []
unfolding permission_string
permission_string_lem mode = simp (
  mask_letter mode 8 b'r',
  mask_letter mode 7 b'w',
  mask_letter mode 6 b'x',
  mask_letter mode 5 b'r',
  mask_letter mode 4 b'w',
  mask_letter mode 3 b'x',
  mask_letter mode 2 b'r',
  mask_letter mode 1 b'w',
  mask_letter mode 0 b'x',
)
