-- ===== src/Chmod/Symbolic.antt =====
-- lab4/main.c, the symbolic form of a mode: `[ugoa]*[+-=][rwx]*`, as the two loops read it, and the
-- new mode that `process_symbolic_permissions` computes from it.
use operation_systems_mirea.Base.{
  ℕ, [], ◌∷◌, Option, none, some, ◌==◌, if◌then◌else◌, bit_and, bit_or,
}
use operation_systems_mirea.Base.Bits.{complement}
use operation_systems_mirea.Base.Text.{Bytes}

pub data Operator : Type 0 where
  plus minus assign : Operator

abbrev pub category : ℕ → Option ℕ
category c =
    if c == b'u'
    then some 0b100
    else if c == b'g'
    then some 0b010
    else if c == b'o'
    then some 0b001
    else if c == b'a'
    then some 0b111
    else none

abbrev pub permission : ℕ → Option ℕ
permission c =
    if c == b'r'
    then some 0o444
    else if c == b'w'
    then some 0o222
    else if c == b'x'
    then some 0o111
    else none

abbrev pub operator : ℕ → Option Operator
operator c =
    if c == b'+'
    then some plus
    else if c == b'-'
    then some minus
    else if c == b'='
    then some assign
    else none

-- The first loop: it stops at the first byte outside "ugoa".
unfoldable pub scan_categories : ℕ → Bytes → ℕ × Bytes
scan_categories categories [] = (categories, [])
scan_categories categories (c ∷ s) = elim (category c) [
  | none ↦ (categories, c ∷ s)
  | some b ↦ scan_categories (bit_or categories b) s
]

abbrev pub default_categories : ℕ → ℕ
default_categories categories = if categories == 0 then 0b111 else categories

-- The second loop: it reads to the end of the text, or meets a byte outside "rwx".
pub data Scan : Type 0 where
  bad : ℕ → Scan
  bits : ℕ → Scan

unfoldable pub scan_permissions : ℕ → Bytes → Scan
scan_permissions permissions [] = bits permissions
scan_permissions permissions (c ∷ s) = elim (permission c) [
  | none ↦ bad c
  | some b ↦ scan_permissions (bit_or permissions b) s
]

pub data Parsed : Type 0 where
  no_operator : Parsed
  bad_character : ℕ → Parsed
  change : ℕ → Operator → ℕ → Parsed

abbrev pub parse_permissions : ℕ → Operator → Scan → Parsed
parse_permissions categories op (bad c) = bad_character c
parse_permissions categories op (bits permissions) = change categories op permissions

abbrev pub parse_operator : ℕ → Bytes → Parsed
unfolding scan_permissions
parse_operator categories [] = no_operator
parse_operator categories (c ∷ s) = elim (operator c) [
  | none ↦ no_operator
  | some op ↦ parse_permissions categories op (scan_permissions 0 s)
]

unfoldable pub parse_symbolic : Bytes → Parsed
unfolding scan_categories scan_permissions
parse_symbolic text =
    let (categories, rest) = scan_categories 0 text in
    parse_operator (default_categories categories) rest

-- `if (categories & flag) acc |= value;`
abbrev pub select : ℕ → ℕ → ℕ → ℕ → ℕ
select categories flag value acc = if bit_and categories flag == 0 then acc else bit_or acc value

unfoldable pub permission_mask : ℕ → ℕ
permission_mask categories =
    select categories 0b001 0o007 (select categories 0b010 0o070 (select categories 0b100 0o700 0))

unfoldable pub applicable_bits : ℕ → ℕ → ℕ
applicable_bits categories permissions = select categories 0b001 (bit_and permissions 0o007) (
    select categories 0b010 (bit_and permissions 0o070)
      (select categories 0b100 (bit_and permissions 0o700) 0))

-- `mode_t` is an unsigned word of 32 bits.
unfoldable pub updated_mode : Operator → ℕ → ℕ → ℕ → ℕ
unfolding permission_mask applicable_bits
updated_mode plus categories permissions mode = bit_or mode (applicable_bits categories permissions)
updated_mode minus categories permissions mode =
    bit_and mode (complement 32 (applicable_bits categories permissions))
updated_mode assign categories permissions mode =
    bit_or (bit_and mode (complement 32 (permission_mask categories)))
      (applicable_bits categories permissions)
