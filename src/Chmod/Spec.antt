-- ===== src/Chmod/Spec.antt =====
-- What a symbolic mode means, by classes of users and permissions: the text that stands for a
-- change, and the permission that each class has after it.
use operation_systems_mirea.Base.{
  ℕ, Bool, true, false, not, ◌&&◌, ◌||◌, List, [], ◌∷◌, ◌++◌, map, if◌then◌else◌,
}
use operation_systems_mirea.Base.Text.{Bytes}
use operation_systems_mirea.Chmod.Symbolic.{Operator, plus, minus, assign}

pub data Who : Type 0 where
  user group others everyone : Who

pub data Class : Type 0 where
  owner in_group other : Class

pub data Perm : Type 0 where
  read write execute : Perm

abbrev pub who_letter : Who → ℕ
who_letter user = b'u'
who_letter group = b'g'
who_letter others = b'o'
who_letter everyone = b'a'

abbrev pub operator_letter : Operator → ℕ
operator_letter plus = b'+'
operator_letter minus = b'-'
operator_letter assign = b'='

abbrev pub perm_letter : Perm → ℕ
perm_letter read = b'r'
perm_letter write = b'w'
perm_letter execute = b'x'

-- The text of a change: letters of users, the operator, letters of permissions.
abbrev pub render : List Who → Operator → List Perm → Bytes
render ws op ps = map who_letter ws ++ operator_letter op ∷ map perm_letter ps

abbrev pub covers : Who → Class → Bool
covers user owner = true
covers group in_group = true
covers others other = true
covers everyone c = true
covers _ _ = false

abbrev pub named : List Who → Class → Bool
named [] c = false
named (w ∷ ws) c = covers w c || named ws c

-- A change that names no users is for all of them.
abbrev pub selects : List Who → Class → Bool
selects [] c = true
selects (w ∷ ws) c = named (w ∷ ws) c

abbrev pub same_perm : Perm → Perm → Bool
same_perm read read = true
same_perm write write = true
same_perm execute execute = true
same_perm _ _ = false

abbrev pub grants : List Perm → Perm → Bool
grants [] p = false
grants (q ∷ ps) p = same_perm q p || grants ps p

-- Whether a class has a permission afterwards: from whether it is selected, whether the permission
-- is listed, and whether the class had it.
abbrev pub allowed : Operator → Bool → Bool → Bool → Bool
allowed plus selected listed old = old || selected && listed
allowed minus selected listed old = old && not (selected && listed)
allowed assign selected listed old = if selected then listed else old

abbrev pub to_bit : Bool → ℕ
to_bit true = 1
to_bit false = 0

-- The position of a permission in `st_mode`.
abbrev pub position : Class → Perm → ℕ
position owner read = 8
position owner write = 7
position owner execute = 6
position in_group read = 5
position in_group write = 4
position in_group execute = 3
position other read = 2
position other write = 1
position other execute = 0
