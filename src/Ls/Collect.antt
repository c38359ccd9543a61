-- ===== src/Ls/Collect.antt =====
-- lab2/demls.c: `collectEntries`, the array that doubles, and `direntCompare`.
use operation_systems_mirea.Base.{
  ℕ, ◌+◌, ◌*◌, Bool, false, not, ◌&&◌, List, [], ◌∷◌, ◌++◌, Option, none, some, ltb, leb, ◌==◌,
  if◌then◌else◌, length,
}
use operation_systems_mirea.Base.Text.{Bytes}

pub data Sign : Type 0 where
  less equal greater : Sign

abbrev pub to_lower : ℕ → ℕ
to_lower c = if leb b'A' c && leb c b'Z' then c + 32 else c

-- The sign of `strcasecmp`.
unfoldable pub strcasecmp : Bytes → Bytes → Sign
strcasecmp [] [] = equal
strcasecmp [] (d ∷ t) = less
strcasecmp (c ∷ s) [] = greater
strcasecmp (c ∷ s) (d ∷ t) =
    let rest = strcasecmp s t in
    if ltb (to_lower c) (to_lower d)
    then less
    else if ltb (to_lower d) (to_lower c)
    then greater
    else rest

abbrev pub is_hidden : Bytes → Bool
is_hidden [] = false
is_hidden (c ∷ s) = c == b'.'

-- Names that begin with a dot come first.
unfoldable pub dirent_compare : Bytes → Bytes → Sign
unfolding strcasecmp
dirent_compare f s =
    if is_hidden f && not (is_hidden s)
    then less
    else if not (is_hidden f) && is_hidden s
    then greater
    else strcasecmp f s

-- Which allocations succeed: of `pathBuffer`, of an array of so many places, and of the copy of the
-- n-th entry.
pub record Memory : Type 0 where
  pub path_fits : Bool
  pub array_fits : ℕ → Bool
  pub copy_fits : ℕ → Bool

-- The entries in the array and its places; or no memory for the first array; or, with so many copies
-- in the array, no memory later on, or an error of `readdir`; or a write past the last place.
pub data Collected : Type 0 where
  collected : List Bytes → ℕ → Collected
  no_array : Collected
  no_memory : ℕ → Collected
  read_failed : ℕ → Collected
  past_end : Collected

-- `entries[entryCount++] = copy` in an array of `capacity` places
abbrev pub store : List Bytes → ℕ → Bytes → Option (List Bytes)
store entries capacity name =
    if ltb (length entries) capacity then some (entries ++ name ∷ []) else none

-- The capacity after the test at the head of the loop's body.
abbrev pub grow : ℕ → ℕ → ℕ
grow count capacity = if leb capacity count then capacity * 2 else capacity

unfoldable pub collect_loop : Memory → List Bytes → List Bytes → ℕ → Collected
collect_loop m [] entries capacity = collected entries capacity
collect_loop m (name ∷ names) entries capacity =
    let capacity' = grow (length entries) capacity in
    let stored = store entries capacity' name in
    if leb capacity (length entries) && not (m.array_fits capacity')
    then no_memory (length entries)
    else if not (m.copy_fits (length entries))
    then no_memory (length entries)
    else elim stored [ none ↦ past_end | some entries' ↦ collect_loop m names entries' capacity' ]

-- `names` are what `readdir` gives; `read_error` is `errno` after the last call.
abbrev pub check_read : Bool → Collected → Collected
check_read read_error (collected entries capacity) =
    if read_error then read_failed (length entries) else collected entries capacity
check_read read_error r = r

unfoldable pub collect_entries : Memory → List Bytes → Bool → Collected
unfolding collect_loop
collect_entries m names read_error =
    if m.array_fits 32 then check_read read_error (collect_loop m names [] 32) else no_array
