-- ===== src/Ls/Array.antt =====
-- lab2/demls.c: the array of `collectEntries` holds every entry, inside its bounds.
use operation_systems_mirea.Base.{
  ℕ, ◌≡◌, ◌≤◌, ◌<◌, sym, Bool, true, false, not, ◌&&◌, List, [], ◌∷◌, ◌++◌, arith, ltb, leb, length,
  length-append, append_assoc, append-nil, Bool-cases, inl, inr,
}
use operation_systems_mirea.Base.Text.{Bytes}
use operation_systems_mirea.Ls.Collect
use operation_systems_mirea.Ls.Collect.{
  Memory, Collected, collected, no_array, no_memory, read_failed, past_end, collect_loop,
  collect_entries, grow, store,
}

-- The array holds `names` in its places, or the program stopped for want of memory.
abbrev pub Holds : List Bytes → Collected → Type 0
Holds names (collected entries capacity) = (entries ≡ names) × (length names ≤ capacity)
Holds names no_array = Unit {0}
Holds names (no_memory n) = Unit {0}
Holds names (read_failed n) = Unit {0}
Holds names past_end = ⊥

grow_room : (count capacity : ℕ) → count ≤ capacity → 0 < capacity → count < grow count capacity
grow_room count capacity h p = ground arith

grow-pos : (count capacity : ℕ) → 0 < capacity → 0 < grow count capacity
grow-pos count capacity p = ground arith

pub collect_loop-Holds :
    (m : Memory) (names entries : List Bytes) (capacity : ℕ)
    → length entries ≤ capacity
    → 0 < capacity
    → Holds (entries ++ names) (collect_loop m names entries capacity)
unfolding collect_loop
collect_loop-Holds m [] entries capacity h p = (sym (append-nil entries), rw append-nil h)
collect_loop-Holds m (name ∷ names) entries capacity h p =
    elim (Bool-cases
      (leb capacity (length entries) && not (m.array_fits (grow (length entries) capacity)))) [
        | inl stopped ↦ rw (stopped, collect_loop) tt
        | inr more ↦ elim (Bool-cases (not (m.copy_fits (length entries)))) [
          | inl stopped ↦ rw (more, stopped, collect_loop) tt
          | inr copy ↦
              rw (more, copy, room, collect_loop)
                (rw append_assoc at (
                  collect_loop-Holds m names (entries ++ name ∷ []) (grow (length entries) capacity)
                    (omega (
                      arith,
                      length-append entries (name ∷ []),
                      grow_room (length entries) capacity h p,
                    ))
                    (grow-pos (length entries) capacity p)))
        ]
      ]
  where
    room : ltb (length entries) (grow (length entries) capacity) ≡ true
    room = ground (arith, grow_room (length entries) capacity h p)

check_read-Holds :
    (b : Bool) (names : List Bytes) (r : Collected)
    → Holds names r
    → Holds names (Collect.check_read b r)
check_read-Holds true names (collected es c) h = tt
check_read-Holds false names (collected es c) h = h
check_read-Holds b names no_array h = tt
check_read-Holds b names (no_memory n) h = tt
check_read-Holds b names (read_failed n) h = tt
check_read-Holds b names past_end h = h

-- Whatever the directory holds and wherever memory runs out, no entry is written past the end of
-- the array; where all are collected, the array has the names that `readdir` gave, in that order,
-- and a place for each.
pub collect_entries-Holds :
    (m : Memory) (names : List Bytes) (read_error : Bool)
    → Holds names (collect_entries m names read_error)
unfolding collect_entries
collect_entries-Holds m names read_error = elim (Bool-cases (m.array_fits 32)) [
  | inl e ↦ rw (e) (
      check_read-Holds read_error names (collect_loop m names [] 32)
        (collect_loop-Holds m names [] 32 (omega arith) (omega arith)))
  | inr e ↦ rw (e) tt
]
