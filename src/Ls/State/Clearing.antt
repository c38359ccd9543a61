-- ===== src/Ls/State/Clearing.antt =====
-- lab2/demls.c: what `free` and `cleanupProgram` do to the state.
use operation_systems_mirea.Base.{
  ℕ, zero, suc, ltb, ◌+◌, ◌≡◌, ◌≤◌, ◌<◌, ◌⊎◌, refl, true, false, ◌∷◌, arith, ◌==◌, ==_iff,
  Bool-cases, inl, inr, Option, none, some,
}
use operation_systems_mirea.Base.Schedule.{Kept, Kept-map}
use operation_systems_mirea.Base.Text.{Bytes}
use operation_systems_mirea.Ls.State.{
  Message, Freed, is_freed, ProgramState, Outcome, exited, double_free, overrun, free_entries,
  drop_entries, cleanup_program, finish, fail_with, free_copy,
}

-- The copies in the places before `i` have been freed, and no others.
abbrev pub Upto : ℕ → Freed → Type 0
Upto i freed = (j : ℕ) → is_freed j freed ≡ ltb j i

pub Upto-next : (i : ℕ) (freed : Freed) → Upto i freed → Upto (i + 1) (i ∷ freed)
Upto-next i freed h j = ground (arith, h j)

-- The state after the copies before place `i` are freed.
abbrev pub freed_at : ProgramState → Freed → ProgramState
freed_at s freed = record s { freed = freed }

pub free_copy_next :
    (i : ℕ) (s : ProgramState) → Upto i s.freed → free_copy i s ≡ some (freed_at s (i ∷ s.freed))
free_copy_next i s h = rw (unfreed, free_copy) refl
  where
    unfreed : is_freed i s.freed ≡ false
    unfreed = ground (arith, h i)

free_entries-none :
    (n j i : ℕ) (freed : Freed)
    → is_freed i freed ≡ true
    → j ≤ i
    → i < j + n
    → free_entries n j freed ≡ none
unfolding free_entries
free_entries-none zero j i freed h l u = absurd (omega arith)
free_entries-none (suc n) j i freed h l u = elim (Bool-cases (is_freed j freed)) [
  | inl e ↦ rw (e, free_entries)
  | inr e ↦
      rw (e, free_entries)
        (free_entries-none n (j + 1) i (j ∷ freed) (ground arith) (not_same (Bool-cases (i == j)) e)
          (omega arith))
]
  where
    not_same : ((i == j) ≡ true) ⊎ ((i == j) ≡ false) → is_freed j freed ≡ false → j + 1 ≤ i
    not_same (inl same) e = let q : i ≡ j = (==_iff i j).0 same in cc
    not_same (inr other) e = ground arith

-- The clean-up meets a copy that was freed before.
pub cleanup_program_freed :
    (s : ProgramState) (i : ℕ)
    → s.entries ≡ true
    → i < s.entry_count
    → is_freed i s.freed ≡ true
    → cleanup_program s ≡ none
unfolding cleanup_program
cleanup_program_freed s i e l f =
    rw
      (
        e,
        cleanup_program,
        drop_entries,
        free_entries-none s.entry_count 0 i s.freed f (omega arith) (omega arith),
      )
      refl

-- All copies from place `i` to place `i + n`, and those that were freed before.
abbrev Frees : ℕ → ℕ → Freed → Freed → Type 0
Frees n i freed freed' =
    (j : ℕ)
    → (is_freed j freed ≡ true → is_freed j freed' ≡ true)
      × (i ≤ j → j < i + n → is_freed j freed' ≡ true)

free_entries-Frees : (n i : ℕ) (freed : Freed) → Kept (Frees n i freed) (free_entries n i freed)
unfolding free_entries
free_entries-Frees zero i freed = λ j. (λ h. h, λ l u. absurd (omega arith))
free_entries-Frees (suc n) i freed = elim (Bool-cases (is_freed i freed)) [
  | inl e ↦ rw (e, free_entries) tt
  | inr e ↦
      rw (e, free_entries)
        (Kept-map (λ f h. widen f h) (free_entries n (i + 1) (i ∷ freed))
          (free_entries-Frees n (i + 1) (i ∷ freed)))
]
  where
    widen : (f : Freed) → Frees n (i + 1) (i ∷ freed) f → Frees (suc n) i freed f
    widen f h j = (
      λ was. (h j).0 (ground (arith, was)),
      λ l u. elim (Bool-cases (i == j)) [
        | inl e ↦ (h j).0 (ground (arith, e))
        | inr e ↦ (h j).1 (ground arith) (omega arith)
      ],
    )

abbrev pub AllFreed : ProgramState → Type 0
AllFreed s = (j : ℕ) → j < s.copies → is_freed j s.freed ≡ true

-- Everything is given back: every copy, the array and the path buffer are freed, and the directory is closed.
abbrev pub IsReleased : ProgramState → Type 0
IsReleased s = (s.path_buffer ≡ false) × (s.open_dir ≡ false) × (s.entries ≡ false) × AllFreed s

-- The copies that are not freed are in the array.
abbrev pub Accounts : ProgramState → Type 0
Accounts s = (s.entries ≡ true → s.entry_count ≡ s.copies) × (s.entries ≡ false → AllFreed s)

abbrev pub IsCleared : ProgramState → ProgramState → Type 0
IsCleared s t =
    (t.path_buffer ≡ s.path_buffer) × (t.open_dir ≡ s.open_dir) × (t.entries ≡ false) × AllFreed t

pub drop_entries-IsCleared :
    (s : ProgramState) → s.entry_count ≡ s.copies → Kept (IsCleared s) (drop_entries s)
unfolding drop_entries free_entries
drop_entries-IsCleared s e =
    dropped (free_entries s.entry_count 0 s.freed) (free_entries-Frees s.entry_count 0 s.freed)
  where
    dropped :
        (o : Option Freed)
        → Kept (Frees s.entry_count 0 s.freed) o
        → Kept
            (IsCleared s)
            (elim o [ none ↦ none | some f ↦ some (record s { entries = false; freed = f }) ])
    dropped none h = tt
    dropped (some f) h = (refl, refl, refl, λ j l. (h j).1 (omega arith) (omega arith))

pub cleanup_program-IsReleased :
    (s : ProgramState) → Accounts s → Kept IsReleased (cleanup_program s)
unfolding cleanup_program
cleanup_program-IsReleased s (inside, outside) = elim (Bool-cases s.entries) [
  | inl e ↦
      rw (e, cleanup_program)
        (drop_entries-IsCleared (record s { path_buffer = false; open_dir = false; entries = true })
          (inside e))
  | inr e ↦ rw (e, cleanup_program) (refl, refl, refl, outside e)
]

abbrev pub IsSome : {A : Type 0} → Option A → Type 0
IsSome none = ⊥
IsSome (some x) = Unit {0}

free_entries-IsSome : (n i : ℕ) (freed : Freed) → Upto i freed → IsSome (free_entries n i freed)
unfolding free_entries
free_entries-IsSome zero i freed u = tt
free_entries-IsSome (suc n) i freed u =
    rw (unfreed, free_entries) (free_entries-IsSome n (i + 1) (i ∷ freed) (Upto-next i freed u))
  where
    unfreed : is_freed i freed ≡ false
    unfreed = ground (arith, u i)

pub drop_entries-IsSome : (s : ProgramState) → Upto 0 s.freed → IsSome (drop_entries s)
unfolding drop_entries
drop_entries-IsSome s u =
    dropped (free_entries s.entry_count 0 s.freed) (free_entries-IsSome s.entry_count 0 s.freed u)
  where
    dropped :
        (o : Option Freed)
        → IsSome o
        → IsSome (elim o [ none ↦ none | some f ↦ some (record s { entries = false; freed = f }) ])
    dropped none h = h
    dropped (some f) h = tt

-- Nothing is freed of the copies in the array, or `P` holds.
abbrev pub Intact : Type 0 → ProgramState → Type 0
Intact P s = s.entries ≡ true → Upto 0 s.freed ⊎ P

cleanup_program-IsSome :
    (P : Type 0) (s : ProgramState) → Intact P s → IsSome (cleanup_program s) ⊎ P
unfolding cleanup_program
cleanup_program-IsSome P s intact = elim (Bool-cases s.entries) [
  | inr e ↦ rw (e, cleanup_program) (inl tt)
  | inl e ↦ elim (intact e) [
    | inr p ↦ inr p
    | inl u ↦
        rw (e, cleanup_program)
          (inl (
            drop_entries-IsSome (record s { path_buffer = false; open_dir = false; entries = true })
              u))
  ]
]

-- No copy was freed twice, and all is given back; or one was, and `P` holds.
abbrev pub GivesBack : Type 0 → Outcome → Type 0
GivesBack P (exited status out m s) = IsReleased s
GivesBack P double_free = P
GivesBack P overrun = ⊥

pub finish-GivesBack :
    (P : Type 0) (status : ℕ) (out : Bytes) (m : Option Message) (s : ProgramState)
    → Accounts s
    → Intact P s
    → GivesBack P (finish status out m (cleanup_program s))
finish-GivesBack P status out m s a intact =
    finished (cleanup_program s) (cleanup_program-IsReleased s a)
      (cleanup_program-IsSome P s intact)
  where
    finished :
        (o : Option ProgramState)
        → Kept IsReleased o
        → IsSome o ⊎ P
        → GivesBack P (finish status out m o)
    finished none h (inl i) = absurd i
    finished none h (inr p) = p
    finished (some t) h i = h

pub fail_with-GivesBack :
    (P : Type 0) (m : Message) (s : ProgramState) (out : Bytes)
    → Accounts s
    → Intact P s
    → GivesBack P (fail_with m s out)
unfolding fail_with
fail_with-GivesBack P m s out a intact = finish-GivesBack P 1 out (some m) s a intact
