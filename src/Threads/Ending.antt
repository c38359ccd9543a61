-- ===== src/Threads/Ending.antt =====
-- lab8/main.c: every schedule comes to an end once `main` has told the threads to stop.
use operation_systems_mirea.Base.{
  ℕ, ◌+◌, ◌-◌, ◌<◌, ◌≡◌, refl, sym, subst, Bool, true, false, Option, none, some, arith,
  Option-cases, inl, inr, ◌⊎◌, length, if◌then◌else◌,
}
use operation_systems_mirea.Base.Schedule.{Kept, Kept-some, CanStep, Ends, Ends-weight}
use operation_systems_mirea.Base.Counts.{get_elem?, set, total, total-set, length-set, lt-length}
use operation_systems_mirea.Threads.{
  State, ReaderPc, WriterPc, MainPc, Event, reader, writer_turn, main_turn, step, Reach, begin,
  later, move, reader_step, writer_step, main_step, join_reader,
}
use operation_systems_mirea.Threads.Invariant.{is_unfinished, is_gone, has_exited}
use operation_systems_mirea.Threads.Safety.{Reach-Inv}
use operation_systems_mirea.Threads.Progress.{Reach-RunsOn}

-- `main` while it joins the threads.
abbrev pub is_joining : MainPc → Bool
is_joining (MainPc.joining k success) = true
is_joining (MainPc.joining_writer success) = true
is_joining _ = false

-- Then `program_running` is 0.
abbrev Stops : State → Type 0
Stops s = is_joining s.main_thread ≡ true → s.program_running ≡ false

reader_step-Stops : (s : State) (i : ℕ) (p : ReaderPc) → Stops s → Kept Stops (reader_step s i p)
unfolding reader_step
reader_step-Stops s i _ h = ground arith

writer_step-Stops : (s : State) (w : WriterPc) → Stops s → Kept Stops (writer_step s w)
unfolding writer_step
writer_step-Stops s _ h = ground arith

join_reader-Stops :
    (s : State) (k : ℕ) (success : Bool) (o : Option ReaderPc)
    → s.program_running ≡ false
    → Kept Stops (join_reader s k success o)
join_reader-Stops s k success none h = λ _. h
join_reader-Stops s k success (some ReaderPc.finished) h = λ _. h
join_reader-Stops s k success (some _) h = tt

main_step-Stops :
    (n : ℕ) (created : Bool) (s : State) (m : MainPc)
    → Stops s
    → s.main_thread ≡ m
    → Kept Stops (main_step n created s m)
unfolding main_step
main_step-Stops n created s (MainPc.joining k success) h at =
    join_reader-Stops s k success (get_elem? s.readers k) (ground arith)
main_step-Stops n created s _ h at = ground arith

step-Stops : (n : ℕ) (e : Event) (s : State) → Stops s → Kept Stops (step n e s)
unfolding step
step-Stops n (reader i) s h = elim (Option-cases (get_elem? s.readers i)) [
  | inl e ↦ rw (e, step) tt
  | inr (p, e) ↦ rw (e, step) (reader_step-Stops s i p h)
]
step-Stops n writer_turn s h = writer_step-Stops s s.writer h
step-Stops n (main_turn created) s h = main_step-Stops n created s s.main_thread h refl

Reach-Stops : {n : ℕ} {s : State} → Reach n s → Stops s
Reach-Stops begin = λ h. absurd (ground arith)
Reach-Stops {n} (later e r p) = Kept-some Stops p (step-Stops n e _ (Reach-Stops r))

-- What is left to do for a reader, for the writer and for `main` among `n` readers.
abbrev reader_left : ReaderPc → ℕ
reader_left ReaderPc.finished = 0
reader_left ReaderPc.looping = 1
reader_left ReaderPc.unlocking = 2
reader_left ReaderPc.reading = 3
reader_left ReaderPc.locking = 4

abbrev writer_left : WriterPc → ℕ
writer_left WriterPc.absent = 0
writer_left WriterPc.finished = 0
writer_left WriterPc.looping = 1
writer_left WriterPc.unlocking = 2
writer_left WriterPc.filling = 3
writer_left WriterPc.writing = 4
writer_left WriterPc.locking = 5

abbrev main_left : ℕ → MainPc → ℕ
main_left n (MainPc.joining k success) = (n - k) + 3
main_left n (MainPc.joining_writer success) = 2
main_left n (MainPc.destroying success) = 1
main_left n _ = 0

abbrev weight : State → ℕ
weight s =
    total reader_left s.readers + writer_left s.writer + main_left (length s.readers) s.main_thread

-- From the first join on.
abbrev is_down : MainPc → Bool
is_down (MainPc.joining k success) = true
is_down (MainPc.joining_writer success) = true
is_down (MainPc.destroying success) = true
is_down (MainPc.exited success) = true
is_down _ = false

abbrev Down : State → Type 0
Down s = (s.program_running ≡ false) × (is_down s.main_thread ≡ true)

abbrev Less : State → State → Type 0
Less s t = Down t × (weight t < weight s)

moved :
    (s : State) (i : ℕ) (p p' : ReaderPc) (l : Bool)
    → Down s
    → get_elem? s.readers i ≡ some p
    → reader_left p' < reader_left p
    → Less s (record s { readers = set s.readers i p'; locked = l })
moved s i p p' l d there less = (
  d,
  subst
      (λ n.
        total reader_left (set s.readers i p') + writer_left s.writer + main_left n s.main_thread
        < weight s)
      (sym (length-set s.readers i p'))
      (omega (arith, total-set reader_left s.readers i p' p there, less)),
)

reader_step-Less :
    (s : State) (i : ℕ) (p : ReaderPc)
    → Down s
    → get_elem? s.readers i ≡ some p
    → Kept (Less s) (reader_step s i p)
unfolding reader_step
reader_step-Less s i ReaderPc.looping d there =
    subst (λ b. Less s (move s i (if b then ReaderPc.locking else ReaderPc.finished))) (sym d.0)
      (moved s i ReaderPc.looping ReaderPc.finished s.locked d there (omega arith))
reader_step-Less s i ReaderPc.locking d there =
    let h = moved s i ReaderPc.locking ReaderPc.reading true d there (omega arith) in
    taken s.locked (record (move s i ReaderPc.reading) { locked = true }) h
  where
    taken : (b : Bool) (t : State) → Less s t → Kept (Less s) (if b then none else some t)
    taken true t h = tt
    taken false t h = h
reader_step-Less s i ReaderPc.reading d there =
    moved s i ReaderPc.reading ReaderPc.unlocking s.locked d there (omega arith)
reader_step-Less s i ReaderPc.unlocking d there =
    moved s i ReaderPc.unlocking ReaderPc.looping false d there (omega arith)
reader_step-Less s i ReaderPc.finished d there = tt

writer_step-Less :
    (s : State) (w : WriterPc) → Down s → s.writer ≡ w → Kept (Less s) (writer_step s w)
unfolding writer_step
writer_step-Less s _ d at = ground arith

join_reader-Less :
    (s : State) (k : ℕ) (success : Bool) (o : Option ReaderPc)
    → Down s
    → s.main_thread ≡ MainPc.joining k success
    → get_elem? s.readers k ≡ o
    → Kept (Less s) (join_reader s k success o)
join_reader-Less s k success none d at there = ((d.0, refl), ground arith)
join_reader-Less s k success (some ReaderPc.finished) d at there =
    let l : k < length s.readers = lt-length s.readers k ReaderPc.finished there in
    ((d.0, refl), ground arith)
join_reader-Less s k success (some _) d at there = tt

main_step-Less :
    (n : ℕ) (created : Bool) (s : State) (m : MainPc)
    → Down s
    → s.main_thread ≡ m
    → Kept (Less s) (main_step n created s m)
unfolding main_step
main_step-Less n created s (MainPc.joining k success) d at =
    join_reader-Less s k success (get_elem? s.readers k) d at refl
main_step-Less n created s _ d at = ground arith

step-Less : (n : ℕ) (e : Event) (s : State) → Down s → Kept (Less s) (step n e s)
unfolding step
step-Less n (reader i) s d = elim (Option-cases (get_elem? s.readers i)) [
  | inl e ↦ rw (e, step) tt
  | inr (p, e) ↦ rw (e, step) (reader_step-Less s i p d e)
]
step-Less n writer_turn s d = writer_step-Less s s.writer d refl
step-Less n (main_turn created) s d = main_step-Less n created s s.main_thread d refl

-- `main` has exited, with the mutex destroyed, after every thread that it created had returned.
abbrev pub IsOver : State → Type 0
IsOver s =
    (has_exited s.main_thread ≡ true)
    × (s.mutex_exists ≡ false)
    × (total is_unfinished s.readers ≡ 0)
    × (is_gone s.writer ≡ true)

goes : (n : ℕ) (s : State) → Reach n s → IsOver s ⊎ ((e : Event) × CanStep (step n) s e)
goes n s r = elim (Reach-RunsOn r) [
  | inl (i, c) ↦ inr (reader i, c)
  | inr (inl c) ↦ inr (writer_turn, c)
  | inr (inr (inl c)) ↦ inr (main_turn true, c)
  | inr (inr (inr e)) ↦ inl (ground (arith, e, Reach-Inv r))
]

-- From a state in which `main` joins the threads, after its `sleep` or since a reader could not be
-- created, every schedule comes to an end, in which `main` has exited, the mutex is destroyed, and
-- every thread that was created has returned: no join waits for ever.
pub joining-Ends :
    {n : ℕ} {s : State} → Reach n s → is_joining s.main_thread ≡ true → Ends (step n) IsOver s
joining-Ends {n} {s} r joins =
    Ends-weight (step n) IsOver (λ t. Reach n t × Down t) weight (λ t h. goes n t h.0)
      (λ e t u h p.
        let (d, l) = Kept-some (Less t) p (step-Less n e t h.1) in ((later e h.0 p, d), l))
      (weight s + 1) s (omega arith) (r, (Reach-Stops r joins, down s.main_thread joins))
  where
    down : (m : MainPc) → is_joining m ≡ true → is_down m ≡ true
    down (MainPc.joining k success) h = refl
    down (MainPc.joining_writer success) h = refl
    down _ h = absurd (ground arith)
