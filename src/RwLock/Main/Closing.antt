-- ===== src/RwLock/Main/Closing.antt =====
-- lab10/main.c: the readers after the writer has returned, while `main` ends them.
use operation_systems_mirea.Base.{
  ℕ, ◌<◌, ◌≡◌, ◌≢◌, sym, subst, ◌∙◌, Bool, true, false, List, Option, none, some, arith,
  Option-cases, inl, inr, if◌then◌else◌, length, length-replicate,
}
use operation_systems_mirea.Base.Schedule.{Kept, Kept-some}
use operation_systems_mirea.Base.Counts.{
  get_elem?, set, total, total-set, length-set, get_elem?-set,
}
use operation_systems_mirea.RwLock.{
  State, ReaderPc, WriterPc, Event, reader, writer_turn, move, reader_step, writer_step, step,
  start, Reach, max_operations, must_wait,
}
use operation_systems_mirea.RwLock
use operation_systems_mirea.RwLock.Invariant.{Inv}
use operation_systems_mirea.RwLock.Main.{end_reader, end_at}

-- What is left for a reader to do.
abbrev pub left : ReaderPc → ℕ
left ReaderPc.finished = 0
left ReaderPc.looping = 1
left ReaderPc.unlocking = 2
left ReaderPc.reading = 3
left ReaderPc.locking = 4

-- The writer has returned, and its lock with it.
abbrev pub Quiet : State → Type 0
Quiet s =
    (s.writer ≡ WriterPc.finished)
    × (s.running ≡ false)
    × (s.write_locked ≡ false)
    × (s.write_counter ≡ max_operations)

-- There are `n` readers, of which the first `k` have ended.
pub record Facts (n k : ℕ) (readers : List ReaderPc) : Type 0 where
  pub number : length readers ≡ n
  pub ended : (j : ℕ) → j < k → get_elem? readers j ≡ some ReaderPc.finished

abbrev pub Closing : ℕ → ℕ → State → Type 0
Closing n k s = Quiet s × Facts n k s.readers

Facts-move :
    {n k : ℕ} (readers : List ReaderPc) (i : ℕ) (p p' : ReaderPc)
    → Facts n k readers
    → get_elem? readers i ≡ some p
    → p ≢ ReaderPc.finished
    → Facts n k (set readers i p')
Facts-move readers i p p' f there alive = record {
  number = length-set readers i p' ∙ f.number;
  ended = λ j h.
      get_elem?-set readers i j p' (λ e.
        alive
          (same there (subst (λ x. get_elem? readers x ≡ some ReaderPc.finished) e (f.ended j h))))
      ∙ f.ended j h;
}
  where
    same : {o : Option ReaderPc} {a b : ReaderPc} → o ≡ some a → o ≡ some b → a ≡ b
    same e h = ground arith

-- One step nearer to the end of the readers.
abbrev pub Nearer : ℕ → ℕ → State → State → Type 0
Nearer n k s t = Closing n k t × (total left t.readers < total left s.readers)

nearer :
    {n k : ℕ} (readers : List ReaderPc) (i : ℕ) (p p' : ReaderPc)
    → Facts n k readers
    → get_elem? readers i ≡ some p
    → left p' < left p
    → Facts n k (set readers i p') × (total left (set readers i p') < total left readers)
nearer readers i p p' f there less = (
  Facts-move readers i p p' f there (λ e. unfinished p p' e less),
  omega (arith, total-set left readers i p' p there, less),
)
  where
    unfinished : (p p' : ReaderPc) → p ≡ ReaderPc.finished → left p' < left p → ⊥
    unfinished p p' e h = ground arith

-- Nobody keeps a reader from the lock.
pub free_lock : (w : Bool) (s : State) → Quiet s → must_wait w s ≡ false
free_lock w s c = ground (arith, c)

reader_step-Nearer :
    (w : Bool) (n k : ℕ) (s : State) (i : ℕ) (p : ReaderPc)
    → Closing n k s
    → get_elem? s.readers i ≡ some p
    → Kept (Nearer n k s) (reader_step w s i p)
unfolding reader_step
reader_step-Nearer w n k s i ReaderPc.looping c there =
    let (f, l) =
      subst
        (λ b.
          Facts n k (set s.readers i (if b then ReaderPc.locking else ReaderPc.finished))
          × (total left (set s.readers i (if b then ReaderPc.locking else ReaderPc.finished))
              < total left s.readers))
        (sym c.0.1)
        (nearer s.readers i ReaderPc.looping ReaderPc.finished c.1 there (omega arith)) in
    ((c.0, f), l)
reader_step-Nearer w n k s i ReaderPc.locking c there =
    let (f, l) = nearer s.readers i ReaderPc.locking ReaderPc.reading c.1 there (omega arith) in
    ground (arith, free_lock w s c.0)
reader_step-Nearer w n k s i ReaderPc.reading c there =
    let (f, l) = nearer s.readers i ReaderPc.reading ReaderPc.unlocking c.1 there (omega arith) in
    ((c.0, f), l)
reader_step-Nearer w n k s i ReaderPc.unlocking c there =
    let (f, l) = nearer s.readers i ReaderPc.unlocking ReaderPc.looping c.1 there (omega arith) in
    ((c.0, f), l)
reader_step-Nearer w n k s i ReaderPc.finished c there = tt

-- Every step of a thread.
pub step-Nearer :
    (w : Bool) (n k : ℕ) (e : Event) (s : State) → Closing n k s → Kept (Nearer n k s) (step w e s)
unfolding step
step-Nearer w n k (reader i) s c = elim (Option-cases (get_elem? s.readers i)) [
  | inl e ↦ rw (e, step) tt
  | inr (p, e) ↦ rw (e, step) (reader_step-Nearer w n k s i p c e)
]
step-Nearer w n k writer_turn s c = rw (c.0.0, step) tt

end_reader-Nearer :
    (w : Bool) (n k : ℕ) (s : State) (i : ℕ) (p : ReaderPc)
    → Closing n k s
    → get_elem? s.readers i ≡ some p
    → Kept (Nearer n k s) (end_reader w s i p)
end_reader-Nearer w n k s i ReaderPc.looping c there =
    let (f, l) = nearer s.readers i ReaderPc.looping ReaderPc.finished c.1 there (omega arith) in
    ((c.0, f), l)
end_reader-Nearer w n k s i ReaderPc.reading c there =
    let (f, l) = nearer s.readers i ReaderPc.reading ReaderPc.finished c.1 there (omega arith) in
    ((c.0, f), l)
end_reader-Nearer true n k s i ReaderPc.locking c there =
    let (f, l) = nearer s.readers i ReaderPc.locking ReaderPc.finished c.1 there (omega arith) in
    ((c.0, f), l)
end_reader-Nearer false n k s i ReaderPc.locking c there = tt
end_reader-Nearer w n k s i ReaderPc.unlocking c there = tt
end_reader-Nearer w n k s i ReaderPc.finished c there = tt

-- A reader that ends because it was asked to.
pub end_at-Nearer :
    (w : Bool) (n k : ℕ) (s : State) (i : ℕ) (o : Option ReaderPc)
    → Closing n k s
    → get_elem? s.readers i ≡ o
    → Kept (Nearer n k s) (end_at w s i o)
end_at-Nearer w n k s i none c there = tt
end_at-Nearer w n k s i (some p) c there = end_reader-Nearer w n k s i p c there

-- The invariant of the threads says so of a writer that has returned.
pub Closing-finished :
    (s : State) (n : ℕ)
    → Inv s
    → length s.readers ≡ n
    → s.writer ≡ WriterPc.finished
    → Closing n 0 s
Closing-finished s n inv number done =
    ((ground (arith, inv)), record { number = number; ended = λ j h. absurd (omega (arith, h)) })

abbrev SameLength : State → State → Type 0
SameLength s t = length t.readers ≡ length s.readers

reader_step-SameLength :
    (w : Bool) (s : State) (i : ℕ) (p : ReaderPc) → Kept (SameLength s) (reader_step w s i p)
unfolding reader_step
reader_step-SameLength w s i ReaderPc.looping =
    length-set s.readers i (if s.running then ReaderPc.locking else ReaderPc.finished)
reader_step-SameLength w s i ReaderPc.locking =
    ground (arith, length-set s.readers i ReaderPc.reading)
reader_step-SameLength w s i ReaderPc.reading = length-set s.readers i ReaderPc.unlocking
reader_step-SameLength w s i ReaderPc.unlocking = length-set s.readers i ReaderPc.looping
reader_step-SameLength w s i ReaderPc.finished = tt

writer_step-SameLength : (s : State) (p : WriterPc) → Kept (SameLength s) (writer_step s p)
unfolding writer_step
writer_step-SameLength s _ = ground arith

step-SameLength : (w : Bool) (e : Event) (s : State) → Kept (SameLength s) (step w e s)
unfolding step
step-SameLength w (reader i) s = elim (Option-cases (get_elem? s.readers i)) [
  | inl e ↦ rw (e, step) tt
  | inr (p, e) ↦ rw (e, step) (reader_step-SameLength w s i p)
]
step-SameLength w writer_turn s = writer_step-SameLength s s.writer

-- The number of the readers does not change.
pub Reach-length : {w : Bool} {n : ℕ} {s : State} → Reach w n s → length s.readers ≡ n
Reach-length {n = n} RwLock.begin = length-replicate n ReaderPc.looping
Reach-length {w} (RwLock.later {s = u} e r p) =
    Kept-some (SameLength u) p (step-SameLength w e u) ∙ Reach-length r
