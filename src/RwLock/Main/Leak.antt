-- ===== src/RwLock/Main/Leak.antt =====
-- lab10/main.c: a reader that is ended while it prints keeps the lock.
use operation_systems_mirea.Base.{
  ℕ, ◌+◌, ◌≤◌, ◌<◌, ◌≡◌, refl, Bool, true, false, Option, none, some, arith, Option-cases, inl, inr,
  if◌then◌else◌, ltb,
}
use operation_systems_mirea.Base.Schedule.{Kept, Kept-some, Kept-test, if_both}
use operation_systems_mirea.Base.Counts.{get_elem?, total, total-set, total-replicate}
use operation_systems_mirea.RwLock.{
  State, ReaderPc, WriterPc, Event, reader, writer_turn, reader_step, writer_step, step,
}
use operation_systems_mirea.RwLock.Invariant.{reader_holds}
use operation_systems_mirea.RwLock.Main.{
  System, Program, MainPc, Turn, thread, main_turn, cancel, program_step, main_step, is_created,
  is_running, with_threads, end_reader, end_at, join_reader, join_writer, Runs, begin, next, begun,
  fails,
}

-- The lock is held for reading by all readers that have it, and `d` times more.
abbrev Slack : ℕ → State → Type 0
Slack d s = total reader_holds s.readers + d ≤ s.read_locks

reader_step-Slack :
    (w : Bool) (d : ℕ) (s : State) (i : ℕ) (p : ReaderPc)
    → Slack d s
    → get_elem? s.readers i ≡ some p
    → Kept (Slack d) (reader_step w s i p)
unfolding reader_step
reader_step-Slack w d s i ReaderPc.looping h there = ground (
  arith,
  total-set reader_holds s.readers i ReaderPc.locking ReaderPc.looping there,
  total-set reader_holds s.readers i ReaderPc.finished ReaderPc.looping there,
)
reader_step-Slack w d s i ReaderPc.locking h there =
    ground (arith, total-set reader_holds s.readers i ReaderPc.reading ReaderPc.locking there)
reader_step-Slack w d s i ReaderPc.reading h there =
    omega (arith, h, total-set reader_holds s.readers i ReaderPc.unlocking ReaderPc.reading there)
reader_step-Slack w d s i ReaderPc.unlocking h there =
    omega (arith, h, total-set reader_holds s.readers i ReaderPc.looping ReaderPc.unlocking there)
reader_step-Slack w d s i ReaderPc.finished h there = tt

writer_step-Slack :
    (d : ℕ) (s : State) (p : WriterPc) → Slack d s → Kept (Slack d) (writer_step s p)
unfolding writer_step
writer_step-Slack d s _ h = ground arith

step-Slack : (w : Bool) (d : ℕ) (e : Event) (s : State) → Slack d s → Kept (Slack d) (step w e s)
unfolding step
step-Slack w d (reader i) s h = elim (Option-cases (get_elem? s.readers i)) [
  | inl e ↦ rw (e, step) tt
  | inr (p, e) ↦ rw (e, step) (reader_step-Slack w d s i p h e)
]
step-Slack w d writer_turn s h = writer_step-Slack d s s.writer h

end_reader-Slack :
    (w : Bool) (d : ℕ) (s : State) (i : ℕ) (p : ReaderPc)
    → Slack d s
    → get_elem? s.readers i ≡ some p
    → Kept (Slack d) (end_reader w s i p)
end_reader-Slack w d s i ReaderPc.looping h there =
    omega (arith, h, total-set reader_holds s.readers i ReaderPc.finished ReaderPc.looping there)
end_reader-Slack w d s i ReaderPc.reading h there =
    omega (arith, h, total-set reader_holds s.readers i ReaderPc.finished ReaderPc.reading there)
end_reader-Slack true d s i ReaderPc.locking h there =
    omega (arith, h, total-set reader_holds s.readers i ReaderPc.finished ReaderPc.locking there)
end_reader-Slack false d s i ReaderPc.locking h there = tt
end_reader-Slack w d s i ReaderPc.unlocking h there = tt
end_reader-Slack w d s i ReaderPc.finished h there = tt

end_at-Slack :
    (w : Bool) (d : ℕ) (s : State) (i : ℕ) (o : Option ReaderPc)
    → Slack d s
    → get_elem? s.readers i ≡ o
    → Kept (Slack d) (end_at w s i o)
end_at-Slack w d s i none h there = tt
end_at-Slack w d s i (some p) h there = end_reader-Slack w d s i p h there

abbrev Leaks : ℕ → Program → Type 0
Leaks d p = Slack d p.threads

with_threads-Leaks :
    (d : ℕ) (p : Program) (o : Option State) → Kept (Slack d) o → Kept (Leaks d) (with_threads p o)
with_threads-Leaks d p none h = tt
with_threads-Leaks d p (some s) h = h

join_writer-Leaks :
    (d : ℕ) (p : Program) (w : WriterPc) → Leaks d p → Kept (Leaks d) (join_writer p w)
join_writer-Leaks d p WriterPc.finished h = h
join_writer-Leaks d p _ h = tt

join_reader-Leaks :
    (d : ℕ) (p : Program) (o : Option ReaderPc) → Leaks d p → Kept (Leaks d) (join_reader p o)
join_reader-Leaks d p (some ReaderPc.finished) h = h
join_reader-Leaks d p _ h = tt

main_step-Leaks :
    (d n : ℕ) (works : Bool) (p : Program) (m : MainPc)
    → Leaks d p
    → Kept (Leaks d) (main_step n works p m)
unfolding main_step
main_step-Leaks d n works p MainPc.joining_writer h = join_writer-Leaks d p p.threads.writer h
main_step-Leaks d n works p (MainPc.joining i) h =
    join_reader-Leaks d p (get_elem? p.threads.readers i) h
main_step-Leaks d n works p MainPc.initializing h =
    if_both (Leaks d) works (record p { exists = true; main_thread = MainPc.creating_readers })
      (fails p) h h
main_step-Leaks d n works p MainPc.creating_readers h =
    if_both (Leaks d) (ltb p.created n)
      (if works then record p { created = p.created + 1 } else fails p)
      (record p { main_thread = MainPc.creating_writer })
      (if_both (Leaks d) works (record p { created = p.created + 1 }) (fails p) h h) h
main_step-Leaks d n works p MainPc.creating_writer h =
    if_both (Leaks d) works
      (record p { writer_created = true; main_thread = MainPc.joining_writer }) (fails p) h h
main_step-Leaks d n works p MainPc.cancelling h =
    if_both (Leaks d) (ltb p.cancelled n)
      (record p { cancelled = p.cancelled + 1; main_thread = MainPc.joining p.cancelled })
      (record p { main_thread = MainPc.destroying }) h h
main_step-Leaks d n works p (MainPc.exited status) h = tt
main_step-Leaks d n works p MainPc.pausing h = h
main_step-Leaks d n works p MainPc.destroying h = h

program_step-Leaks :
    (d : ℕ) (y : System) (n : ℕ) (t : Turn) (p : Program)
    → Leaks d p
    → Kept (Leaks d) (program_step n y t p)
unfolding program_step
program_step-Leaks d y n (thread e) p h =
    let o : Option State = step y.prefers_writer e p.threads in
    Kept-test (Leaks d) (is_created p e)
      (if is_running p.main_thread then with_threads p o else none)
      (λ _.
        Kept-test (Leaks d) (is_running p.main_thread) (with_threads p o)
          (λ _. with_threads-Leaks d p o (step-Slack y.prefers_writer d e p.threads h)))
program_step-Leaks d y n (main_turn works) p h = main_step-Leaks d n works p p.main_thread h
program_step-Leaks d y n (cancel i) p h =
    let o : Option State = end_at y.ends_in_lock p.threads i (get_elem? p.threads.readers i) in
    Kept-test (Leaks d) (ltb i p.cancelled)
      (if is_running p.main_thread then with_threads p o else none)
      (λ _. Kept-test (Leaks d) (is_running p.main_thread) (with_threads p o) (λ _.
        with_threads-Leaks d p o
          (end_at-Slack y.ends_in_lock d p.threads i (get_elem? p.threads.readers i) h refl)))

Runs-Leaks : (d : ℕ) {n : ℕ} {y : System} {p q : Program} → Leaks d p → Runs n y p q → Leaks d q
Runs-Leaks d h begin = h
Runs-Leaks d {n} {y} h (next {p = r} t rs e) =
    Kept-some (Leaks d) e (program_step-Leaks d y n t r (Runs-Leaks d h rs))

begun-Leaks : (n : ℕ) → Leaks 0 (begun n)
begun-Leaks n = omega (arith, total-replicate reader_holds n ReaderPc.looping refl)

-- One reader less that could give the lock back.
end_at-reading :
    (w : Bool) (s : State) (i : ℕ) (o : Option ReaderPc)
    → Slack 0 s
    → get_elem? s.readers i ≡ o
    → o ≡ some ReaderPc.reading
    → Kept (Slack 1) (end_at w s i o)
end_at-reading w s i (some ReaderPc.reading) h there e =
    omega (arith, h, total-set reader_holds s.readers i ReaderPc.finished ReaderPc.reading there)
end_at-reading w s i none h there e = tt
end_at-reading w s i (some ReaderPc.looping) h there e = absurd (ground arith)
end_at-reading w s i (some ReaderPc.locking) h there e = absurd (ground arith)
end_at-reading w s i (some ReaderPc.unlocking) h there e = tt
end_at-reading w s i (some ReaderPc.finished) h there e = tt

ended-Leaks :
    (y : System) (n i : ℕ) (p q : Program)
    → Leaks 0 p
    → get_elem? p.threads.readers i ≡ some ReaderPc.reading
    → program_step n y (cancel i) p ≡ some q
    → Leaks 1 q
unfolding program_step
ended-Leaks y n i p q h there e =
    let o : Option State = end_at y.ends_in_lock p.threads i (get_elem? p.threads.readers i) in
    Kept-some (Leaks 1) e (
      Kept-test (Leaks 1) (ltb i p.cancelled)
        (if is_running p.main_thread then with_threads p o else none)
        (λ _. Kept-test (Leaks 1) (is_running p.main_thread) (with_threads p o) (λ _.
          with_threads-Leaks 1 p o (
            end_at-reading y.ends_in_lock p.threads i (get_elem? p.threads.readers i) h refl
              there))))

-- A reader that `pthread_cancel` ends in its `printf` never gives the lock back: under every schedule
-- the lock is held for reading from then on, also when `main` destroys it.
pub Runs-locked :
    {y : System} {n : ℕ} {p q r : Program} (i : ℕ)
    → Runs n y (begun n) p
    → get_elem? p.threads.readers i ≡ some ReaderPc.reading
    → program_step n y (cancel i) p ≡ some q
    → Runs n y q r
    → 0 < r.threads.read_locks
Runs-locked {y} {n} {p} {q} {r} i before there ends after =
    let h : Leaks 1 r =
      Runs-Leaks 1 (ended-Leaks y n i p q (Runs-Leaks 0 (begun-Leaks n) before) there ends) after in
    omega (arith, h)
