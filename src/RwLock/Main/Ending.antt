-- ===== src/RwLock/Main/Ending.antt =====
-- lab10/main.c: every schedule of the program's end comes to its last line.
use operation_systems_mirea.Base.{
  ℕ, zero, ◌+◌, ◌<◌, ◌≡◌, ◌≢◌, refl, sym, ap, subst, ◌∙◌, Bool, true, false, none, some, arith, inl,
  inr, ◌⊎◌, length,
}
use operation_systems_mirea.Base.Schedule.{Kept-some, CanStep, Ends, Ends-weight, not_blocked}
use operation_systems_mirea.Base.Counts.{get_elem?, lt-length, get_some}
use operation_systems_mirea.RwLock.{
  State, ReaderPc, WriterPc, Event, reader, reader_step, step, max_operations,
}
use operation_systems_mirea.RwLock.Main.{
  System, Program, MainPc, Turn, thread, main_turn, program_step, main_step, is_created, is_running,
  join_reader,
}
use operation_systems_mirea.RwLock.Main.Descent.{Closes, weight, IsLess, program_step-IsLess}
use operation_systems_mirea.RwLock.Main.Closing.{left, Quiet, free_lock, Closing}

-- The end of the program: `main` returns 0 after all writes, and every thread has returned.
pub record IsOver (n : ℕ) (p : Program) : Type 0 where
  pub status : p.main_thread ≡ MainPc.exited 0
  pub destroyed : p.exists ≡ false
  pub writer : p.threads.writer ≡ WriterPc.finished
  pub readers : (i : ℕ) → i < n → get_elem? p.threads.readers i ≡ some ReaderPc.finished
  pub total_writes : p.threads.write_counter ≡ max_operations

finished_at :
    (n : ℕ) (p : Program) → p.main_thread ≡ MainPc.exited 0 → Closes n p.main_thread p → IsOver n p
finished_at n p at c =
    let here : Closing n n p.threads × (p.cancelled ≡ n) × (p.exists ≡ false) =
      subst (λ m. Closes n m p) at c in
    record {
      status = at;
      destroyed = here.2;
      writer = here.0.0.0;
      readers = here.0.1.ended;
      total_writes = here.0.0.3;
    }

thread_can :
    (y : System) (n : ℕ) (p : Program) (e : Event)
    → is_created p e ≡ true
    → is_running p.main_thread ≡ true
    → CanStep (step y.prefers_writer) p.threads e
    → CanStep (program_step n y) p (thread e)
unfolding program_step
thread_can y n p e made runs (s, h) = (record p { threads = s }, ground arith)

main_can :
    (y : System) (n : ℕ) (p : Program) (m : MainPc)
    → p.main_thread ≡ m
    → main_step n true p m ≢ none
    → CanStep (program_step n y) p (main_turn true)
unfolding program_step
main_can y n p m at h =
    not_blocked (program_step n y) p (main_turn true)
      (subst (λ m'. main_step n true p m' ≢ none) (sym at) h)

reader_made :
    (n i : ℕ) (p : Program) (q : ReaderPc)
    → p.created ≡ n
    → length p.threads.readers ≡ n
    → get_elem? p.threads.readers i ≡ some q
    → is_created p (reader i) ≡ true
reader_made n i p q made number there = ground (arith, lt-length p.threads.readers i q there)

runs_at :
    (p : Program) (m : MainPc)
    → p.main_thread ≡ m
    → is_running m ≡ true
    → is_running p.main_thread ≡ true
runs_at p m at h = ap is_running at ∙ h

unfinished_steps :
    (w : Bool) (s : State) (i : ℕ) (q : ReaderPc)
    → Quiet s
    → 0 < left q
    → reader_step w s i q ≢ none
unfolding reader_step
unfinished_steps w s i _ c l = ground (arith, free_lock w s c)

reader_can :
    (w : Bool) (s : State) (i : ℕ) (q : ReaderPc)
    → get_elem? s.readers i ≡ some q
    → reader_step w s i q ≢ none
    → CanStep (step w) s (reader i)
unfolding step
reader_can w s i q there h = not_blocked (step w) s (reader i) (rw (there, step) h)

joining_can :
    (y : System) (n i : ℕ) (p : Program) (q : ReaderPc)
    → p.main_thread ≡ MainPc.joining i
    → Closing n i p.threads
    → p.created ≡ n
    → get_elem? p.threads.readers i ≡ some q
    → (t : Turn) × CanStep (program_step n y) p t
unfolding main_step
joining_can y n i p ReaderPc.finished at c made there = (
  main_turn true,
  main_can y n p (MainPc.joining i) at (rw (there, join_reader) (λ e. ground (arith, e))),
)
joining_can y n i p q at c made there = (
  thread (reader i),
  thread_can y n p (reader i) (reader_made n i p q made c.1.number there)
      (runs_at p (MainPc.joining i) at refl)
      (reader_can y.prefers_writer p.threads i q there
        (unfinished_steps y.prefers_writer p.threads i q c.0 (omega arith))),
)

goes :
    (y : System) (n : ℕ) (p : Program) (m : MainPc)
    → p.main_thread ≡ m
    → Closes n m p
    → p.created ≡ n
    → IsOver n p ⊎ ((t : Turn) × CanStep (program_step n y) p t)
unfolding main_step
goes y n p MainPc.pausing at c made =
    inr (main_turn true, main_can y n p MainPc.pausing at (λ e. ground (arith, e)))
goes y n p MainPc.cancelling at c made =
    inr (main_turn true, main_can y n p MainPc.cancelling at (λ e. ground (arith, e)))
goes y n p (MainPc.joining i) at c made =
    let (q, there) = get_some p.threads.readers i (omega (arith, c.0.1.number, c.2)) in
    inr (joining_can y n i p q at c.0 made there)
goes y n p MainPc.destroying at c made =
    inr (main_turn true, main_can y n p MainPc.destroying at (λ e. ground (arith, e)))
goes y n p (MainPc.exited zero) at c made =
    inl (finished_at n p at (subst (λ m. Closes n m p) (sym at) c))
goes y n p _ at c made = absurd c

abbrev pub Down : ℕ → Program → Type 0
Down n p = Closes n p.main_thread p × (p.created ≡ n)

remains :
    (y : System) (n : ℕ) (t : Turn) (p q : Program)
    → Down n p
    → program_step n y t p ≡ some q
    → Down n q × (weight n q < weight n p)
remains y n t p q (c, made) e =
    let (c', less, same) = Kept-some (IsLess n p) e (program_step-IsLess y n t p c) in
    ((c', same ∙ made), less)

pub Down-Ends : (y : System) (n : ℕ) (p : Program) → Down n p → Ends (program_step n y) (IsOver n) p
Down-Ends y n p down =
    Ends-weight (program_step n y) (IsOver n) (Down n) (weight n)
      (λ q d. goes y n q q.main_thread refl d.0 d.1) (remains y n) (weight n p + 1) p (omega arith)
      down
