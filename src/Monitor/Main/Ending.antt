-- ===== src/Monitor/Main/Ending.antt =====
-- lab11/main.c: every schedule of the program's end comes to its last line.
use operation_systems_mirea.Base.{
  ℕ, zero, ◌+◌, ◌<◌, ◌≡◌, ◌≢◌, refl, sym, ap, subst, ◌∙◌, true, false, none, some, arith,
  Bool-cases, inl, inr, ◌⊎◌, length,
}
use operation_systems_mirea.Base.Schedule.{Kept-some, CanStep, Ends, Ends-weight, not_blocked}
use operation_systems_mirea.Base.Counts.{
  get_elem?, total, le-total, total_pos, lt-length, get_some, total_zero,
}
use operation_systems_mirea.Monitor.{State, ReaderPc, WriterPc, Event, reader, step, max_operations}
use operation_systems_mirea.Monitor.Invariant.{reader_holds, is_asleep}
use operation_systems_mirea.Monitor.Progress.{reader_can, holder_steps, awake_steps}
use operation_systems_mirea.Monitor.Main.{
  Program, MainPc, Turn, thread, main_turn, program_step, main_step, is_created, is_running,
  is_failing, join_reader,
}
use operation_systems_mirea.Monitor.Main.Descent.{Closes, weight, IsLess, program_step-IsLess}
use operation_systems_mirea.Monitor.Main.Closing.{Facts, Closing}

-- The end of the program: `main` returns 0 after all writes, every thread has returned, and nobody has
-- the mutex that was destroyed.
pub record IsOver (n : ℕ) (p : Program) : Type 0 where
  pub status : p.main_thread ≡ MainPc.exited 0
  pub destroyed : p.exists ≡ false
  pub writer : p.threads.writer ≡ WriterPc.finished
  pub readers : (i : ℕ) → i < n → get_elem? p.threads.readers i ≡ some ReaderPc.finished
  pub unlocked : p.threads.locked ≡ false
  pub total_writes : p.threads.write_counter ≡ max_operations

Closing-unlocked : (n : ℕ) (s : State) → Closing n n s → s.locked ≡ false
Closing-unlocked n s c =
    let none_holds : total reader_holds s.readers ≡ 0 =
      total_zero reader_holds s.readers (λ i v e. holds_nothing c.1 i v e) in
    ground (arith, c.1.mutex, none_holds)
  where
    holds_nothing :
        Facts n n s.readers s.locked
        → (i : ℕ) (v : ReaderPc) → get_elem? s.readers i ≡ some v
        → reader_holds v ≡ 0
    holds_nothing f i v e =
        ground (arith, f.ended i (omega (arith, f.number, lt-length s.readers i v e)))

finished_at :
    (n : ℕ) (p : Program) → p.main_thread ≡ MainPc.exited 0 → Closes n p.main_thread p → IsOver n p
finished_at n p at c =
    let here : Closing n n p.threads × (p.cancelled ≡ n) × (p.exists ≡ false) =
      subst (λ m. Closes n m p) at c in
    record {
      status = at;
      destroyed = here.2;
      writer = here.0.0.0;
      readers = here.0.1.ended;
      unlocked = Closing-unlocked n p.threads here.0;
      total_writes = here.0.0.4;
    }

thread_can :
    (n : ℕ) (p : Program) (e : Event)
    → is_created p e ≡ true
    → is_running p.main_thread ≡ true
    → is_failing p.main_thread ≡ false
    → CanStep step p.threads e
    → CanStep (program_step n false) p (thread e)
unfolding program_step
thread_can n p e made runs goes_on (s, h) = (record p { threads = s }, ground arith)

main_can :
    (n : ℕ) (p : Program) (m : MainPc)
    → p.main_thread ≡ m
    → main_step n true p m ≢ none
    → CanStep (program_step n false) p (main_turn true)
unfolding program_step
main_can n p m at h =
    not_blocked (program_step n false) p (main_turn true)
      (subst (λ m'. main_step n true p m' ≢ none) (sym at) h)

reader_made :
    (n i : ℕ) (p : Program) (q : ReaderPc)
    → p.created ≡ n
    → length p.threads.readers ≡ n
    → get_elem? p.threads.readers i ≡ some q
    → is_created p (reader i) ≡ true
reader_made n i p q made number there = ground (arith, lt-length p.threads.readers i q there)

runs_at :
    (p : Program) (m : MainPc)
    → p.main_thread ≡ m
    → is_running m ≡ true
    → is_running p.main_thread ≡ true
runs_at p m at h = ap is_running at ∙ h

joining_can :
    (n i : ℕ) (p : Program) (q : ReaderPc)
    → p.main_thread ≡ MainPc.joining i
    → Closing n i p.threads
    → p.created ≡ n
    → get_elem? p.threads.readers i ≡ some q
    → (t : Turn) × CanStep (program_step n false) p t
unfolding main_step
joining_can n i p ReaderPc.finished at c made there = (
  main_turn true,
  main_can n p (MainPc.joining i) at (rw (there, join_reader) (λ e. ground (arith, e))),
)
joining_can n i p q at c made there = elim (Bool-cases p.threads.locked) [
  | inl l ↦
      let (j, r, e, h) = total_pos reader_holds p.threads.readers (ground (arith, c.1.mutex)) in
      (
        thread (reader j),
        thread_can n p (reader j) (reader_made n j p r made c.1.number e)
            (runs_at p (MainPc.joining i) at refl) (ap is_failing at)
            (reader_can p.threads j r e (holder_steps p.threads j r h)),
      )
  | inr l ↦ (
    thread (reader i),
    thread_can n p (reader i) (reader_made n i p q made c.1.number there)
        (runs_at p (MainPc.joining i) at refl) (ap is_failing at)
        (reader_can p.threads i q there (
          awake_steps p.threads i q l
            (omega (arith, c.1.awake, le-total is_asleep p.threads.readers i q there))
            (omega arith))),
  )
]

goes :
    (n : ℕ) (p : Program) (m : MainPc)
    → p.main_thread ≡ m
    → Closes n m p
    → p.created ≡ n
    → IsOver n p ⊎ ((t : Turn) × CanStep (program_step n false) p t)
unfolding main_step
goes n p MainPc.pausing at c made =
    inr (main_turn true, main_can n p MainPc.pausing at (λ e. ground (arith, e)))
goes n p MainPc.cancelling at c made =
    inr (main_turn true, main_can n p MainPc.cancelling at (λ e. ground (arith, e)))
goes n p (MainPc.joining i) at c made =
    let (q, there) = get_some p.threads.readers i (omega (arith, c.0.1.number, c.2)) in
    inr (joining_can n i p q at c.0 made there)
goes n p MainPc.destroying at c made =
    inr (main_turn true, main_can n p MainPc.destroying at (λ e. ground (arith, e)))
goes n p (MainPc.exited zero) at c made =
    inl (finished_at n p at (subst (λ m. Closes n m p) (sym at) c))
goes n p _ at c made = absurd c

abbrev pub Down : ℕ → Program → Type 0
Down n p = Closes n p.main_thread p × (p.created ≡ n)

remains :
    (n : ℕ) (t : Turn) (p q : Program)
    → Down n p
    → program_step n false t p ≡ some q
    → Down n q × (weight n q < weight n p)
remains n t p q (c, made) e =
    let (c', less, same) = Kept-some (IsLess n p) e (program_step-IsLess n t p c) in
    ((c', same ∙ made), less)

pub Down-Ends : (n : ℕ) (p : Program) → Down n p → Ends (program_step n false) (IsOver n) p
Down-Ends n p down =
    Ends-weight (program_step n false) (IsOver n) (Down n) (weight n)
      (λ q d. goes n q q.main_thread refl d.0 d.1) (remains n) (weight n p + 1) p (omega arith) down
