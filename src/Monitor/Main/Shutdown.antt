-- ===== src/Monitor/Main/Shutdown.antt =====
-- lab11/main.c: the program once the writer is joined.
use operation_systems_mirea.Base.{
  ℕ, zero, suc, ◌+◌, ◌≤◌, ◌≡◌, refl, sym, subst, ◌∙◌, ◌⊎◌, inl, inr, Bool, true, false, ◌&&◌,
  Option, none, some, arith, if◌then◌else◌, ltb,
}
use operation_systems_mirea.Base.Schedule.{Kept, Kept-some, Kept-map, Kept-test, if_both, Ends}
use operation_systems_mirea.Base.Counts.{get_elem?}
use operation_systems_mirea.Monitor.{State, WriterPc, Event, step, Reach}
use operation_systems_mirea.Monitor.Safety.{Reach-Inv}
use operation_systems_mirea.Monitor.Lengths.{Reach-length}
use operation_systems_mirea.Monitor.Main.{
  Program, MainPc, Turn, thread, main_turn, cancel, program_step, main_step, is_created, is_running,
  with_threads, end_at, thread_turn, lost, abandons, is_failing, calls, join_writer, Runs, begin,
  next, fails,
}
use operation_systems_mirea.Monitor.Main.Closing.{Closing-finished}
use operation_systems_mirea.Monitor.Main.Descent.{program_step-IsLess}
use operation_systems_mirea.Monitor.Main.Ending.{Down, Down-Ends, IsOver}
use operation_systems_mirea.Monitor.Main.Whole.{Runs-Reach}

-- Before the writer is joined, and after a failure.
abbrev Early : ℕ → MainPc → Program → Type 0
Early n MainPc.initializing_mutex p = (p.cancelled ≡ 0) × (p.created ≤ n)
Early n MainPc.initializing_read p = (p.cancelled ≡ 0) × (p.created ≤ n)
Early n MainPc.initializing_write p = (p.cancelled ≡ 0) × (p.created ≤ n)
Early n MainPc.creating_readers p = (p.cancelled ≡ 0) × (p.created ≤ n)
Early n MainPc.creating_writer p = (p.cancelled ≡ 0) × (p.created ≡ n)
Early n MainPc.joining_writer p = (p.cancelled ≡ 0) × (p.created ≡ n)
Early n MainPc.failing p = Unit {0}
Early n MainPc.undefined p = Unit {0}
Early n (MainPc.exited (suc k)) p = Unit {0}
Early n _ p = ⊥

abbrev Place : ℕ → Program → Type 0
Place n p = Down n p ⊎ Early n p.main_thread p

Early-threads :
    (n : ℕ) (m : MainPc) (p : Program) (o : Option State)
    → Early n m p
    → Kept (λ q. Early n m q) (with_threads p o)
Early-threads n m p none e = tt
Early-threads n m p (some s) e = same m e
  where
    same : (m : MainPc) → Early n m p → Early n m (record p { threads = s })
    same MainPc.initializing_mutex e = e
    same MainPc.initializing_read e = e
    same MainPc.initializing_write e = e
    same MainPc.creating_readers e = e
    same MainPc.creating_writer e = e
    same MainPc.joining_writer e = e
    same MainPc.failing e = tt
    same MainPc.undefined e = tt
    same (MainPc.exited (suc k)) e = tt
    same _ e = absurd e

threads-Place :
    (n : ℕ) (p : Program) (o : Option State)
    → Early n p.main_thread p
    → Kept (Place n) (with_threads p o)
threads-Place n p none e = tt
threads-Place n p (some s) e = inr (Early-threads n p.main_thread p (some s) e)

thread_turn-Place :
    (n : ℕ) (p : Program) (e : Event) → Early n p.main_thread p → Kept (Place n) (thread_turn p e)
unfolding thread_turn
thread_turn-Place n p e early =
    either (is_failing p.main_thread && calls e p.threads) (with_threads p (step e p.threads))
      (threads-Place n p (step e p.threads) early)
  where
    either :
        (b : Bool) (o : Option Program)
        → Kept (Place n) o
        → Kept (Place n) (if b then some (lost p) else o)
    either true o h = inr tt
    either false o h = h

abandons-Place : (n : ℕ) (p : Program) → Place n (abandons p)
abandons-Place n p =
    if_both (Place n) p.threads.locked (lost p)
      (record p { exists = false; main_thread = MainPc.failing }) (inr tt) (inr tt)

join_writer-Place :
    (n : ℕ) (p : Program) (w : WriterPc)
    → p.main_thread ≡ MainPc.joining_writer
    → (p.cancelled ≡ 0) × (p.created ≡ n)
    → Reach n p.threads
    → p.threads.writer ≡ w
    → Kept (Place n) (join_writer p w)
join_writer-Place n p WriterPc.finished at (z, made) r there =
    inl ((Closing-finished p.threads n (Reach-Inv r) (Reach-length r) there, z), made)
join_writer-Place n p _ at e r there = tt

creating_readers-Place :
    (n : ℕ) (works more : Bool) (p : Program)
    → p.main_thread ≡ MainPc.creating_readers
    → ltb p.created n ≡ more
    → (p.cancelled ≡ 0) × (p.created ≤ n)
    → Place n (
        if more
        then (if works then record p { created = p.created + 1 } else abandons p)
        else record p { main_thread = MainPc.creating_writer })
creating_readers-Place n works false p at e (z, l) = inr (z, ground arith)
creating_readers-Place n true true p at e (z, l) =
    inr (subst (λ m. Early n m (record p { created = p.created + 1 })) (sym at) (z, ground arith))
creating_readers-Place n false true p at e (z, l) = abandons-Place n p

main_step-Place :
    (n : ℕ) (works : Bool) (p : Program) (m : MainPc)
    → p.main_thread ≡ m
    → Early n m p
    → (p.cancelled ≡ 0 → Reach n p.threads)
    → Kept (Place n) (main_step n works p m)
unfolding main_step
main_step-Place n works p MainPc.initializing_mutex at e f =
    if_both (Place n) works (record p { exists = true; main_thread = MainPc.initializing_read })
      (fails p) (inr e) (inr tt)
main_step-Place n works p MainPc.initializing_read at e f =
    if_both (Place n) works (record p { main_thread = MainPc.initializing_write }) (fails p) (inr e)
      (inr tt)
main_step-Place n works p MainPc.initializing_write at e f =
    if_both (Place n) works (record p { main_thread = MainPc.creating_readers }) (fails p) (inr e)
      (inr tt)
main_step-Place n works p MainPc.creating_readers at e f =
    creating_readers-Place n works (ltb p.created n) p at refl e
main_step-Place n works p MainPc.creating_writer at e f =
    if_both (Place n) works
      (record p { writer_created = true; main_thread = MainPc.joining_writer }) (abandons p) (inr e)
      (abandons-Place n p)
main_step-Place n works p MainPc.joining_writer at e f =
    join_writer-Place n p p.threads.writer at e (f e.0) refl
main_step-Place n works p MainPc.failing at e f = inr tt
main_step-Place n works p MainPc.undefined at e f = tt
main_step-Place n works p (MainPc.exited (suc k)) at e f = tt
main_step-Place n works p _ at e f = absurd e

earlier-Place :
    (n : ℕ) (t : Turn) (p : Program)
    → Early n p.main_thread p
    → (p.cancelled ≡ 0 → Reach n p.threads)
    → Kept (Place n) (program_step n false t p)
unfolding program_step
earlier-Place n (thread e) p early f =
    let o : Option Program = thread_turn p e in
    Kept-test (Place n) (is_created p e) (if is_running p.main_thread then o else none)
      (λ _. Kept-test (Place n) (is_running p.main_thread) o (λ _. thread_turn-Place n p e early))
earlier-Place n (main_turn works) p early f = main_step-Place n works p p.main_thread refl early f
earlier-Place n (cancel i) p early f =
    let s : Option State = end_at false p.threads i (get_elem? p.threads.readers i) in
    Kept-test (Place n) (ltb i p.cancelled)
      (if is_running p.main_thread then with_threads p s else none)
      (λ _.
        Kept-test (Place n) (is_running p.main_thread) (with_threads p s)
          (λ _. threads-Place n p s early))

step-Place :
    (n : ℕ) (t : Turn) (p : Program)
    → Place n p
    → (p.cancelled ≡ 0 → Reach n p.threads)
    → Kept (Place n) (program_step n false t p)
step-Place n t p (inl (c, made)) f =
    Kept-map (λ q h. inl (h.0, h.2 ∙ made)) (program_step n false t p) (program_step-IsLess n t p c)
step-Place n t p (inr early) f = earlier-Place n t p early f

Runs-Place : {n : ℕ} {p : Program} → Runs n false p → Place n p
Runs-Place {n} begin = inr (refl, omega arith)
Runs-Place {n} (next {p = q} t r e) =
    Kept-some (Place n) e (step-Place n t q (Runs-Place r) (Runs-Reach r))

-- `main` past the join of the writer.
abbrev pub has_joined : MainPc → Bool
has_joined MainPc.pausing = true
has_joined MainPc.cancelling = true
has_joined (MainPc.joining i) = true
has_joined MainPc.destroying = true
has_joined (MainPc.exited zero) = true
has_joined _ = false

excluded : (n : ℕ) (m : MainPc) (p : Program) → has_joined m ≡ true → Early n m p → ⊥
excluded n MainPc.initializing_mutex p h e = absurd (ground arith)
excluded n (MainPc.exited zero) p h e = absurd e
excluded n (MainPc.exited (suc k)) p h e = absurd (ground arith)
excluded n _ p h e = absurd (ground arith)

-- Where a thread that was woken does not end inside `pthread_cond_wait`: once `main` has joined the
-- writer, every schedule of the readers, of their cancellation and of `main` comes to an end, in which
-- `main` has returned 0, all threads have returned, all writes were made, and the mutex was destroyed
-- while nobody had it.
pub shutdown-Ends :
    {n : ℕ} {p : Program}
    → Runs n false p
    → has_joined p.main_thread ≡ true
    → Ends (program_step n false) (IsOver n) p
shutdown-Ends {n} {p} r joined = elim (Runs-Place r) [
  | inl down ↦ Down-Ends n p down
  | inr early ↦ absurd (excluded n p.main_thread p joined early)
]
