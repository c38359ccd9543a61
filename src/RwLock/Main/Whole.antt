-- ===== src/RwLock/Main/Whole.antt =====
-- lab10/main.c: the whole program, from the first line of `main`.
use operation_systems_mirea.Base.{
  ℕ, ◌+◌, ◌≡◌, refl, Bool, true, Option, none, some, arith, if◌then◌else◌, ltb,
}
use operation_systems_mirea.Base.Schedule.{Kept, Kept-some, Kept-test, if_both}
use operation_systems_mirea.Base.Counts.{get_elem?}
use operation_systems_mirea.RwLock.{State, ReaderPc, WriterPc, Event, step, start, Reach}
use operation_systems_mirea.RwLock
use operation_systems_mirea.RwLock.Main.{
  System, Program, MainPc, Turn, thread, main_turn, cancel, program_step, main_step, is_created,
  is_running, with_threads, end_at, join_reader, join_writer, Runs, begin, next, begun, fails,
}

-- Until `main` asks the first reader to end, the threads do what they do alone.
abbrev Follows : System → ℕ → Program → Type 0
Follows y n p = p.cancelled ≡ 0 → Reach y.prefers_writer n p.threads

threads-Follows :
    (y : System) (n : ℕ) (p : Program) (e : Event) (o : Option State)
    → Follows y n p
    → step y.prefers_writer e p.threads ≡ o
    → Kept (Follows y n) (with_threads p o)
threads-Follows y n p e none f h = tt
threads-Follows y n p e (some s) f h = λ z. RwLock.later e (f z) h

join_writer-Follows :
    (y : System) (n : ℕ) (p : Program) (w : WriterPc)
    → Follows y n p
    → Kept (Follows y n) (join_writer p w)
join_writer-Follows y n p WriterPc.finished f = f
join_writer-Follows y n p _ f = tt

join_reader-Follows :
    (y : System) (n : ℕ) (p : Program) (o : Option ReaderPc)
    → Follows y n p
    → Kept (Follows y n) (join_reader p o)
join_reader-Follows y n p (some ReaderPc.finished) f = f
join_reader-Follows y n p _ f = tt

main_step-Follows :
    (y : System) (n : ℕ) (works : Bool) (p : Program) (m : MainPc)
    → Follows y n p
    → Kept (Follows y n) (main_step n works p m)
unfolding main_step
main_step-Follows y n works p MainPc.initializing f =
    if_both (Follows y n) works (record p { exists = true; main_thread = MainPc.creating_readers })
      (fails p) f f
main_step-Follows y n works p MainPc.creating_readers f =
    if_both (Follows y n) (ltb p.created n)
      (if works then record p { created = p.created + 1 } else fails p)
      (record p { main_thread = MainPc.creating_writer })
      (if_both (Follows y n) works (record p { created = p.created + 1 }) (fails p) f f) f
main_step-Follows y n works p MainPc.creating_writer f =
    if_both (Follows y n) works
      (record p { writer_created = true; main_thread = MainPc.joining_writer }) (fails p) f f
main_step-Follows y n works p MainPc.joining_writer f = join_writer-Follows y n p p.threads.writer f
main_step-Follows y n works p MainPc.cancelling f =
    if_both (Follows y n) (ltb p.cancelled n)
      (record p { cancelled = p.cancelled + 1; main_thread = MainPc.joining p.cancelled })
      (record p { main_thread = MainPc.destroying }) (λ z. absurd (omega (arith, z))) f
main_step-Follows y n works p (MainPc.joining i) f =
    join_reader-Follows y n p (get_elem? p.threads.readers i) f
main_step-Follows y n works p (MainPc.exited status) f = tt
main_step-Follows y n works p MainPc.pausing f = f
main_step-Follows y n works p MainPc.destroying f = f

no_cancel :
    (y : System) (n i : ℕ) (p : Program) (o : Option State)
    → ltb i p.cancelled ≡ true
    → Kept (Follows y n) (with_threads p o)
no_cancel y n i p none h = tt
no_cancel y n i p (some s) h = λ z. absurd (ground arith)

step-Follows :
    (y : System) (n : ℕ) (t : Turn) (p : Program)
    → Follows y n p
    → Kept (Follows y n) (program_step n y t p)
unfolding program_step
step-Follows y n (thread e) p f =
    let o : Option Program = with_threads p (step y.prefers_writer e p.threads) in
    Kept-test (Follows y n) (is_created p e) (if is_running p.main_thread then o else none) (λ _.
      Kept-test (Follows y n) (is_running p.main_thread) o
        (λ _. threads-Follows y n p e (step y.prefers_writer e p.threads) f refl))
step-Follows y n (main_turn works) p f = main_step-Follows y n works p p.main_thread f
step-Follows y n (cancel i) p f =
    let o : Option Program =
      with_threads p (end_at y.ends_in_lock p.threads i (get_elem? p.threads.readers i)) in
    Kept-test (Follows y n) (ltb i p.cancelled) (if is_running p.main_thread then o else none) (λ h.
      Kept-test (Follows y n) (is_running p.main_thread) o (λ _.
        no_cancel y n i p (end_at y.ends_in_lock p.threads i (get_elem? p.threads.readers i)) h))

-- Until `main` asks the first reader to end, the threads of the program are in a state that the readers
-- and the writer reach alone, all created at once: that `main` creates them one by one, while the first
-- run already, and that a creation can fail, lets them do nothing else.
pub threads-Reach :
    {y : System} {n : ℕ} {p : Program}
    → Runs n y (begun n) p
    → p.cancelled ≡ 0
    → Reach y.prefers_writer n p.threads
threads-Reach begin = λ z. RwLock.begin
threads-Reach {y} {n} (next {p = q} t r e) =
    Kept-some (Follows y n) e (step-Follows y n t q (threads-Reach r))
