-- ===== src/Monitor/Main/Whole.antt =====
-- lab11/main.c: the whole program, from the first line of `main`.
use operation_systems_mirea.Base.{
  ℕ, ◌+◌, ◌≡◌, refl, Bool, true, false, ◌&&◌, Option, none, some, arith, if◌then◌else◌, ltb,
}
use operation_systems_mirea.Base.Schedule.{Kept, Kept-some, Kept-test, if_both}
use operation_systems_mirea.Base.Counts.{get_elem?}
use operation_systems_mirea.Monitor.{
  State, ReaderPc, WriterPc, Event, reader, writer_turn, spurious_reader, spurious_writer, move,
  reader_step, writer_step, wake_alone, wake_writer_alone, broadcast, wake_reader, step, start,
  Reach, later,
}
use operation_systems_mirea.Monitor
use operation_systems_mirea.Monitor.Main.{
  Program, MainPc, Turn, thread, main_turn, cancel, program_step, main_step, is_created, is_running,
  with_threads, end_at, thread_turn, lost, abandons, is_failing, calls, join_reader, join_writer,
  fails, Runs, begin, next,
}

-- Until `main` asks the first reader to end, the threads do what they do alone.
abbrev Follows : ℕ → Program → Type 0
Follows n p = p.cancelled ≡ 0 → Reach n p.threads

threads-Follows :
    (n : ℕ) (p : Program) (e : Event) (o : Option State)
    → Follows n p
    → step e p.threads ≡ o
    → Kept (Follows n) (with_threads p o)
threads-Follows n p e none f h = tt
threads-Follows n p e (some s) f h = λ z. later e (f z) h

join_writer-Follows :
    (n : ℕ) (p : Program) (w : WriterPc) → Follows n p → Kept (Follows n) (join_writer p w)
join_writer-Follows n p WriterPc.finished f = f
join_writer-Follows n p _ f = tt

join_reader-Follows :
    (n : ℕ) (p : Program) (o : Option ReaderPc) → Follows n p → Kept (Follows n) (join_reader p o)
join_reader-Follows n p (some ReaderPc.finished) f = f
join_reader-Follows n p _ f = tt

abandons-Follows : (n : ℕ) (p : Program) → Follows n p → Follows n (abandons p)
abandons-Follows n p f =
    if_both (Follows n) p.threads.locked (lost p)
      (record p { exists = false; main_thread = MainPc.failing }) f f

thread_turn-Follows :
    (n : ℕ) (p : Program) (e : Event) → Follows n p → Kept (Follows n) (thread_turn p e)
unfolding thread_turn
thread_turn-Follows n p e f =
    either (is_failing p.main_thread && calls e p.threads) (with_threads p (step e p.threads))
      (threads-Follows n p e (step e p.threads) f refl)
  where
    either :
        (b : Bool) (o : Option Program)
        → Kept (Follows n) o
        → Kept (Follows n) (if b then some (lost p) else o)
    either true o h = f
    either false o h = h

main_step-Follows :
    (n : ℕ) (works : Bool) (p : Program) (m : MainPc)
    → Follows n p
    → Kept (Follows n) (main_step n works p m)
unfolding main_step
main_step-Follows n works p MainPc.initializing_mutex f =
    if_both (Follows n) works (record p { exists = true; main_thread = MainPc.initializing_read })
      (fails p) f f
main_step-Follows n works p MainPc.initializing_read f =
    if_both (Follows n) works (record p { main_thread = MainPc.initializing_write }) (fails p) f f
main_step-Follows n works p MainPc.initializing_write f =
    if_both (Follows n) works (record p { main_thread = MainPc.creating_readers }) (fails p) f f
main_step-Follows n works p MainPc.creating_readers f =
    if_both (Follows n) (ltb p.created n)
      (if works then record p { created = p.created + 1 } else abandons p)
      (record p { main_thread = MainPc.creating_writer })
      (if_both (Follows n) works (record p { created = p.created + 1 }) (abandons p) f
        (abandons-Follows n p f))
      f
main_step-Follows n works p MainPc.creating_writer f =
    if_both (Follows n) works
      (record p { writer_created = true; main_thread = MainPc.joining_writer }) (abandons p) f
      (abandons-Follows n p f)
main_step-Follows n works p MainPc.joining_writer f = join_writer-Follows n p p.threads.writer f
main_step-Follows n works p MainPc.cancelling f =
    if_both (Follows n) (ltb p.cancelled n)
      (record p { cancelled = p.cancelled + 1; main_thread = MainPc.joining p.cancelled })
      (record p { main_thread = MainPc.destroying }) (λ z. absurd (omega (arith, z))) f
main_step-Follows n works p (MainPc.joining i) f =
    join_reader-Follows n p (get_elem? p.threads.readers i) f
main_step-Follows n works p (MainPc.exited status) f = tt
main_step-Follows n works p MainPc.undefined f = tt
main_step-Follows n works p MainPc.failing f = f
main_step-Follows n works p MainPc.pausing f = f
main_step-Follows n works p MainPc.destroying f = f

no_cancel :
    (n i : ℕ) (p : Program) (o : Option State)
    → ltb i p.cancelled ≡ true
    → Kept (Follows n) (with_threads p o)
no_cancel n i p none h = tt
no_cancel n i p (some s) h = λ z. absurd (ground arith)

step-Follows :
    (n : ℕ) (late : Bool) (t : Turn) (p : Program)
    → Follows n p
    → Kept (Follows n) (program_step n late t p)
unfolding program_step
step-Follows n late (thread e) p f =
    let o : Option Program = thread_turn p e in
    Kept-test (Follows n) (is_created p e) (if is_running p.main_thread then o else none)
      (λ _. Kept-test (Follows n) (is_running p.main_thread) o (λ _. thread_turn-Follows n p e f))
step-Follows n late (main_turn works) p f = main_step-Follows n works p p.main_thread f
step-Follows n late (cancel i) p f =
    let o : Option Program =
      with_threads p (end_at late p.threads i (get_elem? p.threads.readers i)) in
    Kept-test (Follows n) (ltb i p.cancelled) (if is_running p.main_thread then o else none) (λ h.
      Kept-test (Follows n) (is_running p.main_thread) o
        (λ _. no_cancel n i p (end_at late p.threads i (get_elem? p.threads.readers i)) h))

pub Runs-Reach :
    {n : ℕ} {late : Bool} {p : Program} → Runs n late p → p.cancelled ≡ 0 → Reach n p.threads
Runs-Reach begin = λ z. Monitor.begin
Runs-Reach {n} {late} (next {p = q} t r e) =
    Kept-some (Follows n) e (step-Follows n late t q (Runs-Reach r))
