-- ===== src/Monitor/Main.antt =====
-- lab11/main.c: `main`, which makes the mutex, the condition variables and the threads, waits for the
-- writer, ends the readers by `pthread_cancel`, and takes everything down.
pub mod Closing
pub mod Descent
pub mod Ending
pub mod Whole
pub mod Shutdown
mod Tests
use operation_systems_mirea.Base.{
  ℕ, ◌+◌, ◌-◌, ◌==◌, ◌&&◌, ◌||◌, Bool, true, false, Option, none, some, ltb, if◌then◌else◌, ◌≡◌,
}
use operation_systems_mirea.Base.Counts.{get_elem?}
use operation_systems_mirea.Monitor.{
  State, ReaderPc, WriterPc, Event, reader, writer_turn, spurious_reader, spurious_writer, move,
  start, step,
}

-- `main`, by what it does next.
pub data MainPc : Type 0 where
  initializing_mutex : MainPc
  initializing_read : MainPc  -- `pthread_cond_init(&cond_read, NULL)`
  initializing_write : MainPc
  creating_readers : MainPc
  creating_writer : MainPc
  failing : MainPc  -- a thread was not created, all is destroyed, before the return
  joining_writer : MainPc
  pausing : MainPc  -- `sleep(1)`
  cancelling : MainPc  -- the head of the last loop
  joining : ℕ → MainPc  -- that reader
  destroying : MainPc
  exited : ℕ → MainPc  -- the status
  -- The mutex was destroyed while it was locked, or a thread calls with the mutex or a condition
  -- variable that was destroyed: what the program does from there on is undefined.
  undefined : MainPc

-- The threads that are not created yet stand at their first point, and take no step.
pub record Program : Type 0 where
  pub threads : State
  pub created : ℕ  -- how many readers are created
  pub writer_created : Bool
  pub exists : Bool  -- the mutex, which is there before the condition variables and goes with them
  pub cancelled : ℕ  -- how many readers are asked to end
  pub main_thread : MainPc

-- After `strcpy`.
abbrev pub begun : State → Program
begun s = record {
  threads = s;
  created = 0;
  writer_created = false;
  exists = false;
  cancelled = 0;
  main_thread = initializing_mutex;
}

-- `main` returns 1, with what there is destroyed.
abbrev pub fails : Program → Program
fails p = record p { exists = false; main_thread = exited 1 }

abbrev pub lost : Program → Program
lost p = record p { main_thread = undefined }

-- A thread was not created: what there is is destroyed, also while others run.
abbrev pub abandons : Program → Program
abandons p = if p.threads.locked then lost p else record p { exists = false; main_thread = failing }

-- `pthread_join` of a reader, of the writer
abbrev pub join_reader : Program → Option ReaderPc → Option Program
join_reader p (some ReaderPc.finished) = some (record p { main_thread = cancelling })
join_reader p _ = none

abbrev pub join_writer : Program → WriterPc → Option Program
join_writer p WriterPc.finished = some (record p { main_thread = pausing })
join_writer p _ = none

-- The next step of `main` with `n` readers to create; `works` is the answer of its call.
pub main_step : ℕ → Bool → Program → MainPc → Option Program
main_step n works p initializing_mutex =
    some (if works then record p { exists = true; main_thread = initializing_read } else fails p)
main_step n works p initializing_read =
    some (if works then record p { main_thread = initializing_write } else fails p)
main_step n works p initializing_write =
    some (if works then record p { main_thread = creating_readers } else fails p)
main_step n works p creating_readers = some (
    if ltb p.created n
    then (if works then record p { created = p.created + 1 } else abandons p)
    else record p { main_thread = creating_writer })
main_step n works p creating_writer =
    some (
      if works
      then record p { writer_created = true; main_thread = joining_writer }
      else abandons p)
main_step n works p failing = some (record p { main_thread = exited 1 })
main_step n works p joining_writer = join_writer p p.threads.writer
main_step n works p pausing = some (record p { main_thread = cancelling })
main_step n works p cancelling = some (
    if ltb p.cancelled n
    then record p { cancelled = p.cancelled + 1; main_thread = joining p.cancelled }
    else record p { main_thread = destroying })
main_step n works p (joining i) = join_reader p (get_elem? p.threads.readers i)
main_step n works p destroying = some (record p { exists = false; main_thread = exited 0 })
main_step n works p (exited status) = none
main_step n works p undefined = none

-- A reader that is asked to end does so in `printf`, in `usleep`, or in `pthread_cond_wait`, where it
-- first takes the mutex, which nobody then gives back. `late` says whether a thread can end there
-- also when it was woken before, which POSIX leaves open.
abbrev pub end_reader : Bool → State → ℕ → ReaderPc → Option State
end_reader late s i ReaderPc.looping = some (move s i ReaderPc.finished)
end_reader late s i ReaderPc.reading = some (move s i ReaderPc.finished)
end_reader late s i ReaderPc.asleep =
    if s.locked then none else some (record (move s i ReaderPc.finished) { locked = true })
end_reader true s i ReaderPc.woken =
    if s.locked then none else some (record (move s i ReaderPc.finished) { locked = true })
end_reader late s i _ = none

abbrev pub end_at : Bool → State → ℕ → Option ReaderPc → Option State
end_at late s i none = none
end_at late s i (some q) = end_reader late s i q

-- Whether the thread that an event is about was created.
abbrev pub is_created : Program → Event → Bool
is_created p (reader i) = ltb i p.created
is_created p (spurious_reader i) = ltb i p.created
is_created p writer_turn = p.writer_created
is_created p spurious_writer = p.writer_created

abbrev pub is_running : MainPc → Bool
is_running (exited status) = false
is_running undefined = false
is_running _ = true

abbrev pub with_threads : Program → Option State → Option Program
with_threads p none = none
with_threads p (some s) = some (record p { threads = s })

-- `main` after a failed creation, with the mutex destroyed.
abbrev pub is_failing : MainPc → Bool
is_failing failing = true
is_failing _ = false

-- Whether the next step of a reader is a call with the mutex or a condition variable.
abbrev pub reader_calls : State → ReaderPc → Bool
reader_calls s ReaderPc.looping = false
reader_calls s ReaderPc.checking = s.writer_active || s.writer_waiting
reader_calls s ReaderPc.reading = false
reader_calls s ReaderPc.counting_out = s.active_readers - 1 == 0 && s.writer_waiting
reader_calls s ReaderPc.finished = false
reader_calls s _ = true

abbrev pub calls_at : State → Option ReaderPc → Bool
calls_at s none = false
calls_at s (some q) = reader_calls s q

-- The writer is not there after a failed creation.
abbrev pub calls : Event → State → Bool
calls (reader i) s = calls_at s (get_elem? s.readers i)
calls (spurious_reader i) s = calls_at s (get_elem? s.readers i)
calls _ s = true

abbrev pub thread_turn : Program → Event → Option Program
unfolding step
thread_turn p e =
    if is_failing p.main_thread && calls e p.threads
    then some (lost p)
    else with_threads p (step e p.threads)

pub data Turn : Type 0 where
  thread : Event → Turn
  main_turn : Bool → Turn
  cancel : ℕ → Turn

-- The return of `main` ends all threads.
unfoldable pub program_step : ℕ → Bool → Turn → Program → Option Program
unfolding main_step step
program_step n late (thread e) p =
    if is_created p e then (if is_running p.main_thread then thread_turn p e else none) else none
program_step n late (main_turn works) p = main_step n works p p.main_thread
program_step n late (cancel i) p =
    if ltb i p.cancelled
    then (if is_running p.main_thread
        then with_threads p (end_at late p.threads i (get_elem? p.threads.readers i))
        else none)
    else none

-- The states of the program under any schedule.
pub data Runs (n : ℕ) (late : Bool) : Program → Type 0 where
  begin : Runs n late (begun (start n))
  next :
      {p q : Program} (t : Turn) → Runs n late p → program_step n late t p ≡ some q → Runs n late q
