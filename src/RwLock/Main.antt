-- ===== src/RwLock/Main.antt =====
-- lab10/main.c: `main`, which makes the lock and the threads, waits for the writer, ends the readers by
-- `pthread_cancel`, and destroys the lock.
pub mod Closing
pub mod Descent
pub mod Ending
pub mod Whole
pub mod Shutdown
pub mod Leak
mod Tests
use operation_systems_mirea.Base.{
  ℕ, ◌+◌, Bool, true, false, Option, none, some, ltb, if◌then◌else◌, ◌≡◌,
}
use operation_systems_mirea.Base.Counts.{get_elem?}
use operation_systems_mirea.RwLock.{
  State, ReaderPc, WriterPc, Event, reader, writer_turn, move, step, start,
}

-- `main`, by what it does next.
pub data MainPc : Type 0 where
  initializing : MainPc  -- `pthread_rwlock_init`
  creating_readers : MainPc
  creating_writer : MainPc
  joining_writer : MainPc
  pausing : MainPc  -- `sleep(1)`
  cancelling : MainPc  -- the head of the last loop
  joining : ℕ → MainPc  -- that reader
  destroying : MainPc
  exited : ℕ → MainPc  -- the status

-- What the system leaves open: whether the lock prefers writers, and whether a thread that is asked to
-- end does so while it waits for the lock.
pub record System : Type 0 where
  pub prefers_writer : Bool
  pub ends_in_lock : Bool

-- The threads that are not created yet stand at their first point, and take no step.
pub record Program : Type 0 where
  pub threads : State
  pub created : ℕ  -- how many readers are created
  pub writer_created : Bool
  pub exists : Bool  -- the lock
  pub cancelled : ℕ  -- how many readers are asked to end
  pub main_thread : MainPc

-- After `strcpy`.
abbrev pub begun : ℕ → Program
begun n = record {
  threads = start n;
  created = 0;
  writer_created = false;
  exists = false;
  cancelled = 0;
  main_thread = initializing;
}

-- `return 1`, which ends all threads.
abbrev pub fails : Program → Program
fails p = record p { main_thread = exited 1 }

-- `pthread_join` of a reader, of the writer
abbrev pub join_reader : Program → Option ReaderPc → Option Program
join_reader p (some ReaderPc.finished) = some (record p { main_thread = cancelling })
join_reader p _ = none

abbrev pub join_writer : Program → WriterPc → Option Program
join_writer p WriterPc.finished = some (record p { main_thread = pausing })
join_writer p _ = none

-- The next step of `main` with `n` readers to create; `works` is the answer of its call.
pub main_step : ℕ → Bool → Program → MainPc → Option Program
main_step n works p initializing =
    some (if works then record p { exists = true; main_thread = creating_readers } else fails p)
main_step n works p creating_readers = some (
    if ltb p.created n
    then (if works then record p { created = p.created + 1 } else fails p)
    else record p { main_thread = creating_writer })
main_step n works p creating_writer =
    some
      (if works then record p { writer_created = true; main_thread = joining_writer } else fails p)
main_step n works p joining_writer = join_writer p p.threads.writer
main_step n works p pausing = some (record p { main_thread = cancelling })
main_step n works p cancelling = some (
    if ltb p.cancelled n
    then record p { cancelled = p.cancelled + 1; main_thread = joining p.cancelled }
    else record p { main_thread = destroying })
main_step n works p (joining i) = join_reader p (get_elem? p.threads.readers i)
main_step n works p destroying = some (record p { exists = false; main_thread = exited 0 })
main_step n works p (exited status) = none

-- A reader that is asked to end does so in `usleep`, in `printf`, where it keeps the lock, or also
-- before it has the lock.
abbrev pub end_reader : Bool → State → ℕ → ReaderPc → Option State
end_reader ends_in_lock s i ReaderPc.looping = some (move s i ReaderPc.finished)
end_reader ends_in_lock s i ReaderPc.reading = some (move s i ReaderPc.finished)
end_reader true s i ReaderPc.locking = some (move s i ReaderPc.finished)
end_reader ends_in_lock s i _ = none

abbrev pub end_at : Bool → State → ℕ → Option ReaderPc → Option State
end_at ends_in_lock s i none = none
end_at ends_in_lock s i (some q) = end_reader ends_in_lock s i q

-- Whether the thread that an event is about was created.
abbrev pub is_created : Program → Event → Bool
is_created p (reader i) = ltb i p.created
is_created p writer_turn = p.writer_created

abbrev pub is_running : MainPc → Bool
is_running (exited status) = false
is_running _ = true

abbrev pub with_threads : Program → Option State → Option Program
with_threads p none = none
with_threads p (some s) = some (record p { threads = s })

pub data Turn : Type 0 where
  thread : Event → Turn
  main_turn : Bool → Turn
  cancel : ℕ → Turn

-- The return of `main` ends all threads.
unfoldable pub program_step : ℕ → System → Turn → Program → Option Program
unfolding main_step step
program_step n y (thread e) p =
    if is_created p e
    then (if is_running p.main_thread
        then with_threads p (step y.prefers_writer e p.threads)
        else none)
    else none
program_step n y (main_turn works) p = main_step n works p p.main_thread
program_step n y (cancel i) p =
    if ltb i p.cancelled
    then (if is_running p.main_thread
        then with_threads p (end_at y.ends_in_lock p.threads i (get_elem? p.threads.readers i))
        else none)
    else none

-- The states that the program comes to from one of them under any schedule.
pub data Runs (n : ℕ) (y : System) (p0 : Program) : Program → Type 0 where
  begin : Runs n y p0 p0
  next : {p q : Program} (t : Turn) → Runs n y p0 p → program_step n y t p ≡ some q → Runs n y p0 q
