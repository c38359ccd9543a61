-- ===== src/RwLock.antt =====
-- lab10/main.c: one writer and some readers of a shared buffer, under a read-write lock. A step is
-- what one thread does between two points where others can run.
pub mod Invariant
pub mod Safety
pub mod Progress
pub mod Main
mod Tests
use operation_systems_mirea.Base.{
  ℕ, ◌+◌, ◌-◌, Bool, true, false, ◌&&◌, ◌||◌, List, Option, none, some, ltb, if◌then◌else◌,
  replicate, ◌≡◌,
}
use operation_systems_mirea.Base.Counts.{get_elem?, set}
use operation_systems_mirea.Monitor.{Buffer, initial, record_of, partial}

abbrev pub max_operations : ℕ
max_operations = 20

-- `reader_thread`, by what it does next.
pub data ReaderPc : Type 0 where
  looping : ReaderPc  -- the test of `running`
  locking : ReaderPc  -- `pthread_rwlock_rdlock`
  reading : ReaderPc  -- the `printf` of the buffer
  unlocking : ReaderPc
  finished : ReaderPc

-- `writer_thread`
pub data WriterPc : Type 0 where
  looping : WriterPc  -- the test of `operations`
  locking : WriterPc  -- `pthread_rwlock_wrlock`
  writing : WriterPc  -- before `write_counter++`
  filling : WriterPc  -- in the middle of `snprintf`
  unlocking : WriterPc
  counting : WriterPc  -- before `operations++`
  stopping : WriterPc  -- before `running = 0`
  finished : WriterPc

-- The lock is `read_locks` and `write_locked`.
pub record State : Type 0 where
  pub read_locks : ℕ
  pub write_locked : Bool
  pub running : Bool
  pub write_counter : ℕ
  pub shared_buffer : Buffer
  pub readers : List ReaderPc
  pub writer : WriterPc
  pub operations : ℕ  -- the writer's local variable

abbrev pub start : ℕ → State
start n = record {
  read_locks = 0;
  write_locked = false;
  running = true;
  write_counter = 0;
  shared_buffer = initial;
  readers = replicate n ReaderPc.looping;
  writer = WriterPc.looping;
  operations = 0;
}

abbrev pub move : State → ℕ → ReaderPc → State
move s i p = record s { readers = set s.readers i p }

-- The writer asks for the lock.
abbrev pub asks : WriterPc → Bool
asks WriterPc.locking = true
asks _ = false

-- Whether `pthread_rwlock_rdlock` must wait: for a writer with the lock and, with an implementation
-- that prefers writers, for one that asks for it.
abbrev pub must_wait : Bool → State → Bool
must_wait prefers_writer s = s.write_locked || (prefers_writer && asks s.writer)

-- The next step of reader `i`; none where it is blocked or has returned.
pub reader_step : Bool → State → ℕ → ReaderPc → Option State
reader_step prefers_writer s i looping = some (move s i (if s.running then locking else finished))
reader_step prefers_writer s i locking =
    if must_wait prefers_writer s
    then none
    else some (record (move s i reading) { read_locks = s.read_locks + 1 })
reader_step prefers_writer s i reading = some (move s i unlocking)
reader_step prefers_writer s i unlocking =
    some (record (move s i looping) { read_locks = s.read_locks - 1 })
reader_step prefers_writer s i finished = none

-- The next step of the writer.
pub writer_step : State → WriterPc → Option State
writer_step s looping =
    some (record s { writer = if ltb s.operations max_operations then locking else stopping })
writer_step s locking =
    if ltb 0 s.read_locks || s.write_locked
    then none
    else some (record s { write_locked = true; writer = writing })
writer_step s writing =
    some
      (record s { write_counter = s.write_counter + 1; shared_buffer = partial; writer = filling })
writer_step s filling =
    some (record s { shared_buffer = record_of s.write_counter; writer = unlocking })
writer_step s unlocking = some (record s { write_locked = false; writer = counting })
writer_step s counting = some (record s { operations = s.operations + 1; writer = looping })
writer_step s stopping = some (record s { running = false; writer = finished })
writer_step s finished = none

-- Whose turn it is.
pub data Event : Type 0 where
  reader : ℕ → Event
  writer_turn : Event

unfoldable pub step : Bool → Event → State → Option State
unfolding reader_step writer_step
step prefers_writer (reader i) s = elim (get_elem? s.readers i) [
  | none ↦ none
  | some p ↦ reader_step prefers_writer s i p
]
step prefers_writer writer_turn s = writer_step s s.writer

-- The states that `n` readers and the writer reach under any schedule.
pub data Reach (prefers_writer : Bool) (n : ℕ) : State → Type 0 where
  begin : Reach prefers_writer n (start n)
  later :
      {s t : State} (e : Event)
      → Reach prefers_writer n s
      → step prefers_writer e s ≡ some t
      → Reach prefers_writer n t
