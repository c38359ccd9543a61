-- ===== src/Monitor.antt =====
-- lab11/main.c: one writer and some readers of a shared buffer, under a mutex and two condition
-- variables. A step is what one thread does between two points where others can run.
pub mod Invariant
pub mod Safety
pub mod Progress
pub mod Lengths
pub mod Main
mod Tests
use operation_systems_mirea.Base.{
  ℕ, ◌+◌, ◌-◌, Bool, true, false, ◌&&◌, ◌||◌, List, [], ◌∷◌, map, Option, none, some, ltb, ◌==◌,
  if◌then◌else◌, replicate, ◌≡◌,
}
use operation_systems_mirea.Base.Counts.{get_elem?, set}

abbrev pub max_operations : ℕ
max_operations = 20

abbrev pub reader_count : ℕ
reader_count = 10

-- `reader_thread`, by what it does next.
pub data ReaderPc : Type 0 where
  looping : ReaderPc  -- the test of `running`
  locking : ReaderPc
  checking : ReaderPc  -- the test of the inner loop, under the mutex
  asleep : ReaderPc  -- in `pthread_cond_wait`
  woken : ReaderPc  -- wants the mutex back
  entered : ReaderPc  -- counted in, before the unlock
  reading : ReaderPc  -- the `printf` of the buffer
  leaving : ReaderPc  -- before the second lock
  counting_out : ReaderPc
  releasing : ReaderPc  -- before the second unlock
  finished : ReaderPc

-- `writer_thread`
pub data WriterPc : Type 0 where
  looping : WriterPc  -- the test of `operations`
  locking : WriterPc
  checking : WriterPc
  asleep : WriterPc
  woken : WriterPc
  claimed : WriterPc  -- `writer_active` is set, before the unlock
  writing : WriterPc  -- before `write_counter++`
  filling : WriterPc  -- in the middle of `snprintf`
  written : WriterPc  -- before the second lock
  finishing : WriterPc
  releasing : WriterPc
  stopping_lock : WriterPc  -- the loop is over
  stopping : WriterPc
  stopping_unlock : WriterPc
  finished : WriterPc

-- What the array holds: the first text, the text of the n-th write, or a part of one.
pub data Buffer : Type 0 where
  initial : Buffer
  record_of : ℕ → Buffer
  partial : Buffer

pub record State : Type 0 where
  pub locked : Bool  -- the mutex
  pub running : Bool
  pub active_readers : ℕ
  pub writer_waiting : Bool
  pub writer_active : Bool
  pub write_counter : ℕ
  pub shared_buffer : Buffer
  pub readers : List ReaderPc
  pub writer : WriterPc
  pub operations : ℕ  -- the writer's local variable

abbrev pub start : ℕ → State
start n = record {
  locked = false;
  running = true;
  active_readers = 0;
  writer_waiting = false;
  writer_active = false;
  write_counter = 0;
  shared_buffer = initial;
  readers = replicate n ReaderPc.looping;
  writer = WriterPc.looping;
  operations = 0;
}

-- `pthread_cond_signal(&cond_write)`: there is one writer to wake.
abbrev pub wake_writer : WriterPc → WriterPc
wake_writer WriterPc.asleep = WriterPc.woken
wake_writer p = p

abbrev pub wake_reader : ReaderPc → ReaderPc
wake_reader ReaderPc.asleep = ReaderPc.woken
wake_reader p = p

-- `pthread_cond_broadcast(&cond_read)`
abbrev pub broadcast : List ReaderPc → List ReaderPc
broadcast = map wake_reader

abbrev pub move : State → ℕ → ReaderPc → State
move s i p = record s { readers = set s.readers i p }

-- Thread `i` takes the mutex, if it is free.
abbrev pub acquire : State → ℕ → ReaderPc → Option State
acquire s i p = if s.locked then none else some (record (move s i p) { locked = true })

abbrev pub release : State → ℕ → ReaderPc → Option State
release s i p = some (record (move s i p) { locked = false })

-- The next step of reader `i`; none where it is blocked or has returned.
pub reader_step : State → ℕ → ReaderPc → Option State
reader_step s i looping = some (move s i (if s.running then locking else finished))
reader_step s i locking = acquire s i checking
reader_step s i checking =
    if s.writer_active || s.writer_waiting
    then release s i asleep
    else some (record (move s i entered) { active_readers = s.active_readers + 1 })
reader_step s i asleep = none
reader_step s i woken = acquire s i checking
reader_step s i entered = release s i reading
reader_step s i reading = some (move s i leaving)
reader_step s i leaving = acquire s i counting_out
reader_step s i counting_out = some (record (move s i releasing) {
  active_readers = s.active_readers - 1;
  writer = if s.active_readers - 1 == 0 && s.writer_waiting then wake_writer s.writer else s.writer;
})
reader_step s i releasing = release s i looping
reader_step s i finished = none

abbrev pub writer_acquire : State → WriterPc → Option State
writer_acquire s p = if s.locked then none else some (record s { locked = true; writer = p })

-- The next step of the writer.
pub writer_step : State → WriterPc → Option State
writer_step s looping =
    some (record s { writer = if ltb s.operations max_operations then locking else stopping_lock })
writer_step s locking = writer_acquire s checking
writer_step s checking =
    if ltb 0 s.active_readers || s.writer_active
    then some (record s { locked = false; writer_waiting = true; writer = asleep })
    else some (record s { writer_active = true; writer = claimed })
writer_step s asleep = none
writer_step s woken =
    if s.locked
    then none
    else some (record s { locked = true; writer_waiting = false; writer = checking })
writer_step s claimed = some (record s { locked = false; writer = writing })
writer_step s writing =
    some
      (record s { write_counter = s.write_counter + 1; shared_buffer = partial; writer = filling })
writer_step s filling =
    some (record s { shared_buffer = record_of s.write_counter; writer = written })
writer_step s written = writer_acquire s finishing
writer_step s finishing = some (record s {
  writer_active = false;
  operations = s.operations + 1;
  writer = releasing;
  readers = if s.writer_waiting then s.readers else broadcast s.readers;
})
writer_step s releasing = some (record s { locked = false; writer = looping })
writer_step s stopping_lock = writer_acquire s stopping
writer_step s stopping =
    some (record s { running = false; readers = broadcast s.readers; writer = stopping_unlock })
writer_step s stopping_unlock = some (record s { locked = false; writer = finished })
writer_step s finished = none

-- Whose turn it is. A wait may also end with no signal.
pub data Event : Type 0 where
  reader : ℕ → Event
  writer_turn : Event
  spurious_reader : ℕ → Event
  spurious_writer : Event

-- `pthread_cond_wait` returns with no signal.
abbrev pub wake_alone : State → ℕ → ReaderPc → Option State
wake_alone s i ReaderPc.asleep = some (move s i ReaderPc.woken)
wake_alone s i _ = none

abbrev pub wake_writer_alone : State → WriterPc → Option State
wake_writer_alone s WriterPc.asleep = some (record s { writer = WriterPc.woken })
wake_writer_alone s _ = none

unfoldable pub step : Event → State → Option State
unfolding reader_step writer_step
step (reader i) s = elim (get_elem? s.readers i) [ none ↦ none | some p ↦ reader_step s i p ]
step writer_turn s = writer_step s s.writer
step (spurious_reader i) s = elim (get_elem? s.readers i) [
  | none ↦ none
  | some p ↦ wake_alone s i p
]
step spurious_writer s = wake_writer_alone s s.writer

-- The states that `n` readers and the writer reach under any schedule.
pub data Reach (n : ℕ) : State → Type 0 where
  begin : Reach n (start n)
  later : {s t : State} (e : Event) → Reach n s → step e s ≡ some t → Reach n t
