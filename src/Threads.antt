-- ===== src/Threads.antt =====
-- lab8/main.c: `main`, one writer and some readers of a shared array, under a mutex. A step is what
-- one thread does between two points where others can run.
pub mod Invariant
pub mod Steps
pub mod Safety
pub mod Progress
pub mod Ending
mod Tests
use operation_systems_mirea.Base.{
  ℕ, ◌+◌, ◌≡◌, Bool, true, false, List, [], ◌∷◌, ◌++◌, Option, none, some, ltb, if◌then◌else◌,
  length,
}
use operation_systems_mirea.Base.Counts.{get_elem?, set}
use operation_systems_mirea.Monitor.{Buffer, initial, record_of, partial}

abbrev pub num_readers : ℕ
num_readers = 10

-- `reader_thread`, by what it does next.
pub data ReaderPc : Type 0 where
  looping : ReaderPc  -- the test of `program_running`
  locking : ReaderPc
  reading : ReaderPc  -- the `printf` of the array
  unlocking : ReaderPc
  finished : ReaderPc

-- `writer_thread`; `absent` before it is created.
pub data WriterPc : Type 0 where
  absent : WriterPc
  looping : WriterPc
  locking : WriterPc
  writing : WriterPc  -- before `write_counter++`
  filling : WriterPc  -- in the middle of `snprintf`
  unlocking : WriterPc
  finished : WriterPc

-- `main`; the number is the reader that is joined next, the Boolean says that the end is
-- EXIT_SUCCESS.
pub data MainPc : Type 0 where
  creating_writer : MainPc
  creating_readers : MainPc
  sleeping : MainPc
  joining : ℕ → Bool → MainPc
  joining_writer : Bool → MainPc
  destroying : Bool → MainPc
  exited : Bool → MainPc

pub record State : Type 0 where
  pub mutex_exists : Bool
  pub locked : Bool  -- the mutex
  pub program_running : Bool
  pub write_counter : ℕ
  pub shared_array : Buffer
  pub readers : List ReaderPc  -- those that `main` has created
  pub writer : WriterPc
  pub main_thread : MainPc

-- After `pthread_mutex_init` and `strcpy`.
abbrev pub start : State
start = record {
  mutex_exists = true;
  locked = false;
  program_running = true;
  write_counter = 0;
  shared_array = initial;
  readers = [];
  writer = absent;
  main_thread = creating_writer;
}

abbrev pub move : State → ℕ → ReaderPc → State
move s i p = record s { readers = set s.readers i p }

-- The next step of reader `i`; none where it is blocked or has returned.
pub reader_step : State → ℕ → ReaderPc → Option State
reader_step s i looping = some (move s i (if s.program_running then locking else finished))
reader_step s i locking =
    if s.locked then none else some (record (move s i reading) { locked = true })
reader_step s i reading = some (move s i unlocking)
reader_step s i unlocking = some (record (move s i looping) { locked = false })
reader_step s i finished = none

-- The next step of the writer.
pub writer_step : State → WriterPc → Option State
writer_step s absent = none
writer_step s looping = some (record s { writer = if s.program_running then locking else finished })
writer_step s locking =
    if s.locked then none else some (record s { locked = true; writer = writing })
writer_step s writing =
    some
      (record s { write_counter = s.write_counter + 1; shared_array = partial; writer = filling })
writer_step s filling =
    some (record s { shared_array = record_of s.write_counter; writer = unlocking })
writer_step s unlocking = some (record s { locked = false; writer = looping })
writer_step s finished = none

-- `pthread_join` of a reader, or of none if all are joined.
abbrev pub join_reader : State → ℕ → Bool → Option ReaderPc → Option State
join_reader s k success none = some (record s { main_thread = joining_writer success })
join_reader s k success (some ReaderPc.finished) =
    some (record s { main_thread = joining (k + 1) success })
join_reader s k success (some _) = none

abbrev pub join_writer : State → Bool → WriterPc → Option State
join_writer s success WriterPc.finished = some (record s { main_thread = destroying success })
join_writer s success _ = none

-- The next step of `main` with `n` readers to create; `created` is the answer of `pthread_create`.
pub main_step : ℕ → Bool → State → MainPc → Option State
main_step n created s creating_writer =
    if created
    then some (record s { writer = looping; main_thread = creating_readers })
    else some (record s { main_thread = destroying false })
main_step n created s creating_readers =
    if ltb (length s.readers) n
    then (if created
        then some (record s { readers = s.readers ++ looping ∷ [] })
        else some (record s { program_running = false; main_thread = joining 0 false }))
    else some (record s { main_thread = sleeping })
main_step n created s sleeping =
    some (record s { program_running = false; main_thread = joining 0 true })
main_step n created s (joining k success) = join_reader s k success (get_elem? s.readers k)
main_step n created s (joining_writer success) = join_writer s success s.writer
main_step n created s (destroying success) =
    some (record s { mutex_exists = false; main_thread = exited success })
main_step n created s (exited success) = none

-- Whose turn it is.
pub data Event : Type 0 where
  reader : ℕ → Event
  writer_turn : Event
  main_turn : Bool → Event

unfoldable pub step : ℕ → Event → State → Option State
unfolding reader_step writer_step main_step
step n (reader i) s = elim (get_elem? s.readers i) [ none ↦ none | some p ↦ reader_step s i p ]
step n writer_turn s = writer_step s s.writer
step n (main_turn created) s = main_step n created s s.main_thread

-- The states of the program with `n` readers under any schedule.
pub data Reach (n : ℕ) : State → Type 0 where
  begin : Reach n start
  later : {s t : State} (e : Event) → Reach n s → step n e s ≡ some t → Reach n t
