-- ===== src/Semaphore.antt =====
-- lab9/sender.c and lab9/receiver.c: two processes that share memory under a System V semaphore. A
-- step is what one of them does between two system calls; a signal can come between any two.
pub mod Invariant
pub mod Safety
pub mod Blocking
pub mod Message
mod Tests
use operation_systems_mirea.Base.{
  ℕ, ◌+◌, ◌-◌, Bool, true, false, Option, none, some, ◌==◌, if◌then◌else◌, ◌≡◌,
}
use operation_systems_mirea.Monitor.{Buffer, initial, record_of, partial}

-- `main` of sender.c, by the call it makes next.
pub data SenderPc : Type 0 where
  creating_key : SenderPc  -- `open` with O_CREAT | O_EXCL
  getting_key : SenderPc  -- `ftok`
  getting_memory : SenderPc  -- `shmget`
  storing_memory : SenderPc  -- before the number that `shmget` returned is in `shm_identifier`
  attaching : SenderPc  -- `shmat`
  getting_semaphore : SenderPc  -- `semget`
  storing_semaphore : SenderPc  -- the same for `semget` and `sem_identifier`
  setting_semaphore : SenderPc  -- `semctl` with SETVAL
  locking : SenderPc
  writing : SenderPc  -- before `strncpy`
  filling : SenderPc  -- in the middle of `strncpy`
  unlocking : SenderPc
  exited : ℕ → SenderPc

-- `main` of receiver.c
pub data ReceiverPc : Type 0 where
  getting_key : ReceiverPc
  getting_memory : ReceiverPc
  attaching : ReceiverPc
  getting_semaphore : ReceiverPc
  locking : ReceiverPc
  copying : ReceiverPc  -- before `strncpy`
  printing : ReceiverPc
  unlocking : ReceiverPc
  exited : ℕ → ReceiverPc

-- What the system keeps, and the two processes. `shm` and `sem` say that the segment and the
-- semaphore can be found by the key; an attached segment can be used also when it is removed. The two
-- identifiers of the sender are 0 until they are stored, which is the number of neither.
pub record State : Type 0 where
  pub key_file : Bool
  pub shm : Bool
  pub memory : Buffer
  pub sem : Option ℕ
  pub shm_identifier : Bool  -- whether it is the number of the segment
  pub sem_identifier : Bool
  pub sender : SenderPc
  pub message_count : ℕ
  pub receiver : ReceiverPc
  pub received_data : Buffer

-- Nothing is there and both begin; a new segment holds zeros and a new semaphore is 0.
abbrev pub start : State
start = record {
  key_file = false;
  shm = false;
  memory = initial;
  sem = none;
  shm_identifier = false;
  sem_identifier = false;
  sender = creating_key;
  message_count = 0;
  receiver = getting_key;
  received_data = initial;
}

-- `semop` with `lock_op`: it waits at 0, and fails where the semaphore is removed. Its result is not
-- looked at.
abbrev pub is_blocked : Option ℕ → Bool
is_blocked none = false
is_blocked (some n) = n == 0

abbrev pub lower : Option ℕ → Option ℕ
lower none = none
lower (some n) = some (n - 1)

-- `semop` with `unlock_op`
abbrev pub raise : Option ℕ → Option ℕ
raise none = none
raise (some n) = some (n + 1)

abbrev pub is_none : Option ℕ → Bool
is_none none = true
is_none (some n) = false

-- `handle_error` ends the process with status 1.
abbrev pub sender_fails : State → State
sender_fails s = record s { sender = SenderPc.exited 1 }

abbrev pub receiver_fails : State → State
receiver_fails s = record s { receiver = ReceiverPc.exited 1 }

-- The next step of the sender; `works` is the answer of a call that can fail for other reasons than
-- those that the state shows.
pub sender_step : Bool → State → SenderPc → Option State
sender_step works s creating_key = some (
    if s.key_file
    then sender_fails s
    else if works
    then record s { key_file = true; sender = getting_key }
    else sender_fails s)
sender_step works s getting_key =
    some (if works then record s { sender = getting_memory } else sender_fails s)
sender_step works s getting_memory = some (
    if s.shm
    then sender_fails s
    else if works
    then record s { shm = true; memory = initial; sender = storing_memory }
    else sender_fails s)
sender_step works s storing_memory = some (record s { shm_identifier = true; sender = attaching })
sender_step works s attaching =
    some (if works then record s { sender = getting_semaphore } else sender_fails s)
sender_step works s getting_semaphore = some (
    if is_none s.sem
    then (if works then record s { sem = some 0; sender = storing_semaphore } else sender_fails s)
    else sender_fails s)
sender_step works s storing_semaphore =
    some (record s { sem_identifier = true; sender = setting_semaphore })
sender_step works s setting_semaphore =
    some (if works then record s { sem = some 1; sender = locking } else sender_fails s)
sender_step works s locking =
    if is_blocked s.sem then none else some (record s { sem = lower s.sem; sender = writing })
sender_step works s writing =
    some (record s { message_count = s.message_count + 1; memory = partial; sender = filling })
sender_step works s filling =
    some (record s { memory = record_of s.message_count; sender = unlocking })
sender_step works s unlocking = some (record s { sem = raise s.sem; sender = locking })
sender_step works s (exited status) = none

-- `cleanup_on_exit` of sender.c: the segment and the semaphore of the identifiers and the key file are
-- removed.
abbrev pub sender_cleanup : State → State
sender_cleanup s = record s {
  key_file = false;
  shm = if s.shm_identifier then false else s.shm;
  sem = if s.sem_identifier then none else s.sem;
  sender = SenderPc.exited 0;
}

-- The next step of the receiver.
pub receiver_step : Bool → State → ReceiverPc → Option State
receiver_step works s getting_key = some (
    if s.key_file
    then (if works then record s { receiver = getting_memory } else receiver_fails s)
    else receiver_fails s)
receiver_step works s getting_memory =
    some (if s.shm then record s { receiver = attaching } else receiver_fails s)
receiver_step works s attaching =
    some (if works then record s { receiver = getting_semaphore } else receiver_fails s)
receiver_step works s getting_semaphore =
    some (if is_none s.sem then receiver_fails s else record s { receiver = locking })
receiver_step works s locking =
    if is_blocked s.sem then none else some (record s { sem = lower s.sem; receiver = copying })
receiver_step works s copying = some (record s { received_data = s.memory; receiver = printing })
receiver_step works s printing = some (record s { receiver = unlocking })
receiver_step works s unlocking = some (record s { sem = raise s.sem; receiver = locking })
receiver_step works s (exited status) = none

-- A signal ends a process that has not ended; the receiver only detaches the segment.
abbrev pub signal_sender : State → SenderPc → Option State
signal_sender s (SenderPc.exited status) = none
signal_sender s _ = some (sender_cleanup s)

abbrev pub signal_receiver : State → ReceiverPc → Option State
signal_receiver s (ReceiverPc.exited status) = none
signal_receiver s _ = some (record s { receiver = ReceiverPc.exited 0 })

pub data Event : Type 0 where
  sender_turn : Bool → Event
  receiver_turn : Bool → Event
  sender_signal : Event
  receiver_signal : Event

unfoldable pub step : Event → State → Option State
unfolding sender_step receiver_step
step (sender_turn works) s = sender_step works s s.sender
step (receiver_turn works) s = receiver_step works s s.receiver
step sender_signal s = signal_sender s s.sender
step receiver_signal s = signal_receiver s s.receiver

-- The states that are reached from a state under any schedule.
pub data Reach (s0 : State) : State → Type 0 where
  begin : Reach s0 s0
  later : {s t : State} (e : Event) → Reach s0 s → step e s ≡ some t → Reach s0 t
