-- ===== src/Exchange.antt =====
-- lab9/main.c: a producer and a consumer that share a buffer under a mutex, and `start_application`.
-- A step is what one thread does between two points where another can run.
pub mod Output
pub mod Progress
mod Tests
use operation_systems_mirea.Base.{
  ℕ, ◌+◌, ◌≡◌, Bool, true, false, List, [], ◌∷◌, Option, none, some, if◌then◌else◌,
}
use operation_systems_mirea.Monitor.{Buffer, initial, record_of, partial}

-- `producer_function`, by what it does next; `absent` before it is created.
pub data ProducerPc : Type 0 where
  absent : ProducerPc
  starting : ProducerPc  -- the first `printf`
  locking : ProducerPc
  writing : ProducerPc  -- before `message_count++`
  filling : ProducerPc  -- in the middle of `snprintf`
  printing : ProducerPc
  unlocking : ProducerPc

-- `consumer_function`
pub data ConsumerPc : Type 0 where
  absent : ConsumerPc
  starting : ConsumerPc
  locking : ConsumerPc
  printing : ConsumerPc
  unlocking : ConsumerPc

-- `start_application`; it never comes to the end, since the producer does not return.
pub data MainPc : Type 0 where
  initializing : MainPc  -- `pthread_mutex_init`
  creating_producer : MainPc
  creating_consumer : MainPc
  announcing : MainPc  -- the `printf` after the creations
  joining : MainPc  -- `pthread_join` of the producer
  failed : MainPc  -- `exit(EXIT_FAILURE)`

-- What the program prints.
pub data Line : Type 0 where
  producer_started : Line
  consumer_started : Line
  running : Line
  created : Buffer → Line
  consumed : Buffer → Line

-- `output` has the last line first.
pub record State : Type 0 where
  pub locked : Bool  -- the mutex
  pub message_count : ℕ
  pub data_buffer : Buffer
  pub producer : ProducerPc
  pub consumer : ConsumerPc
  pub main_thread : MainPc
  pub output : List Line

-- After `strcpy`.
abbrev pub start : State
start = record {
  locked = false;
  message_count = 0;
  data_buffer = initial;
  producer = absent;
  consumer = absent;
  main_thread = initializing;
  output = [];
}

-- The next step of the producer; none where it is blocked or does not exist.
pub producer_step : State → ProducerPc → Option State
producer_step s absent = none
producer_step s starting =
    some (record s { producer = locking; output = producer_started ∷ s.output })
producer_step s locking =
    if s.locked then none else some (record s { locked = true; producer = writing })
producer_step s writing =
    some
      (record s { message_count = s.message_count + 1; data_buffer = partial; producer = filling })
producer_step s filling =
    some (record s { data_buffer = record_of s.message_count; producer = printing })
producer_step s printing =
    some (record s { producer = unlocking; output = created s.data_buffer ∷ s.output })
producer_step s unlocking = some (record s { locked = false; producer = locking })

pub consumer_step : State → ConsumerPc → Option State
consumer_step s absent = none
consumer_step s starting =
    some (record s { consumer = locking; output = consumer_started ∷ s.output })
consumer_step s locking =
    if s.locked then none else some (record s { locked = true; consumer = printing })
consumer_step s printing =
    some (record s { consumer = unlocking; output = consumed s.data_buffer ∷ s.output })
consumer_step s unlocking = some (record s { locked = false; consumer = locking })

-- The next step of `start_application`; `works` is the answer of its call.
pub main_step : Bool → State → MainPc → Option State
main_step works s initializing =
    some (record s { main_thread = if works then creating_producer else failed })
main_step works s creating_producer = some (
    if works
    then record s { producer = starting; main_thread = creating_consumer }
    else record s { main_thread = failed })
main_step works s creating_consumer = some (
    if works
    then record s { consumer = starting; main_thread = announcing }
    else record s { main_thread = failed })
main_step works s announcing =
    some (record s { main_thread = joining; output = running ∷ s.output })
main_step works s joining = none
main_step works s failed = none

pub data Event : Type 0 where
  producer_turn consumer_turn : Event
  main_turn : Bool → Event

abbrev pub has_failed : MainPc → Bool
has_failed failed = true
has_failed _ = false

-- `exit` ends all threads.
unfoldable pub step : Event → State → Option State
unfolding producer_step consumer_step main_step
step producer_turn s = if has_failed s.main_thread then none else producer_step s s.producer
step consumer_turn s = if has_failed s.main_thread then none else consumer_step s s.consumer
step (main_turn works) s = main_step works s s.main_thread

-- The states of the program under any schedule.
pub data Reach : State → Type 0 where
  begin : Reach start
  later : {s t : State} (e : Event) → Reach s → step e s ≡ some t → Reach t
