-- ===== src/Channel/Fifo.antt =====
-- lab6/producer.c and lab6/consumer.c: two processes and a named pipe. A step is what one of them does
-- between two system calls; the clock counts the seconds of `time`, and goes on between any two steps.
pub mod Facts
pub mod Producer
pub mod Safety
pub mod Meeting
pub mod Reader
pub mod Ending
pub mod Delivery
use operation_systems_mirea.Base.CString.{c_string}
use operation_systems_mirea.Base.{
  ℕ, ◌+◌, ◌-◌, ◌≡◌, Bool, true, false, ◌||◌, ◌&&◌, List, [], ◌∷◌, ◌++◌, Option, none, some, leb,
  drop, if◌then◌else◌,
}
use operation_systems_mirea.Base.Text.{Bytes, utf8}
use operation_systems_mirea.Channel.{buffer_size, format_message, sent, received}

-- The process number of the producer, and `strftime` of the local time.
pub record Setting : Type 0 where
  pub pid : ℕ
  pub local_time : ℕ → Bytes

-- `main` of producer.c, by the call it makes next.
pub data ProducerPc : Type 0 where
  checking : ProducerPc  -- `access`
  making : ProducerPc  -- `mkfifo`
  opening : ProducerPc  -- `open`
  connecting : ProducerPc  -- inside `open`, waiting for a reader
  timing : ProducerPc  -- `get_current_time_str`
  writing : ProducerPc
  closing : ProducerPc
  sleeping : ℕ → ProducerPc  -- until that time
  unlinking : ProducerPc
  exited : ProducerPc

-- `main` of consumer.c; `failed` is status 1.
pub data ConsumerPc : Type 0 where
  checking : ConsumerPc
  making : ConsumerPc
  opening : ConsumerPc
  connecting : ConsumerPc
  starting : ConsumerPc  -- `start_time = time(NULL)`
  reading : ConsumerPc
  dozing : ConsumerPc  -- before `sleep`
  sleeping : ℕ → ConsumerPc
  timing : ConsumerPc
  ending : ConsumerPc  -- `end_time = time(NULL)` and the lines that are printed
  unlinking : ConsumerPc
  exited : ConsumerPc
  failed : ConsumerPc

-- `fifo` says that the name FIFO_NAME is there, `reader_came` and `writer_came` that a side was opened
-- once, `printed` is the message, the local time and the delay that the consumer prints.
pub record State : Type 0 where
  pub clock : ℕ
  pub fifo : Bool
  pub pipe : Bytes
  pub reader_came : Bool
  pub writer_came : Bool
  pub writer_open : Bool
  pub producer : ProducerPc
  pub file_descriptor : Bool  -- whether it is not -1, in the producer
  pub timestamp : ℕ
  pub consumer : ConsumerPc
  pub start_time : ℕ
  pub received_data : Bytes
  pub current_timestamp : ℕ
  pub printed : Option (Bytes × ℕ × ℕ)

-- Both begin; `there` says whether FIFO_NAME is left from before.
abbrev pub start : Bool → ℕ → State
start there clock = record {
  clock = clock;
  fifo = there;
  pipe = [];
  reader_came = false;
  writer_came = false;
  writer_open = false;
  producer = checking;
  file_descriptor = false;
  timestamp = 0;
  consumer = checking;
  start_time = 0;
  received_data = [];
  current_timestamp = 0;
  printed = none;
}

abbrev pub source : Bytes
source = utf8 "Данные от отправителя"

-- The message of the producer.
abbrev pub message : Setting → ℕ → Bytes
message k timestamp = format_message source k.pid (k.local_time timestamp)

-- The next step of the producer; `works` is the answer of a call that can fail.
pub producer_step : Setting → Bool → State → ProducerPc → Option State
producer_step k works s checking = some (record s { producer = if s.fifo then opening else making })
producer_step k works s making = some (record s { fifo = s.fifo || works; producer = opening })
producer_step k works s opening = some (
    if s.fifo && works
    then record s { writer_came = true; writer_open = true; producer = connecting }
    else record s { producer = timing })
producer_step k works s connecting =
    if s.reader_came then some (record s { file_descriptor = true; producer = timing }) else none
producer_step k works s timing = some (record s { timestamp = s.clock; producer = writing })
producer_step k works s writing = some (record s {
  pipe = if s.file_descriptor then s.pipe ++ sent (message k s.timestamp) else s.pipe;
  producer = closing;
})
producer_step k works s closing =
    some (record s { writer_open = false; producer = sleeping (s.clock + 2) })
producer_step k works s (sleeping wake) =
    if leb wake s.clock then some (record s { producer = unlinking }) else none
producer_step k works s unlinking = some (record s { fifo = false; producer = exited })
producer_step k works s exited = none

-- The end of `read` with an empty pipe, and with some bytes.
abbrev pub read_pipe : State → Bytes → Option State
read_pipe s [] = if s.writer_open then none else some (record s { consumer = failed })
read_pipe s (c ∷ pipe) = some (record s {
  received_data = received (c ∷ pipe);
  pipe = drop buffer_size (c ∷ pipe);
  consumer = dozing;
})

-- The next step of the consumer.
pub consumer_step : Bool → State → ConsumerPc → Option State
consumer_step works s checking = some (record s { consumer = if s.fifo then opening else making })
consumer_step works s making = some (record s { fifo = s.fifo || works; consumer = opening })
consumer_step works s opening = some (
    if s.fifo && works
    then record s { reader_came = true; consumer = connecting }
    else record s { consumer = failed })
consumer_step works s connecting =
    if s.writer_came then some (record s { consumer = starting }) else none
consumer_step works s starting = some (record s { start_time = s.clock; consumer = reading })
consumer_step works s reading = read_pipe s s.pipe
consumer_step works s dozing = some (record s { consumer = sleeping (s.clock + 10) })
consumer_step works s (sleeping wake) =
    if leb wake s.clock then some (record s { consumer = timing }) else none
consumer_step works s timing = some (record s { current_timestamp = s.clock; consumer = ending })
consumer_step works s ending = some (record s {
  printed = some (c_string s.received_data, s.current_timestamp, s.clock - s.start_time);
  consumer = unlinking;
})
consumer_step works s unlinking = some (record s { fifo = false; consumer = exited })
consumer_step works s exited = none
consumer_step works s failed = none

pub data Event : Type 0 where
  producer_turn consumer_turn : Bool → Event
  tick : Event

unfoldable pub step : Setting → Event → State → Option State
unfolding producer_step consumer_step
step k (producer_turn works) s = producer_step k works s s.producer
step k (consumer_turn works) s = consumer_step works s s.consumer
step k tick s = some (record s { clock = s.clock + 1 })

-- The states of the two processes under any schedule.
pub data Reach (k : Setting) : State → Type 0 where
  begin : (there : Bool) (clock : ℕ) → Reach k (start there clock)
  later : {s t : State} (e : Event) → Reach k s → step k e s ≡ some t → Reach k t
