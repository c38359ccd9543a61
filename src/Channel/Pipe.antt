-- ===== src/Channel/Pipe.antt =====
-- lab6/pipe_program.c: a parent and its child with a pipe. A step is what one of them does between two
-- system calls; the clock counts the seconds of `time`, and goes on between any two steps.
pub mod Facts
pub mod Parent
pub mod Child
pub mod Lost
pub mod Safety
pub mod Going
pub mod Ending
pub mod Delivery
use operation_systems_mirea.Base.CString.{c_string}
use operation_systems_mirea.Base.{
  ℕ, ◌+◌, ◌≡◌, Bool, true, false, List, [], ◌∷◌, ◌++◌, Option, none, some, leb, drop, if◌then◌else◌,
}
use operation_systems_mirea.Base.Text.{Bytes, utf8}
use operation_systems_mirea.Channel.{buffer_size, format_message, sent, received}

-- The process number of the parent, and `strftime` of the local time.
pub record Setting : Type 0 where
  pub pid : ℕ
  pub local_time : ℕ → Bytes

-- `main` in the parent, by the call it makes next.
pub data ParentPc : Type 0 where
  piping : ParentPc
  forking : ParentPc
  timing : ParentPc  -- `get_current_time_str`
  writing : ParentPc
  closing : ParentPc  -- `close` of the write end
  waiting : ParentPc  -- `wait`
  exited : ParentPc
  failed : ParentPc  -- EXIT_FAILURE
  killed : ParentPc  -- by SIGPIPE

-- `main` in the child; `absent` before `fork`.
pub data ChildPc : Type 0 where
  absent : ChildPc
  closing : ChildPc  -- `close` of its write end
  sleeping : ℕ → ChildPc  -- until that time
  reading : ChildPc
  timing : ChildPc
  printing : ChildPc
  exited : ChildPc

-- `data_buffer` is none as long as nothing was stored in it. `printed` is the message and the local
-- time that the child prints.
pub record State : Type 0 where
  pub clock : ℕ
  pub pipe : Bytes
  pub write_open : Bool  -- the write end of the parent
  pub parent : ParentPc
  pub has_written : Bool  -- whether `write` has succeeded
  pub fork_time : ℕ
  pub timestamp : ℕ
  pub child : ChildPc
  pub data_buffer : Option Bytes
  pub read_failed : Bool  -- whether `read` returned -1
  pub child_time : ℕ
  pub printed : Option (Option Bytes × ℕ)

abbrev pub start : ℕ → State
start clock = record {
  clock = clock;
  pipe = [];
  write_open = true;
  parent = piping;
  has_written = false;
  fork_time = 0;
  timestamp = 0;
  child = absent;
  data_buffer = none;
  read_failed = false;
  child_time = 0;
  printed = none;
}

abbrev pub source : Bytes
source = utf8 "Сообщение от родителя"

-- The message of the parent.
abbrev pub message : Setting → ℕ → Bytes
message k timestamp = format_message source k.pid (k.local_time timestamp)

-- `wait` returns when the child has ended.
abbrev pub wait_for : State → ChildPc → Option State
wait_for s ChildPc.exited = some (record s { parent = exited })
wait_for s _ = none

abbrev pub has_exited : ChildPc → Bool
has_exited ChildPc.exited = true
has_exited _ = false

-- `write`: with no reader left the signal SIGPIPE ends the parent.
abbrev pub write_pipe : Setting → Bool → State → State
write_pipe k works s = if has_exited s.child then record s { parent = killed } else record s {
  pipe = if works then s.pipe ++ sent (message k s.timestamp) else s.pipe;
  has_written = works;
  parent = closing;
}

-- The next step of the parent; `works` is the answer of a call that can fail.
pub parent_step : Setting → Bool → State → ParentPc → Option State
parent_step k works s piping = some (record s { parent = if works then forking else failed })
parent_step k works s forking = some (
    if works
    then record s { fork_time = s.clock; parent = timing; child = closing }
    else record s { parent = failed })
parent_step k works s timing = some (record s { timestamp = s.clock; parent = writing })
parent_step k works s writing = some (write_pipe k works s)
parent_step k works s closing = some (record s { write_open = false; parent = waiting })
parent_step k works s waiting = wait_for s s.child
parent_step k works s exited = none
parent_step k works s failed = none
parent_step k works s killed = none

-- `read` waits while the pipe is empty and open. At its end it stores nothing, which the program does
-- not look at.
abbrev pub read_pipe : State → Bytes → Option State
read_pipe s [] = if s.write_open then none else some (record s { child = timing })
read_pipe s (c ∷ pipe) = some (record s {
  data_buffer = some (received (c ∷ pipe));
  pipe = drop buffer_size (c ∷ pipe);
  child = timing;
})

-- A `read` that fails stores nothing either.
abbrev pub try_read : Bool → State → Option State
try_read works s =
    if works then read_pipe s s.pipe else some (record s { read_failed = true; child = timing })

-- `printf` with `%s`
abbrev pub as_text : Option Bytes → Option Bytes
as_text none = none
as_text (some data') = some (c_string data')

-- The next step of the child; `works` is the answer of `read`.
pub child_step : Bool → State → ChildPc → Option State
child_step works s absent = none
child_step works s closing = some (record s { child = sleeping (s.clock + 5) })
child_step works s (sleeping wake) =
    if leb wake s.clock then some (record s { child = reading }) else none
child_step works s reading = try_read works s
child_step works s timing = some (record s { child_time = s.clock; child = printing })
child_step works s printing =
    some (record s { printed = some (as_text s.data_buffer, s.child_time); child = exited })
child_step works s exited = none

pub data Event : Type 0 where
  parent_turn : Bool → Event
  child_turn : Bool → Event
  tick : Event

unfoldable pub step : Setting → Event → State → Option State
unfolding parent_step child_step
step k (parent_turn works) s = parent_step k works s s.parent
step k (child_turn works) s = child_step works s s.child
step k tick s = some (record s { clock = s.clock + 1 })

-- The states of the two processes under any schedule.
pub data Reach (k : Setting) : State → Type 0 where
  begin : (clock : ℕ) → Reach k (start clock)
  later : {s t : State} (e : Event) → Reach k s → step k e s ≡ some t → Reach k t
