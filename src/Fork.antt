-- ===== src/Fork.antt =====
-- lab3/main.c: a process and its child, with an exit handler and handlers of two signals. A step is
-- what one process does between two points where the other can run or a signal can come.
pub mod Counts
pub mod Prints
pub mod Ends
pub mod Moves
pub mod Output
mod Tests
use operation_systems_mirea.Base.{
  ℕ, ◌≡◌, Bool, true, false, List, [], ◌∷◌, ◌++◌, Option, none, some, ◌==◌, ◌&&◌, ◌||◌,
  if◌then◌else◌,
}

pub data Who : Type 0 where
  the_parent the_child : Who

-- How a process ends: by `exit` with a status, or by a signal.
pub data Ended : Type 0 where
  by_exit : ℕ → Ended
  by_signal : ℕ → Ended

-- What the processes print on standard output.
pub data Line : Type 0 where
  parent_started : Line
  created_child : Line
  child_running : Line
  child_completed : Line
  child_exited : ℕ → Line
  child_terminated : ℕ → Line
  parent_completed : Line
  received_signal : Who → ℕ → Line
  exit_handler : Who → Line

-- `main` in the parent, by what it does next.
pub data ParentPc : Type 0 where
  registering : ParentPc  -- `atexit`
  setting_interrupt : ParentPc  -- `signal`
  setting_terminate : ParentPc  -- `sigaction`
  announcing : ParentPc
  forking : ParentPc
  naming_child : ParentPc  -- the `printf` of the child's number
  waiting : ParentPc  -- `wait`
  reporting : Ended → ParentPc
  completing : ParentPc
  returning : ParentPc
  ended : Ended → ParentPc

-- `main` in the child; `absent` before `fork`.
pub data ChildPc : Type 0 where
  absent : ChildPc
  announcing : ChildPc
  sleeping : ChildPc
  completing : ChildPc
  exiting : ChildPc
  ended : Ended → ChildPc

-- `terminal` says that standard output is one, so that a line is written at once; if not, it stays in
-- the buffer of its process. `out` and the buffers have the last line first.
pub record State : Type 0 where
  pub terminal : Bool
  pub out : List Line
  pub parent : ParentPc
  pub parent_buffer : List Line
  pub child : ChildPc
  pub child_buffer : List Line
  pub is_registered : Bool  -- the exit handler
  pub catches_interrupt : Bool
  pub catches_terminate : Bool

abbrev pub start : Bool → State
start terminal = record {
  terminal = terminal;
  out = [];
  parent = registering;
  parent_buffer = [];
  child = absent;
  child_buffer = [];
  is_registered = false;
  catches_interrupt = false;
  catches_terminate = false;
}

-- Where a line goes: a terminal takes it at once, and else it stays in the buffer.
abbrev pub to_out : Bool → Line → List Line → List Line
to_out true line out = line ∷ out
to_out false line out = out

abbrev pub to_buffer : Bool → Line → List Line → List Line
to_buffer true line buffer = buffer
to_buffer false line buffer = line ∷ buffer

-- `printf` in the parent, which then goes on to a point.
abbrev pub parent_prints : Line → ParentPc → State → State
parent_prints line p s = record s {
  out = to_out s.terminal line s.out;
  parent_buffer = to_buffer s.terminal line s.parent_buffer;
  parent = p;
}

abbrev pub child_prints : Line → ChildPc → State → State
child_prints line q s = record s {
  out = to_out s.terminal line s.out;
  child_buffer = to_buffer s.terminal line s.child_buffer;
  child = q;
}

-- What `process_exit_handler` prints, if it is registered.
abbrev pub exit_lines : Bool → Who → List Line
exit_lines true who = exit_handler who ∷ []
exit_lines false who = []

-- `exit`: the handler, and then the buffer is written.
abbrev pub parent_exits : ℕ → State → State
parent_exits status s = record s {
  out = exit_lines s.is_registered the_parent ++ s.parent_buffer ++ s.out;
  parent_buffer = [];
  parent = ended (by_exit status);
}

abbrev pub child_exits : ℕ → State → State
child_exits status s = record s {
  out = exit_lines s.is_registered the_child ++ s.child_buffer ++ s.out;
  child_buffer = [];
  child = ended (by_exit status);
}

-- WIFEXITED and WIFSIGNALED; `wait` reports nothing else.
abbrev pub report : Ended → Line
report (by_exit status) = child_exited status
report (by_signal number) = child_terminated number

abbrev pub wait_for : State → ChildPc → Option State
wait_for s (ended e) = some (record s { parent = reporting e })
wait_for s _ = none

-- The next step of the parent; `works` is the answer of its call.
pub parent_step : Bool → State → ParentPc → Option State
parent_step works s registering = some (
    if works
    then record s { is_registered = true; parent = setting_interrupt }
    else parent_exits 1 s)
parent_step works s setting_interrupt = some (
    if works
    then record s { catches_interrupt = true; parent = setting_terminate }
    else parent_exits 1 s)
parent_step works s setting_terminate =
    some (
      if works
      then record s { catches_terminate = true; parent = announcing }
      else parent_exits 1 s)
parent_step works s announcing = some (parent_prints parent_started forking s)
parent_step works s forking = some (
    if works
    then record s { child = announcing; child_buffer = s.parent_buffer; parent = naming_child }
    else parent_exits 1 s)
parent_step works s naming_child = some (parent_prints created_child waiting s)
parent_step works s waiting = if works then wait_for s s.child else some (parent_exits 1 s)
parent_step works s (reporting e) = some (parent_prints (report e) completing s)
parent_step works s completing = some (parent_prints parent_completed returning s)
parent_step works s returning = some (parent_exits 0 s)
parent_step works s (ended e) = none

pub child_step : State → ChildPc → Option State
child_step s absent = none
child_step s announcing = some (child_prints child_running sleeping s)
child_step s sleeping = some (record s { child = completing })
child_step s completing = some (child_prints child_completed exiting s)
child_step s exiting = some (child_exits 42 s)
child_step s (ended e) = none

-- Whether a signal has a handler: SIGINT is 2 and SIGTERM is 15.
abbrev pub catches : State → ℕ → Bool
catches s number = (number == 2 && s.catches_interrupt) || (number == 15 && s.catches_terminate)

-- A signal that is to end the parent: `sigint_custom_handler` or `sigterm_custom_handler`, or the
-- end at once, with what is in the buffer lost.
abbrev pub signal_parent : ℕ → State → ParentPc → Option State
signal_parent number s (ended e) = none
signal_parent number s p = some (
    if catches s number
    then parent_exits 0 (parent_prints (received_signal the_parent number) p s)
    else record s { parent = ended (by_signal number); parent_buffer = [] })

abbrev pub signal_child : ℕ → State → ChildPc → Option State
signal_child number s absent = none
signal_child number s (ended e) = none
signal_child number s q = some (
    if catches s number
    then child_exits 0 (child_prints (received_signal the_child number) q s)
    else record s { child = ended (by_signal number); child_buffer = [] })

pub data Event : Type 0 where
  parent_turn : Bool → Event
  child_turn : Event
  parent_signal child_signal : ℕ → Event

unfoldable pub step : Event → State → Option State
unfolding parent_step child_step
step (parent_turn works) s = parent_step works s s.parent
step child_turn s = child_step s s.child
step (parent_signal number) s = signal_parent number s s.parent
step (child_signal number) s = signal_child number s s.child

-- The states of the two processes under any schedule.
pub data Reach (terminal : Bool) : State → Type 0 where
  begin : Reach terminal (start terminal)
  later : {s t : State} (e : Event) → Reach terminal s → step e s ≡ some t → Reach terminal t
