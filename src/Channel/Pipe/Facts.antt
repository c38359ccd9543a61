-- ===== src/Channel/Pipe/Facts.antt =====
-- lab6/pipe_program.c: what holds between any two steps of the parent and the child.
use operation_systems_mirea.Base.{
  ℕ, ◌+◌, ◌≤◌, ◌≡◌, Bool, true, false, [], Option, is_some, none, some, arith, if◌then◌else◌,
}
use operation_systems_mirea.Base.Text.{Bytes}
use operation_systems_mirea.Channel.{sent, received}
use operation_systems_mirea.Channel.Pipe.{Setting, State, ParentPc, ChildPc, start, message}

pub data Phase : Type 0 where
  unmade early stamped : Phase
  written : Bool → Phase

-- The parent without a child, before it takes the time, before it writes, and after that with the
-- answer of `write`.
abbrev pub phase : ParentPc → Bool → Phase
phase ParentPc.piping wrote = unmade
phase ParentPc.forking wrote = unmade
phase ParentPc.failed wrote = unmade
phase ParentPc.timing wrote = early
phase ParentPc.writing wrote = stamped
phase _ wrote = written wrote

-- The child has come to the end of `read`.
abbrev pub has_read : ChildPc → Bool
has_read ChildPc.timing = true
has_read ChildPc.printing = true
has_read ChildPc.exited = true
has_read _ = false

abbrev pub has_ended : ChildPc → Bool
has_ended ChildPc.exited = true
has_ended _ = false

-- Something is printed, if it is to be by now.
abbrev pub IsDone : Bool → Option (Option Bytes × ℕ) → Type 0
IsDone true out = is_some out ≡ true
IsDone false out = Unit {0}

-- The times, by where the child is.
abbrev pub Times : ChildPc → ℕ → ℕ → ℕ → ℕ → Type 0
Times ChildPc.closing clock fork stamp time = fork ≤ clock
Times (ChildPc.sleeping wake) clock fork stamp time = fork + 5 ≤ wake
Times ChildPc.reading clock fork stamp time = fork + 5 ≤ clock
Times ChildPc.timing clock fork stamp time = (fork + 5 ≤ clock) × (stamp ≤ clock)
Times ChildPc.printing clock fork stamp time = (fork + 5 ≤ time) × (stamp ≤ time)
Times _ clock fork stamp time = Unit {0}

module _ (k : Setting) where
  -- The text, which is the message if the parent has written it, and a local time that is late enough.
  abbrev pub IsTold : Bool → ℕ → ℕ → Option (Option Bytes × ℕ) → Type 0
  IsTold wrote fork stamp none = Unit {0}
  IsTold wrote fork stamp (some (text, time)) =
      (text ≡ (if wrote then some (message k stamp) else none)) × (fork + 5 ≤ time) × (stamp ≤ time)

  abbrev pub IsWritten : Bool → ChildPc → ℕ → ℕ → Bytes → Option Bytes → Type 0
  IsWritten true q clock stamp pipe data' =
      (has_read q ≡ false → pipe ≡ sent (message k stamp))
      × (has_read q ≡ true → data' ≡ some (received (sent (message k stamp))))
      × (stamp ≤ clock)
      × (has_read q ≡ false → data' ≡ none)
  IsWritten false q clock stamp pipe data' = (pipe ≡ []) × (data' ≡ none) × (stamp ≤ clock)

  -- The pipe, and what the child has read.
  abbrev pub IsSent : Phase → ChildPc → Bool → ℕ → ℕ → Bytes → Option Bytes → Type 0
  IsSent unmade q end_open clock stamp pipe data' =
      (pipe ≡ []) × (q ≡ ChildPc.absent) × (end_open ≡ true) × (data' ≡ none)
  IsSent early q end_open clock stamp pipe data' =
      (pipe ≡ []) × (has_read q ≡ false) × (end_open ≡ true) × (data' ≡ none)
  IsSent stamped q end_open clock stamp pipe data' =
      (pipe ≡ []) × (has_read q ≡ false) × (end_open ≡ true) × (data' ≡ none) × (stamp ≤ clock)
  IsSent (written wrote) q end_open clock stamp pipe data' =
      IsWritten wrote q clock stamp pipe data'

  pub record Facts (p : ParentPc) (wrote end_open : Bool) (q : ChildPc) (clock fork stamp time : ℕ)
      (pipe : Bytes) (data' : Option Bytes) (out : Option (Option Bytes × ℕ)) : Type 0 where
    pub is_sent : IsSent (phase p wrote) q end_open clock stamp pipe data'
    pub unprinted : has_read q ≡ false → out ≡ none
    pub times : Times q clock fork stamp time
    pub told : IsTold wrote fork stamp out
    pub done : has_ended q ≡ true → is_some out ≡ true

  abbrev pub Inv : State → Type 0
  Inv s =
      Facts s.parent s.has_written s.write_open s.child s.clock s.fork_time s.timestamp s.child_time
        s.pipe s.data_buffer s.printed

  pub Inv-start : (clock : ℕ) → Inv (start clock)
  Inv-start clock = ground arith

  pub Times-stamp :
      (q : ChildPc) (clock fork stamp stamp' time : ℕ)
      → has_read q ≡ false
      → Times q clock fork stamp time
      → Times q clock fork stamp' time
  Times-stamp _ clock fork stamp stamp' time h times = ground arith

  pub Times-tick :
      (q : ChildPc) (clock fork stamp time : ℕ)
      → Times q clock fork stamp time
      → Times q (clock + 1) fork stamp time
  Times-tick _ clock fork stamp time times = ground arith

  pub IsSent-tick :
      (f : Phase) (q : ChildPc) (end_open : Bool) (clock stamp : ℕ) (pipe : Bytes)
      (data' : Option Bytes)
      → IsSent f q end_open clock stamp pipe data'
      → IsSent f q end_open (clock + 1) stamp pipe data'
  IsSent-tick (written true) q end_open clock stamp pipe data' h = ground arith
  IsSent-tick (written false) q end_open clock stamp pipe data' h = ground arith
  IsSent-tick _ q end_open clock stamp pipe data' h = ground arith
