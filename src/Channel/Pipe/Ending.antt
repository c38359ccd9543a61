-- ===== src/Channel/Pipe/Ending.antt =====
-- lab6/pipe_program.c: parent and child come to their end, whichever calls fail.
use operation_systems_mirea.Base.{
  ℕ, ◌+◌, ◌<◌, ◌≡◌, ◌≢◌, ◌⊎◌, refl, subst, Bool, true, false, [], ◌∷◌, Option, is_some, none, arith,
  inl, inr,
}
use operation_systems_mirea.Base.Text.{Bytes}
use operation_systems_mirea.Base.Schedule.{
  Kept, Kept-some, Kept-both, not_blocked, CanStep, Ends, Ends-weight,
}
use operation_systems_mirea.Channel.Pipe.Going.{
  is_present, Holds, Going, parent_step-Going, child_step-Going,
}
use operation_systems_mirea.Channel.Pipe.{
  Setting, State, ParentPc, ChildPc, parent_turn, child_turn, start, wait_for, read_pipe,
  parent_step, child_step, step,
}

-- How many steps are left to each.
abbrev parent_left : ParentPc → ℕ
parent_left ParentPc.piping = 6
parent_left ParentPc.forking = 5
parent_left ParentPc.timing = 4
parent_left ParentPc.writing = 3
parent_left ParentPc.closing = 2
parent_left ParentPc.waiting = 1
parent_left ParentPc.exited = 0
parent_left ParentPc.failed = 0
parent_left ParentPc.killed = 0

abbrev child_left : ChildPc → ℕ
child_left ChildPc.absent = 6
child_left ChildPc.closing = 5
child_left (ChildPc.sleeping wake) = 4
child_left ChildPc.reading = 3
child_left ChildPc.timing = 2
child_left ChildPc.printing = 1
child_left ChildPc.exited = 0

abbrev left : State → ℕ
left s = parent_left s.parent + child_left s.child

wait_for-left :
    (s : State) (c : ChildPc) → Kept (λ t. left t < 1 + child_left s.child) (wait_for s c)
wait_for-left s ChildPc.exited = omega arith
wait_for-left s _ = tt

absent_left : (c : ChildPc) → is_present c ≡ false → child_left c ≡ 6
absent_left ChildPc.absent h = refl
absent_left _ h = absurd (ground (arith, h))

parent_step-left :
    (k : Setting) (works : Bool) (s : State) (p : ParentPc)
    → Holds p s.child s.write_open s.printed
    → Kept (λ t. left t < parent_left p + child_left s.child) (parent_step k works s p)
unfolding parent_step
parent_step-left k works s ParentPc.forking h = ground (arith, absent_left s.child h)
parent_step-left k works s ParentPc.waiting h = wait_for-left s s.child
parent_step-left k works s _ h = ground arith

read_pipe-left :
    (s : State) (pipe : Bytes) → Kept (λ t. left t < parent_left s.parent + 3) (read_pipe s pipe)
read_pipe-left s [] = ground arith
read_pipe-left s (c ∷ pipe) = omega arith

child_step-left :
    (works : Bool) (s : State) (c : ChildPc)
    → Kept (λ t. left t < parent_left s.parent + child_left c) (child_step works s c)
unfolding child_step
child_step-left true s ChildPc.reading = read_pipe-left s s.pipe
child_step-left false s ChildPc.reading = omega arith
child_step-left works s _ = ground arith

-- A turn comes after some seconds; the call works or not.
pub data Turn : Type 0 where
  parent_after : ℕ → Bool → Turn
  child_after : ℕ → Bool → Turn

abbrev pub after : ℕ → State → State
after n s = record s { clock = s.clock + n }

unfoldable pub turn : Setting → Turn → State → Option State
unfolding step
turn k (parent_after n works) s = step k (parent_turn works) (after n s)
turn k (child_after n works) s = step k (child_turn works) (after n s)

-- The parent has failed before there was a child; or it has returned, or was ended by SIGPIPE, and the
-- child has printed and returned.
abbrev pub IsOver : State → Type 0
IsOver s =
    ((s.parent ≡ ParentPc.failed) × (is_present s.child ≡ false))
    ⊎ (((s.parent ≡ ParentPc.exited) ⊎ (s.parent ≡ ParentPc.killed))
        × (s.child ≡ ChildPc.exited)
        × (is_some s.printed ≡ true))

turn-Going :
    (k : Setting) (t : Turn) (s : State)
    → Going s
    → Kept (λ u. Going u × (left u < left s)) (turn k t s)
unfolding turn step
turn-Going k (parent_after n works) s (h, d) =
    Kept-both Going (λ u. left u < left s) (turn k (parent_after n works) s)
      (parent_step-Going k works (after n s) s.parent h d)
      (parent_step-left k works (after n s) s.parent h)
turn-Going k (child_after n works) s (h, d) =
    Kept-both Going (λ u. left u < left s) (turn k (child_after n works) s)
      (child_step-Going works (after n s) s.child h) (child_step-left works (after n s) s.child)

module _ (k : Setting) (s : State) where
  abbrev Goes : Type 0
  Goes = (t : Turn) × CanStep (turn k) s t

  parent_goes : (p : ParentPc) → s.parent ≡ p → parent_step k true (after 0 s) p ≢ none → Goes
  unfolding turn step
  parent_goes p at h = (
    parent_after 0 true,
    not_blocked (turn k) s (parent_after 0 true)
        (λ e. h (subst (λ p. parent_step k true (after 0 s) p ≡ none) at e)),
  )

  child_goes : (n : ℕ) (c : ChildPc) → s.child ≡ c → child_step true (after n s) c ≢ none → Goes
  unfolding turn step
  child_goes n c at h = (
    child_after n true,
    not_blocked (turn k) s (child_after n true)
        (λ e. h (subst (λ c. child_step true (after n s) c ≡ none) at e)),
  )

  reading_goes : (t : State) (pipe : Bytes) → t.write_open ≡ false → read_pipe t pipe ≢ none
  reading_goes t [] e = ground (arith, e)
  reading_goes t (c ∷ pipe) e = ground arith

  -- The parent waits.
  waiting_goes :
      s.parent ≡ ParentPc.waiting
      → (c : ChildPc) → s.child ≡ c
      → is_present c ≡ true
      → s.write_open ≡ false
      → Goes
  unfolding parent_step child_step
  waiting_goes at ChildPc.absent there h o = absurd (ground (arith, h))
  waiting_goes at (ChildPc.sleeping wake) there h o =
      child_goes wake (ChildPc.sleeping wake) there (ground arith)
  waiting_goes at ChildPc.reading there h o =
      child_goes 0 ChildPc.reading there (reading_goes (after 0 s) s.pipe o)
  waiting_goes at ChildPc.exited there h o =
      parent_goes ParentPc.waiting at
        (λ e. ground (arith, subst (λ c. wait_for (after 0 s) c ≡ none) there e))
  waiting_goes at _ there h o = child_goes 0 _ there (ground arith)

  going_goes :
      (p : ParentPc) → s.parent ≡ p → Holds p s.child s.write_open s.printed → IsOver s ⊎ Goes
  unfolding parent_step
  going_goes ParentPc.waiting at h = inr (waiting_goes at s.child refl h.0 h.1)
  going_goes ParentPc.exited at h = inl (inr (inl at, h.0, h.1))
  going_goes ParentPc.killed at h = inl (inr (inr at, h.0, h.1))
  going_goes ParentPc.failed at h = inl (inl (at, h))
  going_goes _ at h = inr (parent_goes _ at (ground arith))

pub start-IsOver : (k : Setting) (clock : ℕ) → Ends (turn k) IsOver (start clock)
start-IsOver k clock =
    Ends-weight (turn k) IsOver Going left (λ s (h, d). going_goes k s s.parent refl h)
      (λ t s u p e. Kept-some (λ u. Going u × (left u < left s)) e (turn-Going k t s p)) 13
      (start clock) (omega arith) (refl, tt)
