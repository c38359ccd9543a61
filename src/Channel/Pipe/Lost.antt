-- ===== src/Channel/Pipe/Lost.antt =====
-- lab6/pipe_program.c: what holds after a `read` that has failed.
use operation_systems_mirea.Base.{
  ℕ, ◌+◌, ◌≤◌, ◌≡◌, refl, ap, subst, Bool, true, false, Option, none, some, arith, Bool-cases, inl,
  inr,
}
use operation_systems_mirea.Base.Text.{Bytes}
use operation_systems_mirea.Base.Schedule.{Kept}
use operation_systems_mirea.Channel.Pipe.{
  Setting, State, ParentPc, ChildPc, has_exited, write_pipe, wait_for, parent_step, child_step,
}
use operation_systems_mirea.Channel.Pipe.Facts.{
  Phase, phase, has_read, early, stamped, written, unmade, IsSent, Inv,
}
use operation_systems_mirea.Channel.Pipe.Child.{at_child, times_at}

abbrev pub is_forked : ParentPc → Bool
is_forked ParentPc.piping = false
is_forked ParentPc.forking = false
is_forked _ = true

-- The child has nothing to print but its time.
abbrev pub LostAt : ChildPc → ℕ → ℕ → ℕ → Option (Option Bytes × ℕ) → Type 0
LostAt ChildPc.timing clock fork time out = (fork + 5 ≤ clock) × (out ≡ none)
LostAt ChildPc.printing clock fork time out = (fork + 5 ≤ time) × (out ≡ none)
LostAt ChildPc.exited clock fork time out = (t : ℕ) × (fork + 5 ≤ t) × (out ≡ some (none, t))
LostAt _ clock fork time out = ⊥

pub record Lost (s : State) : Type 0 where
  pub failed : s.read_failed ≡ true
  pub unset : s.data_buffer ≡ none
  pub forked : is_forked s.parent ≡ true
  pub at : LostAt s.child s.clock s.fork_time s.child_time s.printed

LostAt-tick :
    (q : ChildPc) (clock fork time : ℕ) (out : Option (Option Bytes × ℕ))
    → LostAt q clock fork time out
    → LostAt q (clock + 1) fork time out
LostAt-tick ChildPc.timing clock fork time out (l, n) = (omega arith, n)
LostAt-tick ChildPc.printing clock fork time out h = h
LostAt-tick ChildPc.exited clock fork time out h = h
LostAt-tick _ clock fork time out h = absurd h

pub tick-Lost : (s : State) → Lost s → Lost (record s { clock = s.clock + 1 })
tick-Lost s h = record {
  failed = h.failed;
  unset = h.unset;
  forked = h.forked;
  at = LostAt-tick s.child s.clock s.fork_time s.child_time s.printed h.at;
}

wait_for-Lost : (s : State) (q : ChildPc) → Lost s → Kept Lost (wait_for s q)
wait_for-Lost s ChildPc.exited h = record {
  failed = h.failed;
  unset = h.unset;
  forked = refl;
  at = h.at;
}
wait_for-Lost s _ h = tt

write_pipe-Lost : (k : Setting) (works : Bool) (s : State) → Lost s → Lost (write_pipe k works s)
write_pipe-Lost k works s h = elim (Bool-cases (has_exited s.child)) [
  | inl e ↦
      rw (e, write_pipe) (record { failed = h.failed; unset = h.unset; forked = refl; at = h.at })
  | inr e ↦
      rw (e, write_pipe) (record { failed = h.failed; unset = h.unset; forked = refl; at = h.at })
]

pub parent_step-Lost :
    (k : Setting) (works : Bool) (s : State) (p : ParentPc)
    → s.parent ≡ p
    → Lost s
    → Kept Lost (parent_step k works s p)
unfolding parent_step
parent_step-Lost k works s ParentPc.piping e h = absurd (ground (arith, e, h.forked))
parent_step-Lost k works s ParentPc.forking e h = absurd (ground (arith, e, h.forked))
parent_step-Lost k works s ParentPc.timing e h = record {
  failed = h.failed;
  unset = h.unset;
  forked = refl;
  at = h.at;
}
parent_step-Lost k works s ParentPc.writing e h = write_pipe-Lost k works s h
parent_step-Lost k works s ParentPc.closing e h = record {
  failed = h.failed;
  unset = h.unset;
  forked = refl;
  at = h.at;
}
parent_step-Lost k works s ParentPc.waiting e h = wait_for-Lost s s.child h
parent_step-Lost k works s _ e h = tt

pub child_step-Lost :
    (works : Bool) (s : State) (q : ChildPc)
    → s.child ≡ q
    → Lost s
    → Kept Lost (child_step works s q)
unfolding child_step
child_step-Lost works s q e h =
    go q (subst (λ q. LostAt q s.clock s.fork_time s.child_time s.printed) e h.at)
  where
    go :
        (q : ChildPc)
        → LostAt q s.clock s.fork_time s.child_time s.printed
        → Kept Lost (child_step works s q)
    go ChildPc.timing l = record { failed = h.failed; unset = h.unset; forked = h.forked; at = l }
    go ChildPc.printing (l, n) = record {
      failed = h.failed;
      unset = h.unset;
      forked = h.forked;
      at = (s.child_time, l, rw (h.unset) refl);
    }
    go ChildPc.exited l = tt
    go _ l = absurd l

module _ (k : Setting) where
  unread_data :
      (f : Phase) (end_open : Bool) (clock stamp : ℕ) (pipe : Bytes) (data' : Option Bytes)
      → IsSent k f ChildPc.reading end_open clock stamp pipe data'
      → data' ≡ none
  unread_data unmade end_open clock stamp pipe data' h = h.3
  unread_data early end_open clock stamp pipe data' h = h.3
  unread_data stamped end_open clock stamp pipe data' h = h.3
  unread_data (written true) end_open clock stamp pipe data' h = h.3 refl
  unread_data (written false) end_open clock stamp pipe data' h = h.1

  forked_at :
      (p : ParentPc) (wrote end_open : Bool) (clock stamp : ℕ) (pipe : Bytes) (data' : Option Bytes)
      → IsSent k (phase p wrote) ChildPc.reading end_open clock stamp pipe data'
      → is_forked p ≡ true
  forked_at ParentPc.piping wrote end_open clock stamp pipe data' h = absurd (ground (arith, h.1))
  forked_at ParentPc.forking wrote end_open clock stamp pipe data' h = absurd (ground (arith, h.1))
  forked_at _ wrote end_open clock stamp pipe data' h = refl

  -- A `read` that fails.
  pub read-Lost :
      (s : State)
      → Inv k s
      → s.child ≡ ChildPc.reading
      → Lost (record s { read_failed = true; child = ChildPc.timing })
  read-Lost s inv at =
      let h = at_child k s ChildPc.reading inv at in
      record {
        failed = refl;
        unset =
            unread_data (phase s.parent s.has_written) s.write_open s.clock s.timestamp s.pipe
              s.data_buffer h;
        forked =
            forked_at s.parent s.has_written s.write_open s.clock s.timestamp s.pipe s.data_buffer
              h;
        at = (times_at k s ChildPc.reading inv at, inv.unprinted (ap has_read at));
      }
