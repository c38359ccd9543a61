-- ===== src/Channel/Pipe/Parent.antt =====
-- lab6/pipe_program.c: the steps of the parent.
use operation_systems_mirea.Base.{
  ◌≡◌, refl, ap, ◌∙◌, subst, Bool, true, false, none, arith, if◌then◌else◌,
}
use operation_systems_mirea.Base.Schedule.{Kept}
use operation_systems_mirea.Channel.Pipe.{
  Setting, State, ParentPc, ChildPc, has_exited, write_pipe, wait_for, parent_step,
}
use operation_systems_mirea.Channel.Pipe.Facts.{phase, has_read, unmade, IsSent, Inv, Times-stamp}

module _ (k : Setting) where
  -- What is known where the parent is.
  pub at_parent :
      (s : State) (p : ParentPc)
      → Inv k s
      → s.parent ≡ p
      → IsSent k
          (phase p s.has_written)
          s.child
          s.write_open
          s.clock
          s.timestamp
          s.pipe
          s.data_buffer
  at_parent s p inv at =
      subst
        (λ q.
          IsSent k (phase q s.has_written) s.child s.write_open s.clock s.timestamp s.pipe
            s.data_buffer)
        at inv.is_sent

  -- A step of the parent that leaves the rest as it is.
  pub same_phase :
      (s : State) (p : ParentPc)
      → Inv k s
      → phase s.parent s.has_written ≡ phase p s.has_written
      → Inv k (record s { parent = p })
  same_phase s p inv e = record {
    is_sent =
        subst (λ f. IsSent k f s.child s.write_open s.clock s.timestamp s.pipe s.data_buffer) e
          inv.is_sent;
    unprinted = inv.unprinted;
    times = inv.times;
    told = inv.told;
    done = inv.done;
  }

  pub phase-piping :
      (works wrote : Bool)
      → unmade ≡ phase (if works then ParentPc.forking else ParentPc.failed) wrote
  phase-piping true wrote = refl
  phase-piping false wrote = refl

  pub forked :
      (s : State)
      → Inv k s
      → s.parent ≡ ParentPc.forking
      → Inv k (record s { fork_time = s.clock; parent = ParentPc.timing; child = ChildPc.closing })
  forked s inv at =
      let (p, c, o, d) = at_parent s ParentPc.forking inv at in
      let out : s.printed ≡ none = inv.unprinted (ap has_read c) in
      record {
        is_sent = (p, refl, o, d);
        unprinted = λ u. out;
        times = ground arith;
        told = rw out tt;
        done = λ x. absurd (ground (arith, x));
      }

  pub take_time :
      (s : State)
      → Inv k s
      → s.parent ≡ ParentPc.timing
      → Inv k (record s { timestamp = s.clock; parent = ParentPc.writing })
  take_time s inv at =
      let (p, c, o, d) = at_parent s ParentPc.timing inv at in
      record {
        is_sent = (p, c, o, d, ground arith);
        unprinted = inv.unprinted;
        times =
            Times-stamp k s.child s.clock s.fork_time s.timestamp s.clock s.child_time c inv.times;
        told = rw (inv.unprinted c) tt;
        done = inv.done;
      }

  has_exited-read : (q : ChildPc) → has_read q ≡ false → has_exited q ≡ false
  has_exited-read ChildPc.exited h = absurd (ground arith)
  has_exited-read _ h = ground arith

  pub write :
      (s : State) (works : Bool)
      → Inv k s
      → s.parent ≡ ParentPc.writing
      → Inv k (write_pipe k works s)
  write s true inv at =
      let (p, c, o, d, l) = at_parent s ParentPc.writing inv at in
      rw (has_exited-read s.child c, write_pipe)
        (record {
          is_sent = ((λ u. rw p refl), (λ u. absurd (ground arith)), l, λ u. d);
          unprinted = inv.unprinted;
          times = inv.times;
          told = rw (inv.unprinted c) tt;
          done = inv.done;
        })
  write s false inv at =
      let (p, c, o, d, l) = at_parent s ParentPc.writing inv at in
      rw (has_exited-read s.child c, write_pipe)
        (record {
          is_sent = (p, d, l);
          unprinted = inv.unprinted;
          times = inv.times;
          told = rw (inv.unprinted c) tt;
          done = inv.done;
        })

  pub wait_for-Inv :
      (s : State) (q : ChildPc)
      → Inv k s
      → s.parent ≡ ParentPc.waiting
      → Kept (Inv k) (wait_for s q)
  wait_for-Inv s ChildPc.exited inv at =
      same_phase s ParentPc.exited inv (ap (λ p. phase p s.has_written) at)
  wait_for-Inv s _ inv at = tt

  pub parent_step-Inv :
      (works : Bool) (s : State) (p : ParentPc)
      → Inv k s
      → s.parent ≡ p
      → Kept (Inv k) (parent_step k works s p)
  unfolding parent_step
  parent_step-Inv works s ParentPc.piping inv at =
      same_phase s (if works then ParentPc.forking else ParentPc.failed) inv
        (ap (λ p. phase p s.has_written) at ∙ phase-piping works s.has_written)
  parent_step-Inv true s ParentPc.forking inv at = forked s inv at
  parent_step-Inv false s ParentPc.forking inv at =
      same_phase s ParentPc.failed inv (ap (λ p. phase p s.has_written) at)
  parent_step-Inv works s ParentPc.timing inv at = take_time s inv at
  parent_step-Inv works s ParentPc.writing inv at = write s works inv at
  parent_step-Inv works s ParentPc.closing inv at = record {
    is_sent = at_parent s ParentPc.closing inv at;
    unprinted = inv.unprinted;
    times = inv.times;
    told = inv.told;
    done = inv.done;
  }
  parent_step-Inv works s ParentPc.waiting inv at = wait_for-Inv s s.child inv at
  parent_step-Inv works s ParentPc.exited inv at = tt
  parent_step-Inv works s ParentPc.failed inv at = tt
  parent_step-Inv works s ParentPc.killed inv at = tt
