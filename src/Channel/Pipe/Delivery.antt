-- ===== src/Channel/Pipe/Delivery.antt =====
-- lab6/pipe_program.c: the message arrives.
use operation_systems_mirea.Base.{ℕ, zero, suc, ◌≡◌, refl, subst, some, arith}
use operation_systems_mirea.Base.Schedule.{Ends, Ends-kept}
use operation_systems_mirea.Channel.Pipe.{
  Setting, State, parent_turn, child_turn, tick, start, step, Reach, begin, later,
}
use operation_systems_mirea.Channel.Pipe.Safety.{IsGiven, child-IsTold}
use operation_systems_mirea.Channel.Pipe.Ending.{
  Turn, parent_after, child_after, after, turn, IsOver, start-IsOver,
}

module _ (k : Setting) where
  Reach-after : (n : ℕ) (s : State) → Reach k s → Reach k (after n s)
  unfolding step
  Reach-after zero s r = subst (λ c. Reach k (record s { clock = c })) (omega arith) r
  Reach-after (suc n) s r =
      subst (λ c. Reach k (record s { clock = c })) (omega arith)
        (later tick (Reach-after n s r) refl)

  Reach-turn : (t : Turn) (s u : State) → Reach k s → turn k t s ≡ some u → Reach k u
  unfolding turn
  Reach-turn (parent_after n works) s u r e = later (parent_turn works) (Reach-after n s r) e
  Reach-turn (child_after n works) s u r e = later (child_turn works) (Reach-after n s r) e

  -- The two are over, and what the child has printed, if anything, is what it was sent, with times that
  -- are late enough.
  abbrev pub IsPrinted : State → Type 0
  IsPrinted s = IsOver s × IsGiven k s.has_written s.read_failed s.fork_time s.timestamp s.printed

  -- Whichever of `pipe`, `fork`, `write` and `read` fail, every schedule of parent and child, in which
  -- each turn comes after any number of seconds, ends with the parent having failed before there was a
  -- child, or with the child having printed and returned and the parent having returned, or having been
  -- ended by SIGPIPE. What the child prints is the whole message if `write` and `read` have succeeded, an
  -- unset buffer if not, and a local time that is five seconds or more after `fork` and, unless `read`
  -- has failed, not before that in the message. Until then some turn can be taken.
  pub start-IsPrinted : (clock : ℕ) → Ends (turn k) IsPrinted (start clock)
  start-IsPrinted clock =
      Ends-kept (turn k) IsOver (Reach k) IsPrinted Reach-turn (λ s o r. (o, (child-IsTold k r).0))
        (begin clock) (start-IsOver k clock)
