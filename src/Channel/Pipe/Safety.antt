-- ===== src/Channel/Pipe/Safety.antt =====
-- lab6/pipe_program.c: the steps of the child, and what it prints.
use operation_systems_mirea.Base.{
  not, ◌&&◌, ◌⊎◌, none, some, [], ◌∷◌, false, if◌then◌else◌, ℕ, ◌+◌, ◌≤◌, ◌≡◌, refl, Bool, true,
  false, Option, is_some, leb, arith, Bool-cases, inl, inr,
}
use operation_systems_mirea.Base.Text.{Bytes}
use operation_systems_mirea.Base.Schedule.{Kept, Kept-some, Kept-map, Kept-both}
use operation_systems_mirea.Channel.Pipe.{
  Setting, State, ParentPc, ChildPc, message, wait_for, read_pipe, parent_step, Event, parent_turn,
  child_turn, tick, child_step, step, Reach, begin, later,
}
use operation_systems_mirea.Channel.Pipe.Lost.{
  Lost, LostAt, tick-Lost, parent_step-Lost, child_step-Lost, read-Lost,
}
use operation_systems_mirea.Channel.Pipe.Facts.{
  phase, IsTold, IsDone, has_ended, Inv, Inv-start, Times-tick, IsSent-tick,
}
use operation_systems_mirea.Channel.Pipe.Parent.{parent_step-Inv}
use operation_systems_mirea.Channel.Pipe.Child.{
  at_child, times_at, goes_on, IsSent-child, read_pipe-Inv, text_at,
}

wait_for_sound :
    (s : State) (q : ChildPc)
    → s.read_failed ≡ false
    → Kept (λ t. t.read_failed ≡ false) (wait_for s q)
wait_for_sound s ChildPc.exited e = e
wait_for_sound s _ e = tt

read_pipe_sound :
    (s : State) (pipe : Bytes)
    → s.read_failed ≡ false
    → Kept (λ t. t.read_failed ≡ false) (read_pipe s pipe)
read_pipe_sound s [] e = ground arith
read_pipe_sound s (c ∷ pipe) e = e

module _ (k : Setting) where
  child_step-Inv :
      (s : State) (q : ChildPc) → Inv k s → s.child ≡ q → Kept (Inv k) (child_step true s q)
  unfolding child_step
  child_step-Inv s ChildPc.absent inv at = tt
  child_step-Inv s ChildPc.closing inv at =
      let t : s.fork_time ≤ s.clock = times_at k s ChildPc.closing inv at in
      goes_on k s ChildPc.closing (ChildPc.sleeping (s.clock + 5)) inv at refl
        (λ e. ground (arith, e)) refl (omega arith)
  child_step-Inv s (ChildPc.sleeping wake) inv at =
      let t : s.fork_time + 5 ≤ wake = times_at k s (ChildPc.sleeping wake) inv at in
      elim (Bool-cases (leb wake s.clock)) [
        | inl e ↦ rw e (
            goes_on k s (ChildPc.sleeping wake) ChildPc.reading inv at refl (λ x. ground (arith, x))
              refl (ground arith))
        | inr e ↦ rw e tt
      ]
  child_step-Inv s ChildPc.reading inv at = read_pipe-Inv k s s.pipe inv at refl
  child_step-Inv s ChildPc.timing inv at = record {
    is_sent =
        IsSent-child k (phase s.parent s.has_written) ChildPc.timing ChildPc.printing s.write_open
          s.clock s.timestamp s.pipe s.data_buffer refl (λ e. ground (arith, e))
          (at_child k s ChildPc.timing inv at);
    unprinted = λ u. absurd (ground (arith, u));
    times = times_at k s ChildPc.timing inv at;
    told = inv.told;
    done = λ x. absurd (ground (arith, x));
  }
  child_step-Inv s ChildPc.printing inv at =
      let h = at_child k s ChildPc.printing inv at in
      let (f, t) = times_at k s ChildPc.printing inv at in
      record {
        is_sent =
            IsSent-child k (phase s.parent s.has_written) ChildPc.printing ChildPc.exited
              s.write_open s.clock s.timestamp s.pipe s.data_buffer refl (λ e. ground (arith, e)) h;
        unprinted = λ u. absurd (ground (arith, u));
        times = tt;
        done = λ x. refl;
        told = (
          text_at k s.parent s.has_written s.write_open s.clock s.timestamp s.pipe s.data_buffer h,
          f,
          t,
        );
      }
  child_step-Inv s ChildPc.exited inv at = tt

  -- As long as no `read` has failed.
  abbrev IsSound : State → Type 0
  IsSound s = Inv k s × (s.read_failed ≡ false)

  abbrev Knows : State → Type 0
  Knows s = IsSound s ⊎ Lost s

  parent_step_sound :
      (works : Bool) (s : State) (p : ParentPc)
      → s.read_failed ≡ false
      → Kept (λ t. t.read_failed ≡ false) (parent_step k works s p)
  unfolding parent_step
  parent_step_sound works s ParentPc.waiting e = wait_for_sound s s.child e
  parent_step_sound works s _ e = ground arith

  child_step_sound :
      (s : State) (q : ChildPc)
      → s.read_failed ≡ false
      → Kept (λ t. t.read_failed ≡ false) (child_step true s q)
  unfolding child_step
  child_step_sound s ChildPc.reading e = read_pipe_sound s s.pipe e
  child_step_sound s _ e = ground arith

  works-Knows :
      (s : State) (q : ChildPc) → IsSound s → s.child ≡ q → Kept Knows (child_step true s q)
  works-Knows s q (inv, e) at =
      Kept-map (λ t h. inl h) (child_step true s q)
        (Kept-both (Inv k) (λ t. t.read_failed ≡ false) (child_step true s q)
          (child_step-Inv s q inv at) (child_step_sound s q e))

  child_step-Knows :
      (works : Bool) (s : State) (q : ChildPc)
      → IsSound s
      → s.child ≡ q
      → Kept Knows (child_step works s q)
  unfolding child_step
  child_step-Knows true s q h at = works-Knows s q h at
  child_step-Knows false s ChildPc.reading (inv, e) at = inr (read-Lost k s inv at)
  child_step-Knows false s ChildPc.absent h at = works-Knows s ChildPc.absent h at
  child_step-Knows false s ChildPc.closing h at = works-Knows s ChildPc.closing h at
  child_step-Knows false s (ChildPc.sleeping wake) h at = works-Knows s (ChildPc.sleeping wake) h at
  child_step-Knows false s ChildPc.timing h at = works-Knows s ChildPc.timing h at
  child_step-Knows false s ChildPc.printing h at = works-Knows s ChildPc.printing h at
  child_step-Knows false s ChildPc.exited h at = works-Knows s ChildPc.exited h at

  step-Knows : (e : Event) (s : State) → Knows s → Kept Knows (step k e s)
  unfolding step
  step-Knows (parent_turn works) s (inl (inv, e)) =
      Kept-map (λ t h. inl h) (parent_step k works s s.parent)
        (Kept-both (Inv k) (λ t. t.read_failed ≡ false) (parent_step k works s s.parent)
          (parent_step-Inv k works s s.parent inv refl) (parent_step_sound works s s.parent e))
  step-Knows (parent_turn works) s (inr h) =
      Kept-map (λ t h. inr h) (parent_step k works s s.parent)
        (parent_step-Lost k works s s.parent refl h)
  step-Knows (child_turn works) s (inl h) = child_step-Knows works s s.child h refl
  step-Knows (child_turn works) s (inr h) =
      Kept-map (λ t h. inr h) (child_step works s s.child) (child_step-Lost works s s.child refl h)
  step-Knows tick s (inr h) = inr (tick-Lost s h)
  step-Knows tick s (inl (inv, e)) = inl (
    record {
      is_sent =
          IsSent-tick k (phase s.parent s.has_written) s.child s.write_open s.clock s.timestamp
            s.pipe s.data_buffer inv.is_sent;
      unprinted = inv.unprinted;
      times = Times-tick k s.child s.clock s.fork_time s.timestamp s.child_time inv.times;
      told = inv.told;
      done = inv.done;
    },
    e,
  )

  Reach-Knows : {s : State} → Reach k s → Knows s
  Reach-Knows (begin clock) = inl (Inv-start k clock, refl)
  Reach-Knows (later e r p) = Kept-some Knows p (step-Knows e _ (Reach-Knows r))

  -- The text, which is the message if the parent has written it and the child has read, and a local time
  -- that is late enough.
  abbrev pub IsGiven : Bool → Bool → ℕ → ℕ → Option (Option Bytes × ℕ) → Type 0
  IsGiven wrote failed fork stamp none = Unit {0}
  IsGiven wrote failed fork stamp (some (text, time)) =
      (text ≡ (if wrote && not failed then some (message k stamp) else none))
      × (fork + 5 ≤ time)
      × (failed ≡ false → stamp ≤ time)

  sound-IsGiven :
      (wrote failed : Bool) (fork stamp : ℕ) (out : Option (Option Bytes × ℕ))
      → failed ≡ false
      → IsTold k wrote fork stamp out
      → IsGiven wrote failed fork stamp out
  sound-IsGiven wrote failed fork stamp none e h = tt
  sound-IsGiven true failed fork stamp (some (text, time)) e h = (rw (e) h.0, h.1, λ _. h.2)
  sound-IsGiven false failed fork stamp (some (text, time)) e h = (h.0, h.1, λ _. h.2)

  unset_text :
      (wrote failed : Bool) (m : Bytes)
      → failed ≡ true
      → none ≡ (if wrote && not failed then some m else none)
  unset_text true failed m e = rw (e) refl
  unset_text false failed m e = refl

  lost-IsGiven :
      (s : State) (q : ChildPc)
      → s.read_failed ≡ true
      → LostAt q s.clock s.fork_time s.child_time s.printed
      → IsGiven s.has_written s.read_failed s.fork_time s.timestamp s.printed
        × IsDone (has_ended q) s.printed
  lost-IsGiven s ChildPc.timing e (l, n) = rw (n) (tt, tt)
  lost-IsGiven s ChildPc.printing e (l, n) = rw (n) (tt, tt)
  lost-IsGiven s ChildPc.exited e (t, l, n) = rw (n) (
    (
      unset_text s.has_written s.read_failed (message k s.timestamp) e,
      l,
      λ f. absurd (ground (arith, e, f)),
    ),
    refl,
  )
  lost-IsGiven s _ e h = absurd h

  is_done :
      (b : Bool) (out : Option (Option Bytes × ℕ)) → (b ≡ true → is_some out ≡ true) → IsDone b out
  is_done true out h = h refl
  is_done false out h = tt

  -- Whatever the schedule and whichever of `pipe`, `fork`, `write` and `read` fail: a child that has
  -- ended has printed, and what a child prints is the message of the parent, whole, if the parent's
  -- `write` and the child's `read` have succeeded, and an unset buffer if not; its local time is five
  -- seconds or more after `fork` and, unless its `read` has failed, not before the time in the message.
  pub child-IsTold :
      {s : State}
      → Reach k s
      → IsGiven s.has_written s.read_failed s.fork_time s.timestamp s.printed
        × IsDone (has_ended s.child) s.printed
  child-IsTold {s} r = elim (Reach-Knows r) [
    | inl (inv, e) ↦ (
      sound-IsGiven s.has_written s.read_failed s.fork_time s.timestamp s.printed e inv.told,
      is_done (has_ended s.child) s.printed inv.done,
    )
    | inr h ↦ lost-IsGiven s s.child h.failed h.at
  ]
