-- ===== src/Fork/Output.antt =====
-- lab3/main.c: the steps of the parent, and what stands on standard output at the end.
use operation_systems_mirea.Base.{
  ℕ, ◌≡◌, refl, ◌∙◌, subst, Bool, true, false, List, arith, if◌then◌else◌,
}
use operation_systems_mirea.Base.Schedule.{Kept, Kept-some}
use operation_systems_mirea.Fork.{
  the_parent, the_child, by_exit, Line, parent_started, report, ParentPc, ChildPc, State, Event,
  parent_turn, child_turn, parent_signal, child_signal, to_out, to_buffer, wait_for, parent_prints,
  parent_step, step, Reach, begin, later,
}
use operation_systems_mirea.Fork.Counts.{
  Inv, Inv-start, new, silent, splitting, gone, stage, is_start, is_exit, total, Has, is_present,
  left_parent, left_child, Written, After, IsLate, buffered, in_all,
}
use operation_systems_mirea.Fork.Prints.{AtParent, IsPlain, parent_prints-Inv}
use operation_systems_mirea.Fork.Ends.{parent_exits-Inv}
use operation_systems_mirea.Fork.Moves.{
  signal_parent-Inv, signal_child-Inv, report-IsPlain, parent_moves, child_step-Inv,
}

Written-registered :
    (present terminal : Bool) (child : ℕ) (out : List Line)
    → IsLate present new
    → Written present new terminal 0 child out
    → Written present silent terminal 0 child out
Written-registered true terminal child out late h = absurd late
Written-registered false terminal child out late h = h

IsLate-new : (present : Bool) → IsLate present new → IsLate present silent
IsLate-new true late = absurd late
IsLate-new false late = tt

registers :
    (s : State)
    → AtParent s ParentPc.registering
    → Inv (record s { is_registered = true; parent = ParentPc.setting_interrupt })
registers s at = record {
  ready = refl;
  child_ready = λ e. refl;
  late = IsLate-new (is_present s.child) at.late;
  parent_text = at.parent_text;
  child_text = at.child_text;
  written =
      Written-registered (is_present s.child) s.terminal (left_child s.child) s.out at.late
        at.written;
}

IsLate-silent : (present : Bool) → IsLate present silent → IsLate present splitting
IsLate-silent true late = absurd late
IsLate-silent false late = tt

ParentText-started :
    (terminal : Bool) (text : List Line)
    → Has 0 text
    → Has (buffered terminal) (to_buffer terminal parent_started text)
ParentText-started true text h = h
ParentText-started false text h = ground arith

Written-started :
    (present terminal : Bool) (child : ℕ) (out : List Line)
    → IsLate present silent
    → Written present silent terminal 0 child out
    → Written present splitting terminal 0 child (to_out terminal parent_started out)
Written-started true terminal child out late h = absurd late
Written-started false true child out late h = ground arith
Written-started false false child out late h = h

announces :
    (s : State)
    → AtParent s ParentPc.announcing
    → Inv (parent_prints parent_started ParentPc.forking s)
announces s at = record {
  ready = at.ready;
  child_ready = at.child_ready;
  late = IsLate-silent (is_present s.child) at.late;
  parent_text = ParentText-started s.terminal s.parent_buffer at.parent_text;
  child_text = at.child_text;
  written =
      Written-started (is_present s.child) s.terminal (left_child s.child) s.out at.late at.written;
}

-- Nobody has left when the child is made: what was written at once is all.
After-forked :
    (present terminal : Bool) (child : ℕ) (out : List Line)
    → IsLate present splitting
    → Written present splitting terminal 0 child out
    → After terminal 0 0 out
After-forked true terminal child out late h = absurd late
After-forked false true child out late h = h
After-forked false false child out late h = h

forks :
    (s : State)
    → AtParent s ParentPc.forking
    → Inv (record s {
      child = ChildPc.announcing;
      child_buffer = s.parent_buffer;
      parent = ParentPc.naming_child;
    })
forks s at = record {
  ready = at.ready;
  child_ready = λ e. at.ready;
  late = tt;
  parent_text = at.parent_text;
  child_text = at.parent_text;
  written =
      After-forked (is_present s.child) s.terminal (left_child s.child) s.out at.late at.written;
}

wait_for-Inv : (s : State) (q : ChildPc) → AtParent s ParentPc.waiting → Kept Inv (wait_for s q)
wait_for-Inv s (ChildPc.ended e) at =
    parent_moves s ParentPc.waiting (ParentPc.reporting e) refl refl at
wait_for-Inv s _ at = tt

parent_says :
    (line : Line) (s : State) (p r : ParentPc)
    → IsPlain line
    → stage p ≡ stage r
    → left_parent p ≡ left_parent r
    → AtParent s p
    → Inv (parent_prints line r s)
parent_says line s p r plain e l at = parent_prints-Inv line r s plain (parent_moves s p r e l at)

-- The step of the parent where its call works, and where it fails.
works-Inv : (s : State) (p : ParentPc) → AtParent s p → Kept Inv (parent_step true s p)
unfolding parent_step
works-Inv s ParentPc.registering at = registers s at
works-Inv s ParentPc.setting_interrupt at =
    parent_moves s ParentPc.setting_interrupt ParentPc.setting_terminate refl refl at
works-Inv s ParentPc.setting_terminate at =
    parent_moves s ParentPc.setting_terminate ParentPc.announcing refl refl at
works-Inv s ParentPc.announcing at = announces s at
works-Inv s ParentPc.forking at = forks s at
works-Inv s ParentPc.naming_child at =
    parent_says Line.created_child s ParentPc.naming_child ParentPc.waiting (refl, refl, refl) refl
      refl at
works-Inv s ParentPc.waiting at = wait_for-Inv s s.child at
works-Inv s (ParentPc.reporting e) at =
    parent_says (report e) s (ParentPc.reporting e) ParentPc.completing (report-IsPlain e) refl refl
      at
works-Inv s ParentPc.completing at =
    parent_says Line.parent_completed s ParentPc.completing ParentPc.returning (refl, refl, refl)
      refl refl at
works-Inv s ParentPc.returning at =
    parent_exits-Inv 0 s ParentPc.returning (λ e. ground (arith, e)) at
works-Inv s (ParentPc.ended e) at = tt

fails-Inv : (s : State) (p : ParentPc) → AtParent s p → Kept Inv (parent_step false s p)
unfolding parent_step
fails-Inv s ParentPc.registering at =
    parent_exits-Inv 1 s ParentPc.registering (λ e. ground (arith, e)) at
fails-Inv s ParentPc.setting_interrupt at =
    parent_exits-Inv 1 s ParentPc.setting_interrupt (λ e. ground (arith, e)) at
fails-Inv s ParentPc.setting_terminate at =
    parent_exits-Inv 1 s ParentPc.setting_terminate (λ e. ground (arith, e)) at
fails-Inv s ParentPc.forking at = parent_exits-Inv 1 s ParentPc.forking (λ e. ground (arith, e)) at
fails-Inv s ParentPc.waiting at = parent_exits-Inv 1 s ParentPc.waiting (λ e. ground (arith, e)) at
fails-Inv s ParentPc.announcing at = works-Inv s ParentPc.announcing at
fails-Inv s ParentPc.naming_child at = works-Inv s ParentPc.naming_child at
fails-Inv s (ParentPc.reporting e) at = works-Inv s (ParentPc.reporting e) at
fails-Inv s ParentPc.completing at = works-Inv s ParentPc.completing at
fails-Inv s ParentPc.returning at = works-Inv s ParentPc.returning at
fails-Inv s (ParentPc.ended e) at = tt

step-Inv : (e : Event) (s : State) → Inv s → Kept Inv (step e s)
unfolding step
step-Inv (parent_turn true) s inv = works-Inv s s.parent inv
step-Inv (parent_turn false) s inv = fails-Inv s s.parent inv
step-Inv child_turn s inv = child_step-Inv s s.child inv refl
step-Inv (parent_signal n) s inv = signal_parent-Inv n s s.parent inv refl
step-Inv (child_signal n) s inv = signal_child-Inv n s s.child inv refl

Reach-Inv : {terminal : Bool} {s : State} → Reach terminal s → Inv s
Reach-Inv {terminal} begin = Inv-start terminal
Reach-Inv (later e r p) = Kept-some Inv p (step-Inv e _ (Reach-Inv r))

twice : (terminal : Bool) → in_all terminal 2 ≡ (if terminal then 1 else 2)
twice true = refl
twice false = refl

counted :
    {a b : ℕ} (s : State)
    → Inv s
    → s.parent ≡ ParentPc.ended (by_exit a)
    → s.child ≡ ChildPc.ended (by_exit b)
    → (total (is_exit the_parent) s.out ≡ 1)
      × (total (is_exit the_child) s.out ≡ 1)
      × (total is_start s.out ≡ (if s.terminal then 1 else 2))
counted {a} {b} s inv p q =
    let here : After s.terminal 1 1 s.out =
      subst (λ x. Written (is_present x) gone s.terminal 1 (left_child x) s.out) q
        (subst
          (λ x.
            Written (is_present s.child) (stage x) s.terminal (left_parent x) (left_child s.child)
              s.out)
          p inv.written) in
    (here.1, here.2, here.0 ∙ twice s.terminal)

-- When both processes have ended by `exit`, be it at the end of their text, after a failing call, or
-- in a handler of a signal, then each has printed the line of the exit handler once. On a terminal the
-- line that the parent has started stands there once; where standard output is a file or a pipe it
-- stands there twice, since the child writes its copy of the buffer too.
pub ended-lines :
    {terminal : Bool} {s : State} {a b : ℕ}
    → Reach terminal s
    → s.parent ≡ ParentPc.ended (by_exit a)
    → s.child ≡ ChildPc.ended (by_exit b)
    → (total (is_exit the_parent) s.out ≡ 1)
      × (total (is_exit the_child) s.out ≡ 1)
      × (total is_start s.out ≡ (if s.terminal then 1 else 2))
ended-lines {terminal} {s} {a} {b} r at_parent at_child = counted s (Reach-Inv r) at_parent at_child
