-- ===== src/Fork/Moves.antt =====
-- lab3/main.c: the signals, and the steps of the child.
use operation_systems_mirea.Base.{
  ℕ, ◌≡◌, ◌≢◌, refl, sym, ◌∙◌, subst, Bool, true, false, [], arith, if◌then◌else◌,
}
use operation_systems_mirea.Base.Schedule.{Kept}
use operation_systems_mirea.Fork.{
  the_parent, the_child, Ended, by_exit, by_signal, Line, received_signal, report, ParentPc,
  ChildPc, State, parent_prints, child_prints, parent_exits, child_exits, catches, child_step,
  signal_parent, signal_child,
}
use operation_systems_mirea.Fork.Counts.{
  Inv, Facts, gone, stage, is_present, lives, left_parent, left_child, Written, IsLate, IsReady,
  ParentText, ChildText,
}
use operation_systems_mirea.Fork.Prints.{
  AtParent, AtChild, IsPlain, parent_prints-Inv, child_prints-Inv,
}
use operation_systems_mirea.Fork.Ends.{
  parent_exits-Inv, child_exits-Inv, parent_killed-Inv, child_killed-Inv,
}

pub stands_parent : (s : State) (p : ParentPc) → Inv s → s.parent ≡ p → AtParent s p
stands_parent s p inv at =
    subst (λ q. Facts s.terminal s.is_registered q s.child s.parent_buffer s.child_buffer s.out) at
      inv

pub stands_child : (s : State) (q : ChildPc) → Inv s → s.child ≡ q → AtChild s q
stands_child s q inv at =
    subst (λ r. Facts s.terminal s.is_registered s.parent r s.parent_buffer s.child_buffer s.out) at
      inv

pub either-Inv : (b : Bool) (t u : State) → Inv t → Inv u → Inv (if b then t else u)
either-Inv true t u h k = h
either-Inv false t u h k = k

pub signal_parent-alive :
    (n : ℕ) (s : State) (p : ParentPc)
    → stage p ≢ gone
    → AtParent s p
    → Inv (
        if catches s n
        then parent_exits 0 (parent_prints (received_signal the_parent n) p s)
        else record s { parent = ParentPc.ended (by_signal n); parent_buffer = [] })
signal_parent-alive n s p alive at =
    let t : State = parent_prints (received_signal the_parent n) p s in
    either-Inv (catches s n) (parent_exits 0 t)
      (record s { parent = ParentPc.ended (by_signal n); parent_buffer = [] })
      (parent_exits-Inv 0 t p alive
        (parent_prints-Inv (received_signal the_parent n) p s (refl, refl, refl) at))
      (parent_killed-Inv n s p alive at)

pub signal_child-alive :
    (n : ℕ) (s : State) (q : ChildPc)
    → lives q ≡ true
    → AtChild s q
    → Inv (
        if catches s n
        then child_exits 0 (child_prints (received_signal the_child n) q s)
        else record s { child = ChildPc.ended (by_signal n); child_buffer = [] })
signal_child-alive n s q alive at =
    let t : State = child_prints (received_signal the_child n) q s in
    either-Inv (catches s n) (child_exits 0 t)
      (record s { child = ChildPc.ended (by_signal n); child_buffer = [] })
      (child_exits-Inv 0 t q alive
        (child_prints-Inv (received_signal the_child n) q s (refl, refl, refl) at))
      (child_killed-Inv n s q alive at)

pub signal_parent-Inv :
    (n : ℕ) (s : State) (p : ParentPc) → Inv s → s.parent ≡ p → Kept Inv (signal_parent n s p)
signal_parent-Inv n s (ParentPc.ended e) inv at = tt
signal_parent-Inv n s p inv at =
    signal_parent-alive n s p (λ e. ground (arith, e)) (stands_parent s p inv at)

pub signal_child-Inv :
    (n : ℕ) (s : State) (q : ChildPc) → Inv s → s.child ≡ q → Kept Inv (signal_child n s q)
signal_child-Inv n s ChildPc.absent inv at = tt
signal_child-Inv n s (ChildPc.ended e) inv at = tt
signal_child-Inv n s q inv at = signal_child-alive n s q refl (stands_child s q inv at)

pub report-IsPlain : (e : Ended) → IsPlain (report e)
report-IsPlain (by_exit n) = (refl, refl, refl)
report-IsPlain (by_signal n) = (refl, refl, refl)

-- The parent goes on within its stage, and the child while it lives.
pub parent_moves :
    (s : State) (p r : ParentPc)
    → stage p ≡ stage r
    → left_parent p ≡ left_parent r
    → AtParent s p
    → AtParent s r
parent_moves s p r e l at = record {
  ready = subst (λ f. IsReady f s.is_registered) e at.ready;
  child_ready = at.child_ready;
  late = subst (λ f. IsLate (is_present s.child) f) e at.late;
  parent_text = subst (λ f. ParentText f s.terminal s.parent_buffer) e at.parent_text;
  child_text = at.child_text;
  written =
      subst (λ n. Written (is_present s.child) (stage r) s.terminal n (left_child s.child) s.out) l
        (subst
          (λ f.
            Written (is_present s.child) f s.terminal (left_parent p) (left_child s.child) s.out)
          e at.written);
}

pub child_moves :
    (s : State) (q r : ChildPc)
    → lives q ≡ true
    → lives r ≡ true
    → is_present q ≡ is_present r
    → left_child q ≡ left_child r
    → AtChild s q
    → AtChild s r
child_moves s q r a b e l at = record {
  ready = at.ready;
  child_ready = λ x. at.child_ready (e ∙ x);
  late = subst (λ x. IsLate x (stage s.parent)) e at.late;
  parent_text = at.parent_text;
  child_text = subst (λ x. ChildText x s.terminal s.child_buffer) (a ∙ sym b) at.child_text;
  written =
      subst (λ n. Written (is_present r) (stage s.parent) s.terminal (left_parent s.parent) n s.out)
        l
        (subst
          (λ x. Written x (stage s.parent) s.terminal (left_parent s.parent) (left_child q) s.out) e
          at.written);
}

pub child_step-Inv : (s : State) (q : ChildPc) → Inv s → s.child ≡ q → Kept Inv (child_step s q)
unfolding child_step
child_step-Inv s ChildPc.absent inv at = tt
child_step-Inv s ChildPc.announcing inv at =
    child_prints-Inv Line.child_running ChildPc.sleeping s (refl, refl, refl)
      (child_moves s ChildPc.announcing ChildPc.sleeping refl refl refl refl
        (stands_child s ChildPc.announcing inv at))
child_step-Inv s ChildPc.sleeping inv at =
    child_moves s ChildPc.sleeping ChildPc.completing refl refl refl refl
      (stands_child s ChildPc.sleeping inv at)
child_step-Inv s ChildPc.completing inv at =
    child_prints-Inv Line.child_completed ChildPc.exiting s (refl, refl, refl)
      (child_moves s ChildPc.completing ChildPc.exiting refl refl refl refl
        (stands_child s ChildPc.completing inv at))
child_step-Inv s ChildPc.exiting inv at =
    child_exits-Inv 42 s ChildPc.exiting refl (stands_child s ChildPc.exiting inv at)
child_step-Inv s (ChildPc.ended e) inv at = tt
