-- ===== src/Fork/Ends.antt =====
-- lab3/main.c: what the end of a process does to the counts.
use operation_systems_mirea.Base.{
  ℕ, ◌≡◌, ◌≢◌, refl, sym, subst, Bool, true, false, List, [], ◌++◌, arith,
}
use operation_systems_mirea.Fork.{
  the_parent, the_child, by_signal, Line, ParentPc, ChildPc, State, exit_lines, parent_exits,
  child_exits,
}
use operation_systems_mirea.Fork.Counts.{
  Inv, Stage, new, silent, splitting, loud, gone, stage, Has, is_present, lives, left_parent,
  left_child, Written, After, IsLate, ParentText, ChildText, buffered,
}
use operation_systems_mirea.Fork.Prints.{AtParent, AtChild, After-parent, After-child}

Written-exit :
    (present : Bool) (f : Stage) (terminal registered : Bool) (child : ℕ) (text out : List Line)
    → f ≢ gone
    → IsLate present f
    → (present ≡ true → registered ≡ true)
    → ParentText f terminal text
    → Written present f terminal 0 child out
    → Written present gone terminal 1 child (exit_lines registered the_parent ++ text ++ out)
Written-exit false f terminal registered child text out alive late ready h k = tt
Written-exit true new terminal registered child text out alive late ready h k = absurd late
Written-exit true silent terminal registered child text out alive late ready h k = absurd late
Written-exit true splitting terminal registered child text out alive late ready h k = absurd late
Written-exit true gone terminal registered child text out alive late ready h k = absurd (alive refl)
Written-exit true loud terminal registered child text out alive late ready h k =
    subst (λ b. After terminal 1 child (exit_lines b the_parent ++ text ++ out)) (sym (ready refl))
      (After-parent terminal child text out h k)

IsLate-gone : (present : Bool) → IsLate present gone
IsLate-gone true = tt
IsLate-gone false = tt

left_parent-alive : (p : ParentPc) → stage p ≢ gone → left_parent p ≡ 0
left_parent-alive (ParentPc.ended e) h = absurd (h refl)
left_parent-alive _ h = refl

left_child-alive : (q : ChildPc) → lives q ≡ true → left_child q ≡ 0
left_child-alive (ChildPc.ended e) h = absurd (ground arith)
left_child-alive _ h = refl

present-alive : (q : ChildPc) → lives q ≡ true → is_present q ≡ true
present-alive ChildPc.absent h = absurd (ground arith)
present-alive _ h = refl

pub parent_exits-Inv :
    (status : ℕ) (s : State) (p : ParentPc)
    → stage p ≢ gone
    → AtParent s p
    → Inv (parent_exits status s)
parent_exits-Inv status s p alive at = record {
  ready = tt;
  child_ready = at.child_ready;
  late = IsLate-gone (is_present s.child);
  parent_text = tt;
  child_text = at.child_text;
  written =
      Written-exit (is_present s.child) (stage p) s.terminal s.is_registered (left_child s.child)
        s.parent_buffer s.out alive at.late at.child_ready at.parent_text
        (subst (λ n. Written (is_present s.child) (stage p) s.terminal n (left_child s.child) s.out)
          (left_parent-alive p alive) at.written);
}

pub child_exits-Inv :
    (status : ℕ) (s : State) (q : ChildPc)
    → lives q ≡ true
    → AtChild s q
    → Inv (child_exits status s)
child_exits-Inv status s q alive at =
    let present = present-alive q alive in
    let here : After s.terminal (left_parent s.parent) 0 s.out =
      subst (λ n. After s.terminal (left_parent s.parent) n s.out) (left_child-alive q alive)
        (subst
          (λ b. Written b (stage s.parent) s.terminal (left_parent s.parent) (left_child q) s.out)
          present at.written) in
    let text : Has (buffered s.terminal) s.child_buffer =
      subst (λ b. ChildText b s.terminal s.child_buffer) alive at.child_text in
    record {
      ready = at.ready;
      child_ready = λ e. at.child_ready present;
      late = subst (λ b. IsLate b (stage s.parent)) present at.late;
      parent_text = at.parent_text;
      child_text = tt;
      written =
          subst
            (λ b.
              After s.terminal (left_parent s.parent) 1
                (exit_lines b the_child ++ s.child_buffer ++ s.out))
            (sym (at.child_ready present))
            (After-child s.terminal (left_parent s.parent) s.child_buffer s.out text here);
    }

Written-killed :
    (present : Bool) (f : Stage) (terminal : Bool) (parent child : ℕ) (out : List Line)
    → Written present f terminal parent child out
    → Written present gone terminal parent child out
Written-killed true f terminal parent child out h = h
Written-killed false f terminal parent child out h = tt

pub parent_killed-Inv :
    (e : ℕ) (s : State) (p : ParentPc)
    → stage p ≢ gone
    → AtParent s p
    → Inv (record s { parent = ParentPc.ended (by_signal e); parent_buffer = [] })
parent_killed-Inv e s p alive at = record {
  ready = tt;
  child_ready = at.child_ready;
  late = IsLate-gone (is_present s.child);
  parent_text = tt;
  child_text = at.child_text;
  written = Written-killed (is_present s.child) (stage p) s.terminal 0 (left_child s.child) s.out (
      subst (λ n. Written (is_present s.child) (stage p) s.terminal n (left_child s.child) s.out)
        (left_parent-alive p alive) at.written);
}

pub child_killed-Inv :
    (e : ℕ) (s : State) (q : ChildPc)
    → lives q ≡ true
    → AtChild s q
    → Inv (record s { child = ChildPc.ended (by_signal e); child_buffer = [] })
child_killed-Inv e s q alive at =
    let present = present-alive q alive in
    record {
      ready = at.ready;
      child_ready = λ x. at.child_ready present;
      late = subst (λ b. IsLate b (stage s.parent)) present at.late;
      parent_text = at.parent_text;
      child_text = tt;
      written =
          subst (λ n. After s.terminal (left_parent s.parent) n s.out) (left_child-alive q alive)
            (subst
              (λ b.
                Written b (stage s.parent) s.terminal (left_parent s.parent) (left_child q) s.out)
              present at.written);
    }
