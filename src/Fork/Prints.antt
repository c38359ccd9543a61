-- ===== src/Fork/Prints.antt =====
-- lab3/main.c: what a line that is printed does to the counts.
use operation_systems_mirea.Base.{ℕ, ◌≡◌, Bool, true, false, List, ◌∷◌, ◌++◌, arith}
use operation_systems_mirea.Fork.{
  the_parent, the_child, Line, ParentPc, ChildPc, State, exit_lines, to_out, to_buffer,
  parent_prints, child_prints,
}
use operation_systems_mirea.Fork.Counts.{
  Inv, Facts, Stage, splitting, loud, gone, stage, is_start, is_exit, total-append, Has, is_present,
  lives, left_parent, left_child, Written, After, ParentText, ChildText, buffered,
}

-- A line that says neither that the parent starts nor that a process ends.
abbrev pub IsPlain : Line → Type 0
IsPlain line = (is_start line ≡ 0) × (is_exit the_parent line ≡ 0) × (is_exit the_child line ≡ 0)

pub Has-plain :
    (n : ℕ) (line : Line) (text : List Line) → IsPlain line → Has n text → Has n (line ∷ text)
Has-plain n line text plain h = ground arith

pub Written-plain :
    (present : Bool) (f : Stage) (terminal : Bool) (parent child : ℕ) (line : Line)
    (out : List Line)
    → IsPlain line
    → Written present f terminal parent child out
    → Written present f terminal parent child (to_out terminal line out)
Written-plain present f false parent child line out plain h = h
Written-plain true f true parent child line out plain h = ground arith
Written-plain false loud true parent child line out plain h = tt
Written-plain false gone true parent child line out plain h = tt
Written-plain false _ true parent child line out plain h = ground arith

pub ParentText-plain :
    (f : Stage) (terminal : Bool) (line : Line) (text : List Line)
    → IsPlain line
    → ParentText f terminal text
    → ParentText f terminal (to_buffer terminal line text)
ParentText-plain f true line text plain h = h
ParentText-plain splitting false line text plain h = ground arith
ParentText-plain loud false line text plain h = ground arith
ParentText-plain gone false line text plain h = tt
ParentText-plain _ false line text plain h = ground arith

pub ChildText-plain :
    (alive terminal : Bool) (line : Line) (text : List Line)
    → IsPlain line
    → ChildText alive terminal text
    → ChildText alive terminal (to_buffer terminal line text)
ChildText-plain alive true line text plain h = h
ChildText-plain true false line text plain h = ground arith
ChildText-plain false false line text plain h = tt

-- What is known when the parent, or the child, stands at a point.
abbrev pub AtParent : State → ParentPc → Type 0
AtParent s p = Facts s.terminal s.is_registered p s.child s.parent_buffer s.child_buffer s.out

abbrev pub AtChild : State → ChildPc → Type 0
AtChild s q = Facts s.terminal s.is_registered s.parent q s.parent_buffer s.child_buffer s.out

pub parent_prints-Inv :
    (line : Line) (p : ParentPc) (s : State)
    → IsPlain line
    → AtParent s p
    → Inv (parent_prints line p s)
parent_prints-Inv line p s plain at = record {
  ready = at.ready;
  child_ready = at.child_ready;
  late = at.late;
  parent_text = ParentText-plain (stage p) s.terminal line s.parent_buffer plain at.parent_text;
  child_text = at.child_text;
  written =
      Written-plain (is_present s.child) (stage p) s.terminal (left_parent p) (left_child s.child)
        line s.out plain at.written;
}

pub child_prints-Inv :
    (line : Line) (q : ChildPc) (s : State)
    → IsPlain line
    → AtChild s q
    → Inv (child_prints line q s)
child_prints-Inv line q s plain at = record {
  ready = at.ready;
  child_ready = at.child_ready;
  late = at.late;
  parent_text = at.parent_text;
  child_text = ChildText-plain (lives q) s.terminal line s.child_buffer plain at.child_text;
  written =
      Written-plain (is_present q) (stage s.parent) s.terminal (left_parent s.parent) (left_child q)
        line s.out plain at.written;
}

-- The end of the parent by `exit`, with a child: its buffer and its exit line come out.
pub After-parent :
    (terminal : Bool) (child : ℕ) (text out : List Line)
    → Has (buffered terminal) text
    → After terminal 0 child out
    → After terminal 1 child (exit_lines true the_parent ++ text ++ out)
After-parent true child text out h k = ground (
  arith,
  total-append is_start text out,
  total-append (is_exit the_parent) text out,
  total-append (is_exit the_child) text out,
)
After-parent false child text out h k = ground (
  arith,
  total-append is_start text out,
  total-append (is_exit the_parent) text out,
  total-append (is_exit the_child) text out,
)

pub After-child :
    (terminal : Bool) (parent : ℕ) (text out : List Line)
    → Has (buffered terminal) text
    → After terminal parent 0 out
    → After terminal parent 1 (exit_lines true the_child ++ text ++ out)
After-child true parent text out h k = ground (
  arith,
  total-append is_start text out,
  total-append (is_exit the_parent) text out,
  total-append (is_exit the_child) text out,
)
After-child false parent text out h k = ground (
  arith,
  total-append is_start text out,
  total-append (is_exit the_parent) text out,
  total-append (is_exit the_child) text out,
)
