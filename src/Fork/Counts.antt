-- ===== src/Fork/Counts.antt =====
-- lab3/main.c: how often the processes have printed a line.
use operation_systems_mirea.Base.{ℕ, ◌+◌, ◌≡◌, Bool, true, false, List, [], ◌∷◌, ◌++◌, arith}
use operation_systems_mirea.Fork.{
  Who, the_parent, the_child, by_exit, Line, parent_started, exit_handler, ParentPc, ChildPc, State,
  start,
}

abbrev pub is_start : Line → ℕ
is_start parent_started = 1
is_start _ = 0

abbrev pub is_exit : Who → Line → ℕ
is_exit the_parent (exit_handler the_parent) = 1
is_exit the_child (exit_handler the_child) = 1
is_exit _ _ = 0

abbrev pub total : (Line → ℕ) → List Line → ℕ
total f [] = 0
total f (line ∷ out) = f line + total f out

pub total-append : (f : Line → ℕ) (a b : List Line) → total f (a ++ b) ≡ total f a + total f b
total-append f [] b = omega arith
total-append f (line ∷ a) b = omega (arith, total-append f a b)

-- A process that has ended by `exit`.
abbrev pub left_parent : ParentPc → ℕ
left_parent (ParentPc.ended (by_exit status)) = 1
left_parent _ = 0

abbrev pub left_child : ChildPc → ℕ
left_child (ChildPc.ended (by_exit status)) = 1
left_child _ = 0

pub data Stage : Type 0 where
  new silent splitting loud gone : Stage

-- The parent before `atexit`, before it announces itself, at `fork`, after that, and at its end.
abbrev pub stage : ParentPc → Stage
stage ParentPc.registering = new
stage ParentPc.setting_interrupt = silent
stage ParentPc.setting_terminate = silent
stage ParentPc.announcing = silent
stage ParentPc.forking = splitting
stage (ParentPc.ended e) = gone
stage _ = loud

abbrev pub is_present : ChildPc → Bool
is_present ChildPc.absent = false
is_present _ = true

abbrev pub lives : ChildPc → Bool
lives ChildPc.absent = false
lives (ChildPc.ended e) = false
lives _ = true

-- How often "Parent process started" stands in a buffer, and in what was written at once.
abbrev pub buffered : Bool → ℕ
buffered true = 0
buffered false = 1

abbrev pub direct : Bool → ℕ
direct true = 1
direct false = 0

-- The same in what was written after `fork`, with the processes that have left.
abbrev pub in_all : Bool → ℕ → ℕ
in_all true left = 1
in_all false left = left

-- A text with so many starts and no ends.
abbrev pub Has : ℕ → List Line → Type 0
Has n text =
    (total is_start text ≡ n)
    × (total (is_exit the_parent) text ≡ 0)
    × (total (is_exit the_child) text ≡ 0)

-- The buffer of the parent.
abbrev pub ParentText : Stage → Bool → List Line → Type 0
ParentText splitting terminal text = Has (buffered terminal) text
ParentText loud terminal text = Has (buffered terminal) text
ParentText gone terminal text = Unit {0}
ParentText _ terminal text = Has 0 text

abbrev pub ChildText : Bool → Bool → List Line → Type 0
ChildText true terminal text = Has (buffered terminal) text
ChildText false terminal text = Unit {0}

-- What is written, before there is a child and after that.
abbrev pub Before : Stage → Bool → List Line → Type 0
Before splitting terminal out = Has (direct terminal) out
Before loud terminal out = Unit {0}
Before gone terminal out = Unit {0}
Before _ terminal out = Has 0 out

abbrev pub After : Bool → ℕ → ℕ → List Line → Type 0
After terminal parent child out =
    (total is_start out ≡ in_all terminal (parent + child))
    × (total (is_exit the_parent) out ≡ parent)
    × (total (is_exit the_child) out ≡ child)

abbrev pub Written : Bool → Stage → Bool → ℕ → ℕ → List Line → Type 0
Written true f terminal parent child out = After terminal parent child out
Written false f terminal parent child out = Before f terminal out

-- Where there is a child the parent has come past `fork`.
abbrev pub IsLate : Bool → Stage → Type 0
IsLate true loud = Unit {0}
IsLate true gone = Unit {0}
IsLate true _ = ⊥
IsLate false f = Unit {0}

abbrev pub IsReady : Stage → Bool → Type 0
IsReady silent registered = registered ≡ true
IsReady splitting registered = registered ≡ true
IsReady loud registered = registered ≡ true
IsReady _ registered = Unit {0}

pub record Facts (terminal registered : Bool) (p : ParentPc) (q : ChildPc) (b c out : List Line)
    : Type 0 where
  pub ready : IsReady (stage p) registered
  pub child_ready : is_present q ≡ true → registered ≡ true
  pub late : IsLate (is_present q) (stage p)
  pub parent_text : ParentText (stage p) terminal b
  pub child_text : ChildText (lives q) terminal c
  pub written : Written (is_present q) (stage p) terminal (left_parent p) (left_child q) out

abbrev pub Inv : State → Type 0
Inv s = Facts s.terminal s.is_registered s.parent s.child s.parent_buffer s.child_buffer s.out

pub Inv-start : (terminal : Bool) → Inv (start terminal)
Inv-start terminal = ground arith
