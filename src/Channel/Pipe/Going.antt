-- ===== src/Channel/Pipe/Going.antt =====
-- lab6/pipe_program.c: what holds between any two steps, for the end of the two.
use operation_systems_mirea.Base.{
  ℕ, ◌+◌, ◌≡◌, ◌≢◌, refl, subst, Bool, true, false, [], ◌∷◌, Option, is_some, none, some, leb,
  arith, if◌then◌else◌,
}
use operation_systems_mirea.Base.Text.{Bytes}
use operation_systems_mirea.Base.Schedule.{Kept, Kept-test}
use operation_systems_mirea.Channel.Pipe.{
  Setting, State, ParentPc, ChildPc, wait_for, read_pipe, as_text, write_pipe, parent_step,
  child_step,
}

abbrev pub is_present : ChildPc → Bool
is_present ChildPc.absent = false
is_present _ = true

-- The child, the write end and what is printed, by where the parent is.
abbrev pub Holds : ParentPc → ChildPc → Bool → Option (Option Bytes × ℕ) → Type 0
Holds ParentPc.piping c write_open out = is_present c ≡ false
Holds ParentPc.forking c write_open out = is_present c ≡ false
Holds ParentPc.failed c write_open out = is_present c ≡ false
Holds ParentPc.waiting c write_open out = (is_present c ≡ true) × (write_open ≡ false)
Holds ParentPc.exited c write_open out = (c ≡ ChildPc.exited) × (is_some out ≡ true)
Holds ParentPc.killed c write_open out = (c ≡ ChildPc.exited) × (is_some out ≡ true)
Holds _ c write_open out = is_present c ≡ true

abbrev pub Done : ChildPc → Option (Option Bytes × ℕ) → Type 0
Done ChildPc.exited out = is_some out ≡ true
Done _ out = Unit {0}

abbrev pub Going : State → Type 0
Going s = Holds s.parent s.child s.write_open s.printed × Done s.child s.printed

wait_for-Going :
    (s : State) (c : ChildPc) → s.child ≡ c → Done s.child s.printed → Kept Going (wait_for s c)
wait_for-Going s ChildPc.exited at d = ((at, subst (λ c. Done c s.printed) at d), d)
wait_for-Going s _ at d = tt

-- A child that has ended leaves no reader.
write_pipe-Going :
    (k : Setting) (works : Bool) (s : State) (c : ChildPc)
    → s.child ≡ c
    → is_present c ≡ true
    → Done c s.printed
    → Going (write_pipe k works s)
write_pipe-Going k works s ChildPc.absent at i d = absurd (ground (arith, i))
write_pipe-Going k works s ChildPc.exited at i d = rw at ((refl, d), d)
write_pipe-Going k works s _ at i d = rw at (i, d)

pub parent_step-Going :
    (k : Setting) (works : Bool) (s : State) (p : ParentPc)
    → Holds p s.child s.write_open s.printed
    → Done s.child s.printed
    → Kept Going (parent_step k works s p)
unfolding parent_step
parent_step-Going k true s ParentPc.piping h d = (h, d)
parent_step-Going k false s ParentPc.piping h d = (h, d)
parent_step-Going k true s ParentPc.forking h d = (refl, tt)
parent_step-Going k false s ParentPc.forking h d = (h, d)
parent_step-Going k works s ParentPc.timing h d = (h, d)
parent_step-Going k works s ParentPc.writing h d = write_pipe-Going k works s s.child refl h d
parent_step-Going k works s ParentPc.closing h d = ((h, refl), d)
parent_step-Going k works s ParentPc.waiting h d = wait_for-Going s s.child refl d
parent_step-Going k works s ParentPc.exited h d = tt
parent_step-Going k works s ParentPc.failed h d = tt
parent_step-Going k works s ParentPc.killed h d = tt

-- A child that is there goes on.
moved :
    (p : ParentPc) (c c' : ChildPc) (write_open : Bool) (out out' : Option (Option Bytes × ℕ))
    → is_present c ≡ true
    → c ≢ ChildPc.exited
    → is_present c' ≡ true
    → Holds p c write_open out
    → Holds p c' write_open out'
moved ParentPc.piping c c' write_open out out' i n j h = absurd (ground (arith, i, h))
moved ParentPc.forking c c' write_open out out' i n j h = absurd (ground (arith, i, h))
moved ParentPc.failed c c' write_open out out' i n j h = absurd (ground (arith, i, h))
moved ParentPc.waiting c c' write_open out out' i n j h = (j, h.1)
moved ParentPc.exited c c' write_open out out' i n j h = absurd (n h.0)
moved ParentPc.killed c c' write_open out out' i n j h = absurd (n h.0)
moved _ c c' write_open out out' i n j h = j

unless : (P : State → Type 0) (b : Bool) (t : State) → P t → Kept P (if b then none else some t)
unless P true t h = tt
unless P false t h = h

read_pipe-Going :
    (s : State) (pipe : Bytes)
    → Holds s.parent ChildPc.reading s.write_open s.printed
    → Kept Going (read_pipe s pipe)
read_pipe-Going s [] h =
    unless Going s.write_open (record s { child = ChildPc.timing })
      (
        moved s.parent ChildPc.reading ChildPc.timing s.write_open s.printed s.printed refl
            (λ e. ground (arith, e)) refl h,
        tt,
      )
read_pipe-Going s (c ∷ pipe) h = (
  moved s.parent ChildPc.reading ChildPc.timing s.write_open s.printed s.printed refl
      (λ e. ground (arith, e)) refl h,
  tt,
)

pub child_step-Going :
    (works : Bool) (s : State) (c : ChildPc)
    → Holds s.parent c s.write_open s.printed
    → Kept Going (child_step works s c)
unfolding child_step
child_step-Going works s ChildPc.absent h = tt
child_step-Going works s ChildPc.closing h = (
  moved s.parent ChildPc.closing (ChildPc.sleeping (s.clock + 5)) s.write_open s.printed s.printed
      refl (λ e. ground (arith, e)) refl h,
  tt,
)
child_step-Going works s (ChildPc.sleeping wake) h =
    Kept-test Going (leb wake s.clock) (some (record s { child = ChildPc.reading })) (λ _. (
      moved s.parent (ChildPc.sleeping wake) ChildPc.reading s.write_open s.printed s.printed refl
          (λ e. ground (arith, e)) refl h,
      tt,
    ))
child_step-Going true s ChildPc.reading h = read_pipe-Going s s.pipe h
child_step-Going false s ChildPc.reading h = (
  moved s.parent ChildPc.reading ChildPc.timing s.write_open s.printed s.printed refl
      (λ e. ground (arith, e)) refl h,
  tt,
)
child_step-Going works s ChildPc.timing h = (
  moved s.parent ChildPc.timing ChildPc.printing s.write_open s.printed s.printed refl
      (λ e. ground (arith, e)) refl h,
  tt,
)
child_step-Going works s ChildPc.printing h = (
  moved s.parent ChildPc.printing ChildPc.exited s.write_open s.printed
      (some (as_text s.data_buffer, s.child_time)) refl (λ e. ground (arith, e)) refl h,
  refl,
)
child_step-Going works s ChildPc.exited h = tt
