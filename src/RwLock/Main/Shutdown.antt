-- ===== src/RwLock/Main/Shutdown.antt =====
-- lab10/main.c: from the join of the writer on, the program ends.
use operation_systems_mirea.Base.{
  ℕ, zero, suc, ◌+◌, ◌≤◌, ◌≡◌, refl, sym, subst, ◌∙◌, ◌⊎◌, inl, inr, Bool, true, false, Option,
  none, some, arith, if◌then◌else◌, ltb,
}
use operation_systems_mirea.Base.Schedule.{Kept, Kept-some, Kept-map, Kept-test, if_both, Ends}
use operation_systems_mirea.Base.Counts.{get_elem?}
use operation_systems_mirea.RwLock.{State, WriterPc, step, Reach}
use operation_systems_mirea.RwLock.Safety.{Reach-Inv}
use operation_systems_mirea.RwLock.Main.{
  System, Program, MainPc, Turn, thread, main_turn, cancel, program_step, main_step, is_created,
  is_running, with_threads, end_at, join_writer, Runs, begin, next, begun, fails,
}
use operation_systems_mirea.RwLock.Main.Closing.{Closing-finished, Reach-length}
use operation_systems_mirea.RwLock.Main.Descent.{program_step-IsLess}
use operation_systems_mirea.RwLock.Main.Ending.{Down, Down-Ends, IsOver}
use operation_systems_mirea.RwLock.Main.Whole.{threads-Reach}

-- Before the writer is joined, and after a failure.
abbrev Early : ℕ → MainPc → Program → Type 0
Early n MainPc.initializing p = (p.cancelled ≡ 0) × (p.created ≤ n)
Early n MainPc.creating_readers p = (p.cancelled ≡ 0) × (p.created ≤ n)
Early n MainPc.creating_writer p = (p.cancelled ≡ 0) × (p.created ≡ n)
Early n MainPc.joining_writer p = (p.cancelled ≡ 0) × (p.created ≡ n)
Early n (MainPc.exited (suc k)) p = Unit {0}
Early n _ p = ⊥

abbrev Place : ℕ → Program → Type 0
Place n p = Down n p ⊎ Early n p.main_thread p

Early-threads :
    (n : ℕ) (m : MainPc) (p : Program) (o : Option State)
    → Early n m p
    → Kept (λ q. Early n m q) (with_threads p o)
Early-threads n m p none e = tt
Early-threads n m p (some s) e = same m e
  where
    same : (m : MainPc) → Early n m p → Early n m (record p { threads = s })
    same MainPc.initializing e = e
    same MainPc.creating_readers e = e
    same MainPc.creating_writer e = e
    same MainPc.joining_writer e = e
    same (MainPc.exited (suc k)) e = tt
    same _ e = absurd e

threads-Place :
    (n : ℕ) (p : Program) (o : Option State)
    → Early n p.main_thread p
    → Kept (Place n) (with_threads p o)
threads-Place n p none e = tt
threads-Place n p (some s) e = inr (Early-threads n p.main_thread p (some s) e)

join_writer-Place :
    (y : System) (n : ℕ) (p : Program) (w : WriterPc)
    → p.main_thread ≡ MainPc.joining_writer
    → (p.cancelled ≡ 0) × (p.created ≡ n)
    → Reach y.prefers_writer n p.threads
    → p.threads.writer ≡ w
    → Kept (Place n) (join_writer p w)
join_writer-Place y n p WriterPc.finished at (z, made) r there =
    inl ((Closing-finished p.threads n (Reach-Inv r) (Reach-length r) there, z), made)
join_writer-Place y n p _ at e r there = tt

creating_readers-Place :
    (n : ℕ) (works more : Bool) (p : Program)
    → p.main_thread ≡ MainPc.creating_readers
    → ltb p.created n ≡ more
    → (p.cancelled ≡ 0) × (p.created ≤ n)
    → Place n (
        if more
        then (if works then record p { created = p.created + 1 } else fails p)
        else record p { main_thread = MainPc.creating_writer })
creating_readers-Place n works false p at e (z, l) = inr (z, ground arith)
creating_readers-Place n true true p at e (z, l) =
    inr (subst (λ m. Early n m (record p { created = p.created + 1 })) (sym at) (z, ground arith))
creating_readers-Place n false true p at e (z, l) = inr tt

main_step-Place :
    (y : System) (n : ℕ) (works : Bool) (p : Program) (m : MainPc)
    → p.main_thread ≡ m
    → Early n m p
    → (p.cancelled ≡ 0 → Reach y.prefers_writer n p.threads)
    → Kept (Place n) (main_step n works p m)
unfolding main_step
main_step-Place y n works p MainPc.initializing at e f =
    if_both (Place n) works (record p { exists = true; main_thread = MainPc.creating_readers })
      (fails p) (inr e) (inr tt)
main_step-Place y n works p MainPc.creating_readers at e f =
    creating_readers-Place n works (ltb p.created n) p at refl e
main_step-Place y n works p MainPc.creating_writer at e f =
    if_both (Place n) works
      (record p { writer_created = true; main_thread = MainPc.joining_writer }) (fails p) (inr e)
      (inr tt)
main_step-Place y n works p MainPc.joining_writer at e f =
    join_writer-Place y n p p.threads.writer at e (f e.0) refl
main_step-Place y n works p (MainPc.exited (suc k)) at e f = tt
main_step-Place y n works p _ at e f = absurd e

earlier-Place :
    (y : System) (n : ℕ) (t : Turn) (p : Program)
    → Early n p.main_thread p
    → (p.cancelled ≡ 0 → Reach y.prefers_writer n p.threads)
    → Kept (Place n) (program_step n y t p)
unfolding program_step
earlier-Place y n (thread e) p early f =
    let o : Option Program = with_threads p (step y.prefers_writer e p.threads) in
    Kept-test (Place n) (is_created p e) (if is_running p.main_thread then o else none) (λ _.
      Kept-test (Place n) (is_running p.main_thread) o
        (λ _. threads-Place n p (step y.prefers_writer e p.threads) early))
earlier-Place y n (main_turn works) p early f =
    main_step-Place y n works p p.main_thread refl early f
earlier-Place y n (cancel i) p early f =
    let s : Option State = end_at y.ends_in_lock p.threads i (get_elem? p.threads.readers i) in
    Kept-test (Place n) (ltb i p.cancelled)
      (if is_running p.main_thread then with_threads p s else none)
      (λ _.
        Kept-test (Place n) (is_running p.main_thread) (with_threads p s)
          (λ _. threads-Place n p s early))

step-Place :
    (y : System) (n : ℕ) (t : Turn) (p : Program)
    → Place n p
    → (p.cancelled ≡ 0 → Reach y.prefers_writer n p.threads)
    → Kept (Place n) (program_step n y t p)
step-Place y n t p (inl (c, made)) f =
    Kept-map (λ q h. inl (h.0, h.2 ∙ made)) (program_step n y t p) (program_step-IsLess y n t p c)
step-Place y n t p (inr early) f = earlier-Place y n t p early f

Runs-Place : {y : System} {n : ℕ} {p : Program} → Runs n y (begun n) p → Place n p
Runs-Place {n = n} begin = inr (refl, omega arith)
Runs-Place {y} {n} (next {p = q} t r e) =
    Kept-some (Place n) e (step-Place y n t q (Runs-Place r) (threads-Reach r))

-- `main` past the join of the writer.
abbrev pub has_joined : MainPc → Bool
has_joined MainPc.pausing = true
has_joined MainPc.cancelling = true
has_joined (MainPc.joining i) = true
has_joined MainPc.destroying = true
has_joined (MainPc.exited zero) = true
has_joined _ = false

excluded : (n : ℕ) (m : MainPc) (p : Program) → has_joined m ≡ true → Early n m p → ⊥
excluded n MainPc.initializing p h e = absurd (ground arith)
excluded n (MainPc.exited zero) p h e = absurd e
excluded n (MainPc.exited (suc k)) p h e = absurd (ground arith)
excluded n _ p h e = absurd (ground arith)

-- Once `main` has joined the writer, every schedule of the readers, of their cancellation and of `main`
-- comes to an end, in which `main` has returned 0, all threads have returned, and all writes were made.
pub main-Ends :
    {y : System} {n : ℕ} {p : Program}
    → Runs n y (begun n) p
    → has_joined p.main_thread ≡ true
    → Ends (program_step n y) (IsOver n) p
main-Ends {y} {n} {p} r joined = elim (Runs-Place r) [
  | inl down ↦ Down-Ends y n p down
  | inr early ↦ absurd (excluded n p.main_thread p joined early)
]
