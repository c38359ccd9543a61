-- ===== src/RwLock/Main/Descent.antt =====
-- lab10/main.c: every step of the program's end leaves less to do.
use operation_systems_mirea.Base.{
  ℕ, zero, ◌+◌, ◌-◌, ◌*◌, ◌≤◌, ◌<◌, ◌≡◌, refl, sym, subst, Bool, true, false, List, Option, none,
  some, arith, if◌then◌else◌, ltb,
}
use native.Mathlib.Decide.{dec_lt}
use operation_systems_mirea.Base.Schedule.{Kept, Kept-test}
use operation_systems_mirea.Base.Counts.{get_elem?, total}
use operation_systems_mirea.RwLock.{State, ReaderPc, step}
use operation_systems_mirea.RwLock.Main.{
  System, Program, MainPc, Turn, thread, main_turn, cancel, program_step, main_step, is_created,
  is_running, with_threads, end_at, join_reader,
}
use operation_systems_mirea.RwLock.Main.Closing.{
  left, Facts, Closing, Nearer, step-Nearer, end_at-Nearer,
}

-- What holds while `main` takes the program down, by where it is.
abbrev pub Closes : ℕ → MainPc → Program → Type 0
Closes n MainPc.pausing p = Closing n 0 p.threads × (p.cancelled ≡ 0)
Closes n MainPc.cancelling p = Closing n p.cancelled p.threads × (p.cancelled ≤ n)
Closes n (MainPc.joining i) p = Closing n i p.threads × (p.cancelled ≡ i + 1) × (i < n)
Closes n MainPc.destroying p = Closing n n p.threads × (p.cancelled ≡ n)
Closes n (MainPc.exited zero) p = Closing n n p.threads × (p.cancelled ≡ n) × (p.exists ≡ false)
Closes n _ p = ⊥

-- What is left for `main` to do.
abbrev pub main_left : ℕ → ℕ → MainPc → ℕ
main_left n c MainPc.pausing = 2 * n + 4
main_left n c MainPc.cancelling = 2 * (n - c) + 3
main_left n c (MainPc.joining i) = 2 * (n - i) + 2
main_left n c MainPc.destroying = 1
main_left n c _ = 0

abbrev pub weight : ℕ → Program → ℕ
weight n p = total left p.threads.readers + main_left n p.cancelled p.main_thread

abbrev pub IsLess : ℕ → Program → Program → Type 0
IsLess n p q = Closes n q.main_thread q × (weight n q < weight n p) × (q.created ≡ p.created)

main_less :
    (n : ℕ) (p : Program) (m : MainPc) (x : ℕ)
    → p.main_thread ≡ m
    → x < main_left n p.cancelled m
    → total left p.threads.readers + x < weight n p
main_less n p m x at h =
    subst
      (λ q.
        total left p.threads.readers + x < total left p.threads.readers + main_left n p.cancelled q)
      (sym at) (omega (arith, h))

-- One more reader is known to have ended.
Facts-more :
    {n i : ℕ} {readers : List ReaderPc}
    → Facts n i readers
    → get_elem? readers i ≡ some ReaderPc.finished
    → Facts n (i + 1) readers
Facts-more {n} {i} {readers} f there = record {
  number = f.number;
  ended = λ j h. elim (dec_lt j i) [
    | yes less ↦ f.ended j less
    | no more ↦
        let e : i ≡ j = omega (arith, h, more) in
        subst (λ x. get_elem? readers x ≡ some ReaderPc.finished) e there
  ];
}

join_reader-IsLess :
    (n i : ℕ) (p : Program) (o : Option ReaderPc)
    → p.main_thread ≡ MainPc.joining i
    → Closing n i p.threads
    → p.cancelled ≡ i + 1
    → i < n
    → get_elem? p.threads.readers i ≡ o
    → Kept (IsLess n p) (join_reader p o)
join_reader-IsLess n i p (some ReaderPc.finished) at c asked l there = (
  ((c.0, subst (λ k. Facts n k p.threads.readers) (sym asked) (Facts-more c.1 there)), omega arith),
  main_less n p (MainPc.joining i) (2 * (n - p.cancelled) + 3) at (omega arith),
  refl,
)
join_reader-IsLess n i p _ at c asked l there = tt

asks_next :
    (n : ℕ) (p : Program)
    → p.main_thread ≡ MainPc.cancelling
    → Closing n p.cancelled p.threads
    → p.cancelled < n
    → IsLess n p
        (record p { cancelled = p.cancelled + 1; main_thread = MainPc.joining p.cancelled })
asks_next n p at c l = (
  (c, refl, l),
  main_less n p MainPc.cancelling (2 * (n - p.cancelled) + 2) at (omega arith),
  refl,
)

asks_none :
    (n : ℕ) (p : Program)
    → p.main_thread ≡ MainPc.cancelling
    → Closing n p.cancelled p.threads
    → p.cancelled ≡ n
    → IsLess n p (record p { main_thread = MainPc.destroying })
asks_none n p at c e = (
  (subst (λ k. Closing n k p.threads) e c, e),
  main_less n p MainPc.cancelling 1 at (omega arith),
  refl,
)

either-IsLess :
    (n : ℕ) (p q r : Program) (b : Bool)
    → (b ≡ true → IsLess n p q)
    → (b ≡ false → IsLess n p r)
    → IsLess n p (if b then q else r)
either-IsLess n p q r true h k = h refl
either-IsLess n p q r false h k = k refl

main_step-IsLess :
    (n : ℕ) (works : Bool) (p : Program) (m : MainPc)
    → p.main_thread ≡ m
    → Closes n m p
    → Kept (IsLess n p) (main_step n works p m)
unfolding main_step
main_step-IsLess n works p MainPc.pausing at c = (
  (subst (λ k. Closing n k p.threads) (sym c.1) c.0, omega (arith, c.1)),
  main_less n p MainPc.pausing (2 * (n - p.cancelled) + 3) at (omega arith),
  refl,
)
main_step-IsLess n works p MainPc.cancelling at c =
    either-IsLess n p
      (record p { cancelled = p.cancelled + 1; main_thread = MainPc.joining p.cancelled })
      (record p { main_thread = MainPc.destroying }) (ltb p.cancelled n)
      (λ e. asks_next n p at c.0 (ground arith)) (λ e. asks_none n p at c.0 (ground (arith, c.1)))
main_step-IsLess n works p (MainPc.joining i) at c =
    join_reader-IsLess n i p (get_elem? p.threads.readers i) at c.0 c.1 c.2 refl
main_step-IsLess n works p MainPc.destroying at c =
    ((c.0, c.1, refl), main_less n p MainPc.destroying 0 at (omega arith), refl)
main_step-IsLess n works p (MainPc.exited zero) at c = tt
main_step-IsLess n works p _ at c = absurd c

-- The threads go on, and `main` stays where it is.
Closes-threads :
    (n : ℕ) (m : MainPc) (p : Program) (s : State)
    → Closes n m p
    → ((k : ℕ) → Closing n k p.threads → Closing n k s)
    → Closes n m (record p { threads = s })
Closes-threads n MainPc.pausing p s c f = (f 0 c.0, c.1)
Closes-threads n MainPc.cancelling p s c f = (f p.cancelled c.0, c.1)
Closes-threads n (MainPc.joining i) p s c f = (f i c.0, c.1, c.2)
Closes-threads n MainPc.destroying p s c f = (f n c.0, c.1)
Closes-threads n (MainPc.exited zero) p s c f = (f n c.0, c.1, c.2)
Closes-threads n _ p s c f = absurd c

Closes-Closing : (n : ℕ) (m : MainPc) (p : Program) → Closes n m p → (k : ℕ) × Closing n k p.threads
Closes-Closing n MainPc.pausing p c = (0, c.0)
Closes-Closing n MainPc.cancelling p c = (p.cancelled, c.0)
Closes-Closing n (MainPc.joining i) p c = (i, c.0)
Closes-Closing n MainPc.destroying p c = (n, c.0)
Closes-Closing n (MainPc.exited zero) p c = (n, c.0)
Closes-Closing n _ p c = absurd c

threads-IsLess :
    (n : ℕ) (p : Program) (o : Option State)
    → Closes n p.main_thread p
    → ((k : ℕ) → Closing n k p.threads → Kept (Nearer n k p.threads) o)
    → Kept (IsLess n p) (with_threads p o)
threads-IsLess n p none c f = tt
threads-IsLess n p (some s) c f =
    let (k, here) = Closes-Closing n p.main_thread p c in
    let (_, less) = f k here in
    (Closes-threads n p.main_thread p s c (λ j x. (f j x).0), omega (arith, less), refl)

pub program_step-IsLess :
    (y : System) (n : ℕ) (t : Turn) (p : Program)
    → Closes n p.main_thread p
    → Kept (IsLess n p) (program_step n y t p)
unfolding program_step
program_step-IsLess y n (thread e) p c =
    let o : Option Program = with_threads p (step y.prefers_writer e p.threads) in
    Kept-test (IsLess n p) (is_created p e) (if is_running p.main_thread then o else none) (λ _.
      Kept-test (IsLess n p) (is_running p.main_thread) o (λ _.
        threads-IsLess n p (step y.prefers_writer e p.threads) c
          (λ k x. step-Nearer y.prefers_writer n k e p.threads x)))
program_step-IsLess y n (main_turn works) p c = main_step-IsLess n works p p.main_thread refl c
program_step-IsLess y n (cancel i) p c =
    let o : Option Program =
      with_threads p (end_at y.ends_in_lock p.threads i (get_elem? p.threads.readers i)) in
    Kept-test (IsLess n p) (ltb i p.cancelled) (if is_running p.main_thread then o else none) (λ _.
      Kept-test (IsLess n p) (is_running p.main_thread) o (λ _.
        threads-IsLess n p (end_at y.ends_in_lock p.threads i (get_elem? p.threads.readers i)) c
          (λ k x.
            end_at-Nearer y.ends_in_lock n k p.threads i (get_elem? p.threads.readers i) x refl)))
