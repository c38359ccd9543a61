-- ===== src/Threads/Tests.antt =====
-- lab8/main.c: schedules of `main`, the readers and the writer, and the theorems at states that they
-- reach.
use operation_systems_mirea.Base.{
  ℕ, ◌≡◌, refl, true, false, List, [], ◌∷◌, ◌++◌, replicate, Option-cases, inl, inr,
}
use operation_systems_mirea.Base.Counts.{total}
use operation_systems_mirea.Threads.{
  State, MainPc, Event, reader, writer_turn, main_turn, step, Reach, begin, later, start,
}
use operation_systems_mirea.Threads.Invariant.{is_unfinished, is_gone}
use operation_systems_mirea.Threads.Safety.{destroyed_unused}
use operation_systems_mirea.Threads.Ending.{joining-Ends, IsOver}
use operation_systems_mirea.Base.Schedule.{Ends}

abbrev Run : ℕ → Type 0
Run n = (s : State) × Reach n s

-- A turn of a thread that is blocked changes nothing.
turn : {n : ℕ} → Run n → Event → Run n
unfolding Option-cases
turn {n} (s, r) e = elim (Option-cases (step n e s)) [
  | inl _ ↦ (s, r)
  | inr (t, p) ↦ (t, later e r p)
]

run : {n : ℕ} → List Event → Run n → Run n
run [] r = r
run (e ∷ es) r = run es (turn r e)

-- A write, and then a reader that prints.
abbrev printing : Run 2
printing =
    run (replicate 3 (main_turn true) ++ replicate 5 writer_turn ++ replicate 2 (reader 1))
      (start, begin)

-- The time is over while the reader prints.
abbrev stopped : Run 2
stopped = run (replicate 2 (main_turn true)) printing

joining-Ends_example : Ends (step 2) IsOver stopped.0
unfolding run turn step
joining-Ends_example = joining-Ends stopped.1 refl

-- The second reader cannot be created: the first and the writer are joined.
abbrev given_up : Run 2
given_up =
    run
      (replicate 2 (main_turn true)
        ++ main_turn false ∷ reader 0 ∷ writer_turn ∷ replicate 5 (main_turn true))
      (start, begin)

given_up_main : given_up.0.main_thread ≡ MainPc.exited false
unfolding run turn step
given_up_main = refl

destroyed_unused_example :
    (given_up.0.locked ≡ false)
    × (total is_unfinished given_up.0.readers ≡ 0)
    × (is_gone given_up.0.writer ≡ true)
unfolding run turn step
destroyed_unused_example = destroyed_unused given_up.1 refl
