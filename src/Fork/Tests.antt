-- ===== src/Fork/Tests.antt =====
-- lab3/main.c: runs of the two processes, and the theorem at states that they reach.
use operation_systems_mirea.Base.{
  ℕ, ◌≡◌, refl, List, [], ◌∷◌, ◌++◌, replicate, Option-cases, inl, inr, Bool, true, false,
}
use operation_systems_mirea.Fork.{
  State, Event, parent_turn, child_turn, child_signal, Line, the_parent, the_child, exit_handler,
  start, step, Reach, begin, later,
}
use operation_systems_mirea.Fork.Counts.{total, is_start, is_exit}
use operation_systems_mirea.Fork.Output.{ended-lines}

abbrev Run : Bool → Type 0
Run terminal = (s : State) × Reach terminal s

-- A turn of a process that waits changes nothing.
turn : {terminal : Bool} → Run terminal → Event → Run terminal
unfolding Option-cases
turn (s, r) e = elim (Option-cases (step e s)) [ inl _ ↦ (s, r) | inr (t, p) ↦ (t, later e r p) ]

run : {terminal : Bool} → List Event → Run terminal → Run terminal
run [] r = r
run (e ∷ es) r = run es (turn r e)

-- Both come to the end of their text, with standard output in a file.
abbrev to_file : Run false
to_file =
    run (replicate 6 (parent_turn true) ++ replicate 4 child_turn ++ replicate 4 (parent_turn true))
      (start false, begin)

to_file_lines :
    to_file.0.out
    ≡ exit_handler the_parent
      ∷ Line.parent_completed
      ∷ Line.child_exited 42
      ∷ Line.created_child
      ∷ Line.parent_started
      ∷ exit_handler the_child
      ∷ Line.child_completed
      ∷ Line.child_running
      ∷ Line.parent_started
      ∷ []
unfolding run turn step
to_file_lines = refl

ended-lines_example :
    (total (is_exit the_parent) to_file.0.out ≡ 1)
    × (total (is_exit the_child) to_file.0.out ≡ 1)
    × (total is_start to_file.0.out ≡ 2)
unfolding run turn step
ended-lines_example = ended-lines to_file.1 refl refl

-- SIGTERM has a handler that ends the child with status 0; any other signal is reported as one.
abbrev signalled : ℕ → Run true
signalled number =
    run
      (replicate 6 (parent_turn true)
        ++ child_turn ∷ child_signal number ∷ replicate 2 (parent_turn true))
      (start true, begin)

terminated_lines :
    (signalled 15).0.out
    ≡ Line.child_exited 0
      ∷ exit_handler the_child
      ∷ Line.received_signal the_child 15
      ∷ Line.child_running
      ∷ Line.created_child
      ∷ Line.parent_started
      ∷ []
unfolding run turn step
terminated_lines = refl

killed_lines :
    (signalled 9).0.out
    ≡ Line.child_terminated 9 ∷ Line.child_running ∷ Line.created_child ∷ Line.parent_started ∷ []
unfolding run turn step
killed_lines = refl
