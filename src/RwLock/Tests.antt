-- ===== src/RwLock/Tests.antt =====
-- lab10/main.c: schedules of the readers and the writer, and the theorems at states that they reach.
use operation_systems_mirea.Base.{
  ℕ, ◌≡◌, refl, Bool, true, false, List, [], ◌∷◌, ◌++◌, none, replicate, Option-cases, inl, inr,
}
use operation_systems_mirea.Monitor.Invariant.{text_of}
use operation_systems_mirea.RwLock.{
  State, Event, reader, writer_turn, step, Reach, begin, later, start,
}
use operation_systems_mirea.RwLock.Safety.{printed_is_whole}
use operation_systems_mirea.RwLock.Progress.{Reach-GoesOn, GoesOn}

abbrev Run : Bool → ℕ → Type 0
Run w n = (s : State) × Reach w n s

-- A turn of a thread that is blocked changes nothing.
turn : {w : Bool} {n : ℕ} → Run w n → Event → Run w n
unfolding Option-cases
turn {w} (s, r) e = elim (Option-cases (step w e s)) [
  | inl _ ↦ (s, r)
  | inr (t, p) ↦ (t, later e r p)
]

run : {w : Bool} {n : ℕ} → List Event → Run w n → Run w n
run [] r = r
run (e ∷ es) r = run es (turn r e)

-- One of two readers prints, and the writer asks for the lock.
abbrev asked : Run true 2
asked = run (replicate 2 (reader 0) ++ replicate 3 writer_turn) (start 2, begin)

-- The other reader then waits behind the writer.
behind_the_writer : step true (reader 1) (run (reader 1 ∷ []) asked).0 ≡ none
unfolding run turn step
behind_the_writer = refl

printed_is_whole_example :
    (asked.0.write_locked ≡ false) × (asked.0.shared_buffer ≡ text_of asked.0.write_counter)
unfolding run turn step
printed_is_whole_example = printed_is_whole asked.1 0 refl

Reach-GoesOn_example : GoesOn true asked.0
Reach-GoesOn_example = Reach-GoesOn asked.1
