-- ===== src/Monitor/Main/Tests.antt =====
-- lab11/main.c: schedules of the whole program, and the theorems at states that they reach.
use operation_systems_mirea.Base.{
  ◌≡◌, refl, Bool, true, false, List, [], ◌∷◌, ◌++◌, replicate, none, Option-cases, inl, inr,
}
use operation_systems_mirea.Base.Schedule.{Ends}
use operation_systems_mirea.Monitor.{ReaderPc, reader, writer_turn, step, start}
use operation_systems_mirea.Monitor.Main.{
  Program, MainPc, Turn, thread, main_turn, cancel, program_step, Runs, begin, next, begun,
}
use operation_systems_mirea.Monitor.Main.Ending.{IsOver}
use operation_systems_mirea.Monitor.Main.Shutdown.{shutdown-Ends}

abbrev Run : Bool → Type 0
Run late = (p : Program) × Runs 2 late p

-- A turn of a thread that waits changes nothing.
turn : {late : Bool} → Run late → Turn → Run late
unfolding Option-cases
turn {late} (p, r) t = elim (Option-cases (program_step 2 late t p)) [
  | inl _ ↦ (p, r)
  | inr (q, e) ↦ (q, next t r e)
]

run : {late : Bool} → List Turn → Run late → Run late
run [] r = r
run (t ∷ ts) r = run ts (turn r t)

abbrev the_start : Program
the_start = begun (start 2)

abbrev created : List Turn
created = replicate 7 (main_turn true)

-- The first reader is about to print while the second is not there yet.
abbrev early_reader : Run false
early_reader =
    run (replicate 4 (main_turn true) ++ replicate 4 (thread (reader 0)) ++ thread (reader 1) ∷ [])
      (begun (start 2), begin)

early_readers : early_reader.0.threads.readers ≡ ReaderPc.reading ∷ ReaderPc.looping ∷ []
unfolding run turn program_step step
early_readers = refl

-- The second reader cannot be created while the first is before its call of the lock.
failed_creation :
    (run {late = false}
      (replicate 4 (main_turn true) ++ thread (reader 0) ∷ main_turn false ∷ thread (reader 0) ∷ [])
      (the_start, begin)).0.main_thread
    ≡ MainPc.undefined
unfolding run turn program_step step
failed_creation = refl

-- The writer does all its turns, and `main` joins it while a reader prints.
abbrev joined : Run false
joined =
    run
      (created
        ++ replicate 203 (thread writer_turn)
        ++ main_turn true ∷ main_turn true ∷ main_turn true ∷ cancel 0 ∷ [])
      (begun (start 2), begin)

joined_state :
    (joined.0.main_thread ≡ MainPc.joining 0)
    × (joined.0.threads.readers ≡ ReaderPc.finished ∷ ReaderPc.looping ∷ [])
unfolding run turn program_step step
joined_state = (refl, refl)

shutdown-Ends_example : Ends (program_step 2 false) (IsOver 2) joined.0
unfolding run turn program_step step
shutdown-Ends_example = shutdown-Ends joined.1 refl

-- Where a woken thread can end inside `pthread_cond_wait`: the first reader does so with the mutex, the
-- second waits for it, and `main` for the second.
abbrev hung : Run true
hung =
    run
      (created
        ++ replicate 5 (thread writer_turn)
        ++ replicate 3 (thread (reader 0))
        ++ thread (reader 1) ∷ replicate 198 (thread writer_turn)
        ++ main_turn true
          ∷ main_turn true
          ∷ main_turn true
          ∷ cancel 0
          ∷ main_turn true
          ∷ main_turn true
          ∷ [])
      (begun (start 2), begin)

hung_state :
    (hung.0.main_thread ≡ MainPc.joining 1)
    × (program_step 2 true (main_turn true) hung.0 ≡ none)
    × (program_step 2 true (thread (reader 1)) hung.0 ≡ none)
    × (program_step 2 true (cancel 1) hung.0 ≡ none)
    × (program_step 2 true (thread writer_turn) hung.0 ≡ none)
unfolding run turn program_step step
hung_state = (refl, refl, refl, refl, refl)
