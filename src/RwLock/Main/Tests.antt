-- ===== src/RwLock/Main/Tests.antt =====
-- lab10/main.c: schedules of the whole program, and the theorems at states that they reach.
use operation_systems_mirea.Base.{
  ◌<◌, ◌≡◌, refl, true, false, List, [], ◌∷◌, ◌++◌, replicate, Option, is_some, none, some, arith,
  Option-cases, inl, inr,
}
use operation_systems_mirea.Base.Schedule.{Ends}
use operation_systems_mirea.Base.Counts.{get_elem?}
use operation_systems_mirea.RwLock.{ReaderPc, reader, writer_turn, step}
use operation_systems_mirea.RwLock.Main.{
  System, Program, MainPc, Turn, thread, main_turn, cancel, program_step, Runs, begin, next, begun,
}
use operation_systems_mirea.RwLock.Main.Ending.{IsOver}
use operation_systems_mirea.RwLock.Main.Shutdown.{main-Ends}
use operation_systems_mirea.RwLock.Main.Leak.{Runs-locked}

abbrev glibc : System
glibc = record { prefers_writer = false; ends_in_lock = false }

abbrev Run : Program → Type 0
Run p0 = (p : Program) × Runs 2 glibc p0 p

-- A turn of a thread that waits changes nothing.
turn : {p0 : Program} → Run p0 → Turn → Run p0
unfolding Option-cases
turn (p, r) t = elim (Option-cases (program_step 2 glibc t p)) [
  | inl _ ↦ (p, r)
  | inr (q, e) ↦ (q, next t r e)
]

run : {p0 : Program} → List Turn → Run p0 → Run p0
run [] r = r
run (t ∷ ts) r = run ts (turn r t)

-- The writer does all its turns, a reader begins to print, and `main` asks it to end.
abbrev printing : Run (begun 2)
printing =
    run
      (replicate 5 (main_turn true)
        ++ replicate 121 (thread writer_turn)
        ++ replicate 2 (thread (reader 0))
        ++ thread writer_turn ∷ main_turn true ∷ main_turn true ∷ main_turn true ∷ [])
      (begun 2, begin)

printing_state :
    (printing.0.main_thread ≡ MainPc.joining 0)
    × (printing.0.threads.readers ≡ ReaderPc.reading ∷ ReaderPc.looping ∷ [])
unfolding run turn program_step step
printing_state = (refl, refl)

-- What a step comes to that can be taken.
taken : (o : Option Program) → is_some o ≡ true → (q : Program) × (o ≡ some q)
taken none h = absurd (ground arith)
taken (some q) h = (q, refl)

can_end : is_some (program_step 2 glibc (cancel 0) printing.0) ≡ true
unfolding run turn program_step step
can_end = refl

-- It ends there, and `main` runs to its end.
ended : (q : Program) × (program_step 2 glibc (cancel 0) printing.0 ≡ some q)
ended = taken (program_step 2 glibc (cancel 0) printing.0) can_end

leaked : Run ended.0
leaked =
    run (replicate 2 (main_turn true) ++ cancel 1 ∷ replicate 3 (main_turn true)) (ended.0, begin)

leaked_state : leaked.0.main_thread ≡ MainPc.exited 0
unfolding run turn program_step step taken ended leaked
leaked_state = refl

reads_there : get_elem? printing.0.threads.readers 0 ≡ some ReaderPc.reading
unfolding run turn program_step step
reads_there = refl

Runs-locked_example : 0 < leaked.0.threads.read_locks
Runs-locked_example = Runs-locked 0 printing.1 reads_there ended.1 leaked.1

main-Ends_example : Ends (program_step 2 glibc) (IsOver 2) printing.0
unfolding run turn program_step step
main-Ends_example = main-Ends printing.1 refl
