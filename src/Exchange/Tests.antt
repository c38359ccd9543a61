-- ===== src/Exchange/Tests.antt =====
-- lab9/main.c: a schedule of the threads, and the theorems at states that it reaches.
use operation_systems_mirea.Base.{
  ◌≡◌, refl, List, [], ◌∷◌, ◌++◌, arith, Option-cases, inl, inr, true,
}
use operation_systems_mirea.Monitor.{initial, record_of}
use operation_systems_mirea.Exchange.{
  State, Event, producer_turn, consumer_turn, main_turn, created, consumed, producer_started,
  consumer_started, start, step, Reach, begin, later,
}
use operation_systems_mirea.Exchange.Output.{IsInOrder, output-IsInOrder}
use operation_systems_mirea.Exchange.Progress.{Soon, Reach-Soon}

abbrev Run : Type 0
Run = (s : State) × Reach s

-- A turn of a thread that is blocked changes nothing.
turn : Run → Event → Run
unfolding Option-cases
turn (s, r) e = elim (Option-cases (step e s)) [ inl _ ↦ (s, r) | inr (t, p) ↦ (t, later e r p) ]

run : List Event → Run → Run
run [] r = r
run (e ∷ es) r = run es (turn r e)

abbrev round_of : Event → List Event
round_of e = e ∷ e ∷ e ∷ e ∷ e ∷ []

-- The consumer prints the first text, the producer creates a message, the consumer prints that; the
-- producer then holds the mutex.
abbrev traded : Run
traded =
    run
      (main_turn true
          ∷ main_turn true
          ∷ main_turn true
          ∷ consumer_turn
          ∷ consumer_turn
          ∷ consumer_turn
          ∷ consumer_turn
          ∷ producer_turn
          ∷ round_of producer_turn
        ++ consumer_turn ∷ consumer_turn ∷ consumer_turn ∷ []
        ++ round_of producer_turn)
      (start, begin)

traded_lines :
    traded.0.output
    ≡ created (record_of 2)
      ∷ consumed (record_of 1)
      ∷ created (record_of 1)
      ∷ producer_started
      ∷ consumed initial
      ∷ consumer_started
      ∷ []
unfolding run turn step
traded_lines = refl

output-IsInOrder_example : IsInOrder traded.0.output
output-IsInOrder_example = output-IsInOrder traded.1

Reach-Soon_example : Soon 6 traded.0
unfolding run turn step
Reach-Soon_example = Reach-Soon traded.1 refl (λ e. absurd (ground arith))
