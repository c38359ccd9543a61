-- ===== src/Channel/Tests.antt =====
-- lab6: schedules of the programs, and the theorems at states that they reach.
use operation_systems_mirea.Base.{
  ◌≡◌, refl, List, [], ◌∷◌, ◌++◌, replicate, some, Option-cases, inl, inr, true, false,
}
use operation_systems_mirea.Base.Decimal.{decimal}
use operation_systems_mirea.Channel
use operation_systems_mirea.Channel.Fifo
use operation_systems_mirea.Channel.Fifo.{producer_turn, consumer_turn}
use operation_systems_mirea.Channel.Pipe
use operation_systems_mirea.Channel.Pipe.{parent_turn, child_turn}
use operation_systems_mirea.Channel.Fifo.Facts.{IsTold, IsDone, has_ended}
use operation_systems_mirea.Channel.Fifo.Safety.{consumer-IsTold}
use operation_systems_mirea.Base.Schedule.{Ends}
use operation_systems_mirea.Channel.Fifo.Delivery.{IsDelivered, start-IsDelivered}
use operation_systems_mirea.Channel.Fifo.Ending as FifoEnding
use operation_systems_mirea.Channel.Pipe.Delivery.{IsPrinted, start-IsPrinted}
use operation_systems_mirea.Channel.Pipe.Ending as PipeEnding
use operation_systems_mirea.Channel.Pipe.Facts as PipeFacts
use operation_systems_mirea.Channel.Pipe.Safety.{IsGiven, child-IsTold}

abbrev fifo_setting : Fifo.Setting
fifo_setting = record { pid = 42; local_time = decimal }

abbrev FifoRun : Type 0
FifoRun = (s : Fifo.State) × Fifo.Reach fifo_setting s

-- A turn of a process that is blocked changes nothing.
fifo_turn : FifoRun → Fifo.Event → FifoRun
unfolding Option-cases
fifo_turn (s, r) e = elim (Option-cases (Fifo.step fifo_setting e s)) [
  | inl _ ↦ (s, r)
  | inr (t, p) ↦ (t, Fifo.later e r p)
]

fifo_run : List Fifo.Event → FifoRun → FifoRun
fifo_run [] r = r
fifo_run (e ∷ es) r = fifo_run es (fifo_turn r e)

-- The consumer comes first, the producer writes at second 100.
abbrev passed : FifoRun
passed =
    fifo_run
      (replicate 3 (consumer_turn true)
        ++ replicate 5 (producer_turn true)
        ++ replicate 4 (consumer_turn true)
        ++ replicate 10 Fifo.tick
        ++ replicate 4 (consumer_turn true)
        ++ replicate 3 (producer_turn true))
      (Fifo.start false 100, Fifo.begin false 100)

passed_state :
    (passed.0.printed ≡ some (Fifo.message fifo_setting 100, 110, 10))
    × (passed.0.consumer ≡ Fifo.ConsumerPc.exited)
    × (passed.0.fifo ≡ false)
unfolding fifo_run fifo_turn Fifo.step decimal Channel.format_message
passed_state = (refl, refl, refl)

consumer-IsTold_example :
    IsTold fifo_setting passed.0.timestamp passed.0.printed
    × IsDone (has_ended passed.0.consumer) passed.0.printed
consumer-IsTold_example = consumer-IsTold fifo_setting passed.1

start-IsDelivered_example :
    Ends (FifoEnding.turn fifo_setting) (IsDelivered fifo_setting) (Fifo.start true 100)
start-IsDelivered_example = start-IsDelivered fifo_setting true 100

abbrev pipe_setting : Pipe.Setting
pipe_setting = record { pid = 42; local_time = decimal }

abbrev PipeRun : Type 0
PipeRun = (s : Pipe.State) × Pipe.Reach pipe_setting s

pipe_turn : PipeRun → Pipe.Event → PipeRun
unfolding Option-cases
pipe_turn (s, r) e = elim (Option-cases (Pipe.step pipe_setting e s)) [
  | inl _ ↦ (s, r)
  | inr (t, p) ↦ (t, Pipe.later e r p)
]

pipe_run : List Pipe.Event → PipeRun → PipeRun
pipe_run [] r = r
pipe_run (e ∷ es) r = pipe_run es (pipe_turn r e)

-- The parent writes at once.
abbrev told : PipeRun
told =
    pipe_run
      (replicate 5 (parent_turn true)
        ++ child_turn true ∷ replicate 5 Pipe.tick
        ++ replicate 4 (child_turn true)
        ++ replicate 1 (parent_turn true))
      (Pipe.start 100, Pipe.begin 100)

told_state :
    (told.0.printed ≡ some (some (Pipe.message pipe_setting 100), 105))
    × (told.0.parent ≡ Pipe.ParentPc.exited)
unfolding pipe_run pipe_turn Pipe.step decimal Channel.format_message
told_state = (refl, refl)

child-IsTold_example :
    IsGiven pipe_setting told.0.has_written told.0.read_failed told.0.fork_time told.0.timestamp
      told.0.printed
    × PipeFacts.IsDone (PipeFacts.has_ended told.0.child) told.0.printed
child-IsTold_example = child-IsTold pipe_setting told.1

-- The parent runs on only five seconds after `fork`: both times are then the same.
late_parent :
    (pipe_run
      (replicate 2 (parent_turn true)
        ++ child_turn true ∷ replicate 5 Pipe.tick
        ++ replicate 2 (parent_turn true)
        ++ replicate 4 (child_turn true))
      (Pipe.start 100, Pipe.begin 100)).0.printed
    ≡ some (some (Pipe.message pipe_setting 105), 105)
unfolding pipe_run pipe_turn Pipe.step decimal Channel.format_message
late_parent = refl

start-IsPrinted_example :
    Ends (PipeEnding.turn pipe_setting) (IsPrinted pipe_setting) (Pipe.start 100)
start-IsPrinted_example = start-IsPrinted pipe_setting 100
