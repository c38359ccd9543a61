-- ===== src/Semaphore/Tests.antt =====
-- lab9/sender.c and lab9/receiver.c: schedules of the two processes, and the theorems at states that
-- they reach.
use operation_systems_mirea.Base.{
  arith, length, ◌≡◌, refl, true, false, List, [], ◌∷◌, ◌++◌, some, replicate, Option-cases, inl,
  inr,
}
use operation_systems_mirea.Monitor.{Buffer, record_of}
use operation_systems_mirea.Monitor.Invariant.{text_of}
use operation_systems_mirea.Base.Text.{codes}
use operation_systems_mirea.Base.Decimal.{decimal}
use operation_systems_mirea.Semaphore.Message.{
  Time, message_text, prepare_message, strncpy, shared_memory, receiver_line, print_received,
}
use operation_systems_mirea.Semaphore.Message.Whole.{print_received-prepare_message}
use operation_systems_mirea.Semaphore.{
  State, ReceiverPc, Event, sender_turn, receiver_turn, sender_signal, start, step, sender_cleanup,
  Reach, begin, later,
}
use operation_systems_mirea.Semaphore.Invariant.{sender_holds, is_partial}
use operation_systems_mirea.Semaphore.Safety.{received_whole}
use operation_systems_mirea.Semaphore.Blocking.{killed_receiver_blocks, Waits}

abbrev Run : State → Type 0
Run s0 = (s : State) × Reach s0 s

-- A turn of a process that is blocked changes nothing.
turn : {s0 : State} → Run s0 → Event → Run s0
unfolding Option-cases
turn (s, r) e = elim (Option-cases (step e s)) [ inl _ ↦ (s, r) | inr (t, p) ↦ (t, later e r p) ]

run : {s0 : State} → List Event → Run s0 → Run s0
run [] r = r
run (e ∷ es) r = run es (turn r e)

-- The sender has sent a message, and the receiver has read it and holds the semaphore.
abbrev reading : Run start
reading =
    run
      (replicate 12 (sender_turn true)
        ++ replicate 4 (receiver_turn true)
        ++ replicate 2 (receiver_turn true))
      (start, begin)

reading_state : (reading.0.receiver ≡ ReceiverPc.printing) × (reading.0.received_data ≡ record_of 1)
unfolding run turn step
reading_state = (refl, refl)

received_whole_example :
    (sender_holds reading.0.sender ≡ 0)
    × (reading.0.memory ≡ text_of reading.0.message_count)
    × (is_partial reading.0.received_data ≡ false)
unfolding run turn step
received_whole_example = received_whole reading.1 refl refl

-- In the middle of a message.
abbrev filling : Run start
filling = run (replicate 10 (sender_turn true)) (start, begin)

-- A signal comes then; and the receiver begins after it.
abbrev ended : Run (sender_cleanup filling.0)
ended = run (replicate 4 (receiver_turn true)) (sender_cleanup filling.0, begin)

-- A signal between the return of `semget` and the store of its number leaves the semaphore.
left_over :
    (run (replicate 6 (sender_turn true) ++ sender_signal ∷ []) (start, begin)).0.sem ≡ some 0
unfolding run turn step
left_over = refl

abbrev killed : State
killed = record reading.0 { receiver = ReceiverPc.exited 0 }

-- The sender tries on and on.
abbrev waiting : Run killed
waiting = run (replicate 20 (sender_turn true)) (killed, begin)

killed_receiver_blocks_example : Waits 1 waiting.0
unfolding run turn step
killed_receiver_blocks_example = killed_receiver_blocks reading.1 refl refl refl waiting.1

-- Once the sender is gone, the receiver reads on without the semaphore, also half of a message.
half_read :
    (run
      (replicate 12 (sender_turn true)
        ++ replicate 4 (receiver_turn true)
        ++ replicate 2 (sender_turn true)
        ++ sender_signal ∷ replicate 2 (receiver_turn true))
      (start, begin)).0.received_data
    ≡ Buffer.partial
unfolding run turn step
half_read = refl

abbrev morning : Time
morning = record { hour = 9; minute = 5; second = 7 }

abbrev later_on : Time
later_on = record { hour = 9; minute = 5; second = 8 }

shown_text :
    print_received later_on 17 (shared_memory (prepare_message 1 morning 4242))
    ≡ codes
        "[Receiver] Local time: 09:05:08, PID: 17, Data: [Message #1] Time: 09:05:07, PID: 4242\n"
unfolding message_text strncpy receiver_line decimal
shown_text = refl

print_received-prepare_message_example :
    (length (shared_memory (prepare_message 1 morning 4242)) ≡ 1024)
    × (print_received later_on 17 (shared_memory (prepare_message 1 morning 4242))
        ≡ receiver_line later_on 17 (message_text 1 morning 4242))
print_received-prepare_message_example =
    print_received-prepare_message 1 morning 4242 later_on 17 (omega arith)
      (omega arith, omega arith, omega arith) (omega arith)
