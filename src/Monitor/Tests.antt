-- ===== src/Monitor/Tests.antt =====
-- lab11/main.c: schedules of the readers and the writer, and the theorems at states that they reach.
use operation_systems_mirea.Base.{
  ℕ, zero, suc, ◌+◌, ◌≡◌, refl, true, false, List, [], ◌∷◌, ◌++◌, Option-cases, inl, inr,
}
use operation_systems_mirea.Base.Counts.{total, to_bit}
use operation_systems_mirea.Monitor.{
  State, WriterPc, Event, reader, writer_turn, step, Reach, begin, later, start,
}
use operation_systems_mirea.Monitor.Invariant.{reader_holds, writer_holds, text_of}
use operation_systems_mirea.Monitor.Safety.{readers_exclude_writer, one_holder}
use operation_systems_mirea.Monitor.Progress.{no_deadlock, Goes}

abbrev Run : ℕ → Type 0
Run n = (s : State) × Reach n s

-- A turn of a thread that is blocked changes nothing.
turn : {n : ℕ} → Run n → Event → Run n
unfolding Option-cases
turn (s, r) e = elim (Option-cases (step e s)) [ inl _ ↦ (s, r) | inr (t, p) ↦ (t, later e r p) ]

run : {n : ℕ} → List Event → Run n → Run n
run [] r = r
run (e ∷ es) r = run es (turn r e)

abbrev begun : (n : ℕ) → Run n
begun n = (start n, begin)

abbrev times : ℕ → Event → List Event
times zero e = []
times (suc k) e = e ∷ times k e

-- One of two readers prints while the writer waits for it.
abbrev while_reading : Run 2
while_reading = run (times 4 (reader 0) ++ times 3 writer_turn) (begun 2)

while_reading_state :
    (while_reading.0.writer ≡ WriterPc.asleep) × (while_reading.0.writer_waiting ≡ true)
unfolding run turn step
while_reading_state = (refl, refl)

readers_exclude_writer_example :
    (while_reading.0.writer_active ≡ false)
    × (while_reading.0.shared_buffer ≡ text_of while_reading.0.write_counter)
unfolding run turn step
readers_exclude_writer_example = readers_exclude_writer while_reading.1 0 refl

one_holder_example :
    total reader_holds while_reading.0.readers + writer_holds while_reading.0.writer
    ≡ to_bit while_reading.0.locked
one_holder_example = one_holder while_reading.1

no_deadlock_example : Goes while_reading.0
no_deadlock_example = no_deadlock while_reading.1

-- The last reader out wakes the writer.
hand_over : (run (times 3 (reader 0)) while_reading).0.writer ≡ WriterPc.woken
unfolding run turn step
hand_over = refl
