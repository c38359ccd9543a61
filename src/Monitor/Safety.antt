-- ===== src/Monitor/Safety.antt =====
-- lab11/main.c: what no schedule of the readers and the writer can break.
use operation_systems_mirea.Base.{ℕ, ◌+◌, ◌≡◌, refl, false, some, arith, Option-cases, inl, inr}
use operation_systems_mirea.Base.Schedule.{Kept, Kept-some}
use operation_systems_mirea.Base.Counts.{get_elem?, total, le-total, total-replicate, to_bit}
use operation_systems_mirea.Monitor.{
  State, ReaderPc, WriterPc, Event, reader, writer_turn, spurious_reader, spurious_writer, step,
  Reach, begin, later, start, wake_alone, wake_writer_alone, record_of, max_operations,
}
use operation_systems_mirea.Monitor.Invariant.{
  Inv, reader_step-Inv, writer_step-Inv, spurious_reader-Inv, reader_holds, writer_holds, is_active,
  is_asleep, text_of,
}

Inv-start : (n : ℕ) → Inv (start n)
Inv-start n = ground (
  arith,
  total-replicate reader_holds n ReaderPc.looping refl,
  total-replicate is_active n ReaderPc.looping refl,
  total-replicate is_asleep n ReaderPc.looping refl,
)

wake_alone-Kept :
    (s : State) (i : ℕ) (p : ReaderPc)
    → Inv s
    → get_elem? s.readers i ≡ some p
    → Kept Inv (wake_alone s i p)
wake_alone-Kept s i ReaderPc.asleep inv there = spurious_reader-Inv s i inv there
wake_alone-Kept s i _ inv there = tt

wake_writer_alone-Kept :
    (s : State) (w : WriterPc) → Inv s → s.writer ≡ w → Kept Inv (wake_writer_alone s w)
wake_writer_alone-Kept s WriterPc.asleep inv there = ground arith
wake_writer_alone-Kept s _ inv there = tt

step-Kept : (e : Event) (s : State) → Inv s → Kept Inv (step e s)
unfolding step
step-Kept (reader i) s inv = elim (Option-cases (get_elem? s.readers i)) [
  | inl e ↦ rw (e, step) tt
  | inr (p, e) ↦ rw (e, step) (reader_step-Inv s i p inv e)
]
step-Kept writer_turn s inv = writer_step-Inv s s.writer inv refl
step-Kept (spurious_reader i) s inv = elim (Option-cases (get_elem? s.readers i)) [
  | inl e ↦ rw (e, step) tt
  | inr (p, e) ↦ rw (e, step) (wake_alone-Kept s i p inv e)
]
step-Kept spurious_writer s inv = wake_writer_alone-Kept s s.writer inv refl

-- Every step keeps the invariant.
pub Reach-Inv : {n : ℕ} {s : State} → Reach n s → Inv s
Reach-Inv {n} begin = Inv-start n
Reach-Inv (later e r p) = Kept-some Inv p (step-Kept e _ (Reach-Inv r))

module _ {n : ℕ} {s : State} (r : Reach n s) where
  -- While a reader prints the buffer, the writer is not in its turn, and the buffer holds the text
  -- of the last counted write, whole.
  pub readers_exclude_writer :
      (i : ℕ)
      → get_elem? s.readers i ≡ some ReaderPc.reading
      → (s.writer_active ≡ false) × (s.shared_buffer ≡ text_of s.write_counter)
  readers_exclude_writer i here =
      ground (arith, Reach-Inv r, le-total is_active s.readers i ReaderPc.reading here)

  -- The mutex has one holder at most, over the readers and the writer, and one exactly when it is
  -- locked.
  pub one_holder : total reader_holds s.readers + writer_holds s.writer ≡ to_bit s.locked
  one_holder = (Reach-Inv r).mutex

  -- When the writer has returned, it has made `max_operations` writes, each counted once, the
  -- readers are told to stop, and the buffer holds the text of the last write.
  pub writer_finished :
      s.writer ≡ WriterPc.finished
      → (s.operations ≡ max_operations)
        × (s.write_counter ≡ max_operations)
        × (s.running ≡ false)
        × (s.shared_buffer ≡ record_of max_operations)
  writer_finished done = ground (arith, Reach-Inv r)
