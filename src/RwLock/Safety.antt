-- ===== src/RwLock/Safety.antt =====
-- lab10/main.c: what no schedule of the readers and the writer can break.
use operation_systems_mirea.Base.{ℕ, ◌≡◌, refl, Bool, false, some, arith, Option-cases, inl, inr}
use operation_systems_mirea.Base.Schedule.{Kept, Kept-some}
use operation_systems_mirea.Base.Counts.{get_elem?, le-total, total-replicate}
use operation_systems_mirea.Monitor.{record_of}
use operation_systems_mirea.Monitor.Invariant.{text_of}
use operation_systems_mirea.RwLock.{
  State, ReaderPc, WriterPc, Event, reader, writer_turn, step, Reach, begin, later, start,
  max_operations,
}
use operation_systems_mirea.RwLock.Invariant.{Inv, reader_step-Inv, writer_step-Inv, reader_holds}

Inv-start : (n : ℕ) → Inv (start n)
Inv-start n = ground (arith, total-replicate reader_holds n ReaderPc.looping refl)

step-Kept : (w : Bool) (e : Event) (s : State) → Inv s → Kept Inv (step w e s)
unfolding step
step-Kept w (reader i) s inv = elim (Option-cases (get_elem? s.readers i)) [
  | inl e ↦ rw (e, step) tt
  | inr (p, e) ↦ rw (e, step) (reader_step-Inv w s i p inv e)
]
step-Kept w writer_turn s inv = writer_step-Inv s s.writer inv refl

-- Every step keeps the invariant.
pub Reach-Inv : {w : Bool} {n : ℕ} {s : State} → Reach w n s → Inv s
Reach-Inv {n = n} begin = Inv-start n
Reach-Inv {w} (later e r p) = Kept-some Inv p (step-Kept w e _ (Reach-Inv r))

-- While a reader prints the buffer, nobody has the lock for writing, and the buffer holds the text of
-- the last counted write, whole. This holds whether the lock prefers writers or not.
pub printed_is_whole :
    {prefers_writer : Bool} {n : ℕ} {s : State}
    → Reach prefers_writer n s
    → (i : ℕ) → get_elem? s.readers i ≡ some ReaderPc.reading
    → (s.write_locked ≡ false) × (s.shared_buffer ≡ text_of s.write_counter)
printed_is_whole {s = s} r i here =
    ground (arith, Reach-Inv r, le-total reader_holds s.readers i ReaderPc.reading here)

-- When the writer has returned, it has made `max_operations` writes, the readers are told to stop,
-- and the buffer holds the text of the last write.
pub all_written :
    {prefers_writer : Bool} {n : ℕ} {s : State}
    → Reach prefers_writer n s
    → s.writer ≡ WriterPc.finished
    → (s.write_counter ≡ max_operations)
      × (s.running ≡ false)
      × (s.shared_buffer ≡ record_of max_operations)
all_written r done = ground (arith, Reach-Inv r)
