-- ===== src/Monitor/Lengths.antt =====
-- lab11/main.c: the number of the readers does not change.
use operation_systems_mirea.Base.{
  ℕ, suc, ◌≡◌, refl, ap, ◌∙◌, List, map, [], ◌∷◌, arith, Option-cases, inl, inr, if◌then◌else◌,
  length, length-replicate,
}
use operation_systems_mirea.Base.Schedule.{Kept, Kept-some}
use operation_systems_mirea.Base.Counts.{get_elem?, length-set}
use operation_systems_mirea.Monitor.{
  State, ReaderPc, WriterPc, Event, reader, writer_turn, spurious_reader, spurious_writer, move,
  reader_step, writer_step, wake_alone, wake_writer_alone, broadcast, wake_reader, step, start,
  Reach, later,
}
use operation_systems_mirea.Monitor

length-map : (f : ReaderPc → ReaderPc) (rs : List ReaderPc) → length (map f rs) ≡ length rs
length-map f [] = refl
length-map f (p ∷ rs) = ap suc (length-map f rs)

abbrev SameLength : State → State → Type 0
SameLength s t = length t.readers ≡ length s.readers

reader_step-SameLength :
    (s : State) (i : ℕ) (p : ReaderPc) → Kept (SameLength s) (reader_step s i p)
unfolding reader_step
reader_step-SameLength s i ReaderPc.looping =
    length-set s.readers i (if s.running then ReaderPc.locking else ReaderPc.finished)
reader_step-SameLength s i ReaderPc.checking =
    ground (arith, length-set s.readers i ReaderPc.asleep, length-set s.readers i ReaderPc.entered)
reader_step-SameLength s i ReaderPc.finished = tt
reader_step-SameLength s i ReaderPc.asleep = tt
reader_step-SameLength s i ReaderPc.locking =
    ground (arith, length-set s.readers i ReaderPc.checking)
reader_step-SameLength s i ReaderPc.woken = ground (arith, length-set s.readers i ReaderPc.checking)
reader_step-SameLength s i ReaderPc.entered = length-set s.readers i ReaderPc.reading
reader_step-SameLength s i ReaderPc.reading = length-set s.readers i ReaderPc.leaving
reader_step-SameLength s i ReaderPc.leaving =
    ground (arith, length-set s.readers i ReaderPc.counting_out)
reader_step-SameLength s i ReaderPc.counting_out = length-set s.readers i ReaderPc.releasing
reader_step-SameLength s i ReaderPc.releasing = length-set s.readers i ReaderPc.looping

writer_step-SameLength : (s : State) (w : WriterPc) → Kept (SameLength s) (writer_step s w)
unfolding writer_step
writer_step-SameLength s WriterPc.finishing = ground (arith, length-map wake_reader s.readers)
writer_step-SameLength s WriterPc.stopping = length-map wake_reader s.readers
writer_step-SameLength s _ = ground arith

wake_alone-SameLength : (s : State) (i : ℕ) (p : ReaderPc) → Kept (SameLength s) (wake_alone s i p)
wake_alone-SameLength s i ReaderPc.asleep = length-set s.readers i ReaderPc.woken
wake_alone-SameLength s i _ = tt

wake_writer_alone-SameLength :
    (s : State) (w : WriterPc) → Kept (SameLength s) (wake_writer_alone s w)
wake_writer_alone-SameLength s WriterPc.asleep = refl
wake_writer_alone-SameLength s _ = tt

step-SameLength : (e : Event) (s : State) → Kept (SameLength s) (step e s)
unfolding step
step-SameLength (reader i) s = elim (Option-cases (get_elem? s.readers i)) [
  | inl e ↦ rw (e, step) tt
  | inr (p, e) ↦ rw (e, step) (reader_step-SameLength s i p)
]
step-SameLength writer_turn s = writer_step-SameLength s s.writer
step-SameLength (spurious_reader i) s = elim (Option-cases (get_elem? s.readers i)) [
  | inl e ↦ rw (e, step) tt
  | inr (p, e) ↦ rw (e, step) (wake_alone-SameLength s i p)
]
step-SameLength spurious_writer s = wake_writer_alone-SameLength s s.writer

pub Reach-length : {n : ℕ} {s : State} → Reach n s → length s.readers ≡ n
Reach-length {n} Monitor.begin = length-replicate n ReaderPc.looping
Reach-length (later {s = u} e r p) =
    Kept-some (SameLength u) p (step-SameLength e u) ∙ Reach-length r
