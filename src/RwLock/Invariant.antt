-- ===== src/RwLock/Invariant.antt =====
-- lab10/main.c: what holds in every state of the readers and the writer.
use operation_systems_mirea.Base.{
  ℕ, ◌+◌, ◌≤◌, ◌<◌, ◌≡◌, Bool, true, false, some, arith, if◌then◌else◌,
}
use operation_systems_mirea.Base.Schedule.{Kept}
use operation_systems_mirea.Base.Counts.{get_elem?, set, total, total-set, le-total}
use operation_systems_mirea.Monitor.{Buffer, partial}
use operation_systems_mirea.Monitor.Invariant.{text_of}
use operation_systems_mirea.RwLock.{
  State, ReaderPc, WriterPc, max_operations, reader_step, writer_step,
}

-- The readers that hold the lock.
abbrev pub reader_holds : ReaderPc → ℕ
reader_holds ReaderPc.reading = 1
reader_holds ReaderPc.unlocking = 1
reader_holds _ = 0

abbrev pub writer_holds : WriterPc → Bool
writer_holds WriterPc.writing = true
writer_holds WriterPc.filling = true
writer_holds WriterPc.unlocking = true
writer_holds _ = false

-- The writer has counted a write that its loop has not.
abbrev pub ahead : WriterPc → ℕ
ahead WriterPc.filling = 1
ahead WriterPc.unlocking = 1
ahead WriterPc.counting = 1
ahead _ = 0

-- What the loop's test says of `operations` while the writer is where it is.
abbrev pub IsWithin : WriterPc → ℕ → Type 0
IsWithin WriterPc.looping k = k ≤ max_operations
IsWithin WriterPc.stopping k = k ≡ max_operations
IsWithin WriterPc.finished k = k ≡ max_operations
IsWithin _ k = k < max_operations

abbrev pub contents : WriterPc → ℕ → Buffer
contents WriterPc.filling n = partial
contents _ n = text_of n

abbrev pub has_stopped : WriterPc → Bool
has_stopped WriterPc.finished = true
has_stopped _ = false

pub record Inv (s : State) : Type 0 where
  pub shared : s.read_locks ≡ total reader_holds s.readers
  pub claimed : s.write_locked ≡ writer_holds s.writer
  pub exclusive : writer_holds s.writer ≡ true → s.read_locks ≡ 0
  pub writes : s.write_counter ≡ s.operations + ahead s.writer
  pub within : IsWithin s.writer s.operations
  pub buffer : s.shared_buffer ≡ contents s.writer s.write_counter
  pub on : s.running ≡ (if has_stopped s.writer then false else true)

-- One reader moves: the sum over the readers before and after.
module _ (s : State) (i : ℕ) (p : ReaderPc) (there : get_elem? s.readers i ≡ some p) where
  after_move :
      (p' : ReaderPc)
      → (total reader_holds (set s.readers i p') + reader_holds p
          ≡ total reader_holds s.readers + reader_holds p')
        × (reader_holds p ≤ total reader_holds s.readers)
  after_move p' =
      (total-set reader_holds s.readers i p' p there, le-total reader_holds s.readers i p there)

pub reader_step-Inv :
    (prefers_writer : Bool) (s : State) (i : ℕ) (p : ReaderPc)
    → Inv s
    → get_elem? s.readers i ≡ some p
    → Kept Inv (reader_step prefers_writer s i p)
unfolding reader_step
reader_step-Inv w s i ReaderPc.looping inv there = ground (
  arith,
  after_move s i ReaderPc.looping there ReaderPc.locking,
  after_move s i ReaderPc.looping there ReaderPc.finished,
)
reader_step-Inv w s i ReaderPc.locking inv there =
    ground (arith, after_move s i ReaderPc.locking there ReaderPc.reading)
reader_step-Inv w s i ReaderPc.reading inv there =
    ground (arith, after_move s i ReaderPc.reading there ReaderPc.unlocking)
reader_step-Inv w s i ReaderPc.unlocking inv there =
    ground (arith, after_move s i ReaderPc.unlocking there ReaderPc.looping)
reader_step-Inv w s i ReaderPc.finished inv there = tt

pub writer_step-Inv : (s : State) (w : WriterPc) → Inv s → s.writer ≡ w → Kept Inv (writer_step s w)
unfolding writer_step
writer_step-Inv s WriterPc.locking inv there = ground arith
writer_step-Inv s _ inv there = ground arith
