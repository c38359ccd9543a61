-- ===== src/Threads/Steps.antt =====
-- lab8/main.c: each step of a reader, of the writer and of `main` keeps the invariant.
use operation_systems_mirea.Base.{ℕ, ◌+◌, ◌≤◌, ◌≡◌, refl, Bool, [], ◌∷◌, Option, none, some, arith}
use operation_systems_mirea.Base.Schedule.{Kept}
use operation_systems_mirea.Base.Counts.{get_elem?, set, total, total-set, le-total, total-append}
use operation_systems_mirea.Threads.{
  State, ReaderPc, WriterPc, MainPc, reader_step, writer_step, main_step, join_reader, join_writer,
}
use operation_systems_mirea.Threads.Invariant.{
  Inv, reader_holds, is_unfinished, Waited, Waited-set, AreJoined-suc, AreJoined-total,
  Waited-writer,
}

-- One reader moves: the sum over the readers before and after, and what `main` has waited for.
module _ (s : State) (inv : Inv s) (i : ℕ) (p : ReaderPc) (there : get_elem? s.readers i ≡ some p)
    (u : is_unfinished p ≡ 1) where
  after_move :
      (p' : ReaderPc)
      → (total reader_holds (set s.readers i p') + reader_holds p
          ≡ total reader_holds s.readers + reader_holds p')
        × ((reader_holds p ≤ total reader_holds s.readers)
            × Waited s.main_thread (set s.readers i p') s.writer)
  after_move p' = (
    total-set reader_holds s.readers i p' p there,
    (
      le-total reader_holds s.readers i p there,
      Waited-set s.main_thread s.readers s.writer i p p' inv.waited there u,
    ),
  )

pub reader_step-Inv :
    (s : State) (i : ℕ) (p : ReaderPc)
    → Inv s
    → get_elem? s.readers i ≡ some p
    → Kept Inv (reader_step s i p)
unfolding reader_step
reader_step-Inv s i ReaderPc.looping inv there = ground (
  arith,
  after_move s inv i ReaderPc.looping there refl ReaderPc.locking,
  after_move s inv i ReaderPc.looping there refl ReaderPc.finished,
)
reader_step-Inv s i ReaderPc.locking inv there =
    ground (arith, after_move s inv i ReaderPc.locking there refl ReaderPc.reading)
reader_step-Inv s i ReaderPc.reading inv there =
    ground (arith, after_move s inv i ReaderPc.reading there refl ReaderPc.unlocking)
reader_step-Inv s i ReaderPc.unlocking inv there =
    ground (arith, after_move s inv i ReaderPc.unlocking there refl ReaderPc.looping)
reader_step-Inv s i ReaderPc.finished inv there = tt

pub writer_step-Inv : (s : State) (w : WriterPc) → Inv s → s.writer ≡ w → Kept Inv (writer_step s w)
unfolding writer_step
writer_step-Inv s WriterPc.absent inv there = tt
writer_step-Inv s WriterPc.looping inv there = ground (
  arith,
  Waited-writer s.main_thread s.readers s.writer WriterPc.locking inv.waited,
  Waited-writer s.main_thread s.readers s.writer WriterPc.finished inv.waited,
)
writer_step-Inv s WriterPc.finished inv there = tt
writer_step-Inv s _ inv there =
    ground (arith, Waited-writer s.main_thread s.readers s.writer WriterPc.writing inv.waited)

join_reader-Inv :
    (s : State) (k : ℕ) (success : Bool) (o : Option ReaderPc)
    → Inv s
    → s.main_thread ≡ MainPc.joining k success
    → get_elem? s.readers k ≡ o
    → Kept Inv (join_reader s k success o)
join_reader-Inv s k success none inv m o = ground (arith, AreJoined-total k s.readers)
join_reader-Inv s k success (some ReaderPc.finished) inv m o =
    ground (arith, AreJoined-suc k s.readers)
join_reader-Inv s k success (some _) inv m o = tt

join_writer-Inv :
    (s : State) (success : Bool) (w : WriterPc)
    → Inv s
    → s.main_thread ≡ MainPc.joining_writer success
    → s.writer ≡ w
    → Kept Inv (join_writer s success w)
join_writer-Inv s success WriterPc.finished inv m o = ground arith
join_writer-Inv s success _ inv m o = tt

pub main_step-Inv :
    (n : ℕ) (created : Bool) (s : State) (m : MainPc)
    → Inv s
    → s.main_thread ≡ m
    → Kept Inv (main_step n created s m)
unfolding main_step total
main_step-Inv n created s MainPc.creating_writer inv there = ground arith
main_step-Inv n created s MainPc.creating_readers inv there =
    ground (arith, total-append reader_holds s.readers (ReaderPc.looping ∷ []))
main_step-Inv n created s MainPc.sleeping inv there = ground arith
main_step-Inv n created s (MainPc.joining k success) inv there =
    join_reader-Inv s k success (get_elem? s.readers k) inv there refl
main_step-Inv n created s (MainPc.joining_writer success) inv there =
    join_writer-Inv s success s.writer inv there refl
main_step-Inv n created s (MainPc.destroying success) inv there = ground arith
main_step-Inv n created s (MainPc.exited success) inv there = tt
