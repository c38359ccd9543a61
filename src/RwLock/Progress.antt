-- ===== src/RwLock/Progress.antt =====
-- lab10/main.c: the lock never keeps all threads waiting.
use operation_systems_mirea.Base.{
  ℕ, ◌<◌, ◌≡◌, ◌≢◌, Bool, true, false, none, some, arith, Option-cases, inl, inr, ◌⊎◌,
}
use native.Mathlib.Decide.{dec_lt}
use operation_systems_mirea.Base.Schedule.{CanStep, not_blocked}
use operation_systems_mirea.Base.Counts.{get_elem?, total, total_pos}
use operation_systems_mirea.RwLock.{
  State, ReaderPc, WriterPc, reader, writer_turn, step, Reach, reader_step, writer_step,
}
use operation_systems_mirea.RwLock.Invariant.{Inv, reader_holds}
use operation_systems_mirea.RwLock.Safety.{Reach-Inv}

abbrev pub is_unfinished : ReaderPc → ℕ
is_unfinished ReaderPc.finished = 0
is_unfinished _ = 1

abbrev pub AllReturned : State → Type 0
AllReturned s = (s.writer ≡ WriterPc.finished) × (total is_unfinished s.readers ≡ 0)

blocked_writer :
    (s : State) (w : WriterPc)
    → writer_step s w ≡ none
    → ((w ≡ WriterPc.locking) × ((0 < s.read_locks) ⊎ (s.write_locked ≡ true)))
      ⊎ (w ≡ WriterPc.finished)
unfolding writer_step
blocked_writer s WriterPc.locking h = ground arith
blocked_writer s _ h = ground arith

module _ (prefers_writer : Bool) where
  -- Some thread can take a step, or all have returned.
  abbrev pub GoesOn : State → Type 0
  GoesOn s =
      ((i : ℕ) × CanStep (step prefers_writer) s (reader i))
      ⊎ (CanStep (step prefers_writer) s writer_turn ⊎ AllReturned s)

  holder_steps :
      (s : State) (i : ℕ) (p : ReaderPc)
      → 0 < reader_holds p
      → reader_step prefers_writer s i p ≢ none
  unfolding reader_step
  holder_steps s i _ h = ground arith

  unlocked_steps :
      (s : State) (i : ℕ) (p : ReaderPc)
      → s.write_locked ≡ false
      → s.writer ≡ WriterPc.finished
      → 0 < is_unfinished p
      → reader_step prefers_writer s i p ≢ none
  unfolding reader_step
  unlocked_steps s i ReaderPc.locking l f u = rw (l, f) (ground arith)
  unlocked_steps s i _ l f u = ground arith

  reader_can :
      (s : State) (i : ℕ) (p : ReaderPc)
      → get_elem? s.readers i ≡ some p
      → reader_step prefers_writer s i p ≢ none
      → CanStep (step prefers_writer) s (reader i)
  unfolding step
  reader_can s i p there h = not_blocked (step prefers_writer) s (reader i) (rw (there, step) h)

  finished-GoesOn : (s : State) → Inv s → s.writer ≡ WriterPc.finished → GoesOn s
  finished-GoesOn s inv f = elim (dec_lt 0 (total is_unfinished s.readers)) [
    | yes some_left ↦
        let (i, p, e, q) = total_pos is_unfinished s.readers some_left in
        inl (i, reader_can s i p e (unlocked_steps s i p (ground (arith, inv)) f q))
    | no none_left ↦ inr (inr (f, omega arith))
  ]

  Inv-GoesOn : (s : State) → Inv s → GoesOn s
  unfolding step
  Inv-GoesOn s inv = elim (Option-cases (writer_step s s.writer)) [
    | inr x ↦ inr (inl x)
    | inl e ↦ elim (blocked_writer s s.writer e) [
      | inl w ↦
          let (i, p, there, q) = total_pos reader_holds s.readers (ground (arith, inv)) in
          inl (i, reader_can s i p there (holder_steps s i p q))
      | inr w ↦ finished-GoesOn s inv w
    ]
  ]

-- In every state that the threads reach, some thread can take a step, or the writer and all readers
-- have returned. This holds whether the lock prefers writers or not.
pub Reach-GoesOn :
    {prefers_writer : Bool} {n : ℕ} {s : State} → Reach prefers_writer n s → GoesOn prefers_writer s
Reach-GoesOn {prefers_writer} {n} {s} r = Inv-GoesOn prefers_writer s (Reach-Inv r)
