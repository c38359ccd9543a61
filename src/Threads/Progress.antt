-- ===== src/Threads/Progress.antt =====
-- lab8/main.c: the threads and `main` never all wait.
use operation_systems_mirea.Base.{
  ℕ, ◌<◌, ◌≡◌, ◌≢◌, refl, Bool, true, false, Option, none, some, arith, Option-cases, Bool-cases,
  inl, inr, ◌⊎◌,
}
use native.Mathlib.Decide.{dec_lt}
use operation_systems_mirea.Base.Schedule.{CanStep, not_blocked}
use operation_systems_mirea.Base.Counts.{get_elem?, total_pos}
use operation_systems_mirea.Threads.{
  State, ReaderPc, WriterPc, MainPc, reader, writer_turn, main_turn, step, Reach, reader_step,
  writer_step, main_step, join_reader, join_writer,
}
use operation_systems_mirea.Threads.Invariant.{Inv, reader_holds, writer_holds, has_exited, is_gone}
use operation_systems_mirea.Threads.Safety.{Reach-Inv}

holder_steps : (s : State) (i : ℕ) (p : ReaderPc) → 0 < reader_holds p → reader_step s i p ≢ none
unfolding reader_step
holder_steps s i _ h = ground arith

free_steps :
    (s : State) (i : ℕ) (p : ReaderPc)
    → s.locked ≡ false
    → p ≢ ReaderPc.finished
    → reader_step s i p ≢ none
unfolding reader_step
free_steps s i ReaderPc.finished l u = absurd (u refl)
free_steps s i _ l u = ground arith

holding_writer_steps : (s : State) (w : WriterPc) → 0 < writer_holds w → writer_step s w ≢ none
unfolding writer_step
holding_writer_steps s _ h = ground arith

free_writer_steps :
    (s : State) (w : WriterPc) → s.locked ≡ false → is_gone w ≡ false → writer_step s w ≢ none
unfolding writer_step
free_writer_steps s _ l g = ground arith

-- Where `main` waits, it joins a reader that has not returned, or the writer; or it has exited.
data Blocked (s : State) : Type 0 where
  by_reader :
      (k : ℕ) (p : ReaderPc) → get_elem? s.readers k ≡ some p → p ≢ ReaderPc.finished → Blocked s
  by_writer :
      (success : Bool)
      → s.main_thread ≡ MainPc.joining_writer success
      → s.writer ≢ WriterPc.finished
      → Blocked s
  by_exit : has_exited s.main_thread ≡ true → Blocked s

join_reader-none :
    (s : State) (k : ℕ) (success : Bool) (p : ReaderPc)
    → join_reader s k success (some p) ≡ none
    → p ≢ ReaderPc.finished
join_reader-none s k success ReaderPc.finished h = absurd (ground arith)
join_reader-none s k success _ h = ground arith

join_writer-none :
    (s : State) (success : Bool) (w : WriterPc)
    → join_writer s success w ≡ none
    → w ≢ WriterPc.finished
join_writer-none s success WriterPc.finished h = absurd (ground arith)
join_writer-none s success _ h = ground arith

joining-Blocked :
    (s : State) (k : ℕ) (success : Bool) (o : Option ReaderPc)
    → get_elem? s.readers k ≡ o
    → join_reader s k success o ≡ none
    → Blocked s
joining-Blocked s k success none e h = absurd (ground arith)
joining-Blocked s k success (some p) e h = by_reader k p e (join_reader-none s k success p h)

main_step-Blocked :
    (n : ℕ) (s : State) (m : MainPc) → s.main_thread ≡ m → main_step n true s m ≡ none → Blocked s
unfolding main_step
main_step-Blocked n s MainPc.creating_readers e h = absurd (ground arith)
main_step-Blocked n s (MainPc.joining k success) e h =
    joining-Blocked s k success (get_elem? s.readers k) refl h
main_step-Blocked n s (MainPc.joining_writer success) e h =
    by_writer success e (join_writer-none s success s.writer h)
main_step-Blocked n s (MainPc.exited success) e h = by_exit (rw e refl)
main_step-Blocked n s _ e h = absurd (ground arith)

module _ (n : ℕ) where
  -- A reader, the writer or `main` can take a step, or `main` has exited.
  abbrev pub RunsOn : State → Type 0
  RunsOn s =
      ((i : ℕ) × CanStep (step n) s (reader i))
      ⊎ (CanStep (step n) s writer_turn
          ⊎ (CanStep (step n) s (main_turn true) ⊎ (has_exited s.main_thread ≡ true)))

  reader_can :
      (s : State) (i : ℕ) (p : ReaderPc)
      → get_elem? s.readers i ≡ some p
      → reader_step s i p ≢ none
      → CanStep (step n) s (reader i)
  unfolding step
  reader_can s i p there h = not_blocked (step n) s (reader i) (rw (there, step) h)

  writer_can : (s : State) → writer_step s s.writer ≢ none → CanStep (step n) s writer_turn
  unfolding step
  writer_can s h = not_blocked (step n) s writer_turn h

  locked-RunsOn : (s : State) → Inv s → s.locked ≡ true → RunsOn s
  locked-RunsOn s inv l = elim (dec_lt 0 (writer_holds s.writer)) [
    | yes w ↦ inr (inl (writer_can s (holding_writer_steps s s.writer w)))
    | no w ↦
        let (i, p, there, q) = total_pos reader_holds s.readers (ground (arith, inv)) in
        inl (i, reader_can s i p there (holder_steps s i p q))
  ]

  Blocked-RunsOn : (s : State) → Inv s → s.locked ≡ false → Blocked s → RunsOn s
  Blocked-RunsOn s inv l (by_reader k p there u) =
      inl (k, reader_can s k p there (free_steps s k p l u))
  Blocked-RunsOn s inv l (by_writer success m u) =
      inr (inl (writer_can s (free_writer_steps s s.writer l (ground (arith, inv)))))
  Blocked-RunsOn s inv l (by_exit e) = inr (inr (inr e))

  Inv-RunsOn : (s : State) → Inv s → RunsOn s
  unfolding step
  Inv-RunsOn s inv = elim (Bool-cases s.locked) [
    | inl l ↦ locked-RunsOn s inv l
    | inr l ↦ elim (Option-cases (main_step n true s s.main_thread)) [
      | inl e ↦ Blocked-RunsOn s inv l (main_step-Blocked n s s.main_thread refl e)
      | inr x ↦ inr (inr (inl x))
    ]
  ]

-- In every state that the program reaches, a reader, the writer or `main` can take a step, or `main`
-- has exited.
pub Reach-RunsOn : {n : ℕ} {s : State} → Reach n s → RunsOn n s
Reach-RunsOn {n} {s} r = Inv-RunsOn n s (Reach-Inv r)
