-- ===== src/Monitor/Progress.antt =====
-- lab11/main.c: the readers and the writer never wait for one another in a circle.
use operation_systems_mirea.Base.{
  ℕ, ◌<◌, ◌≡◌, ◌≢◌, true, false, none, some, arith, Option-cases, Bool-cases, inl, inr, ◌⊎◌,
}
use native.Mathlib.Decide.{dec_lt}
use operation_systems_mirea.Base.Schedule.{CanStep, not_blocked}
use operation_systems_mirea.Base.Counts.{get_elem?, total, le-total, total_pos}
use operation_systems_mirea.Monitor.{
  State, ReaderPc, WriterPc, reader, writer_turn, step, Reach, reader_step, writer_step,
}
use operation_systems_mirea.Monitor.Invariant.{
  Inv, reader_holds, writer_holds, is_active, is_asleep,
}
use operation_systems_mirea.Monitor.Safety.{Reach-Inv}

abbrev pub is_unfinished : ReaderPc → ℕ
is_unfinished ReaderPc.finished = 0
is_unfinished _ = 1

-- Under the mutex a reader can always go on; with the mutex free so can any that is awake.
pub holder_steps :
    (s : State) (i : ℕ) (p : ReaderPc) → 0 < reader_holds p → reader_step s i p ≢ none
unfolding reader_step
holder_steps s i ReaderPc.checking h = ground arith
holder_steps s i _ h = ground arith

pub awake_steps :
    (s : State) (i : ℕ) (p : ReaderPc)
    → s.locked ≡ false
    → is_asleep p ≡ 0
    → 0 < is_unfinished p
    → reader_step s i p ≢ none
unfolding reader_step
awake_steps s i ReaderPc.checking l a u = ground arith
awake_steps s i _ l a u = ground arith

blocked_writer :
    (s : State) (w : WriterPc)
    → writer_step s w ≡ none
    → (writer_holds w ≡ 0) × ((s.locked ≡ true) ⊎ ((w ≡ WriterPc.asleep) ⊎ (w ≡ WriterPc.finished)))
unfolding writer_step
blocked_writer s WriterPc.checking h = ground arith
blocked_writer s _ h = ground arith

pub reader_can :
    (s : State) (i : ℕ) (p : ReaderPc)
    → get_elem? s.readers i ≡ some p
    → reader_step s i p ≢ none
    → CanStep step s (reader i)
unfolding step
reader_can s i p there h = not_blocked step s (reader i) (rw (there, step) h)

abbrev AllDone : State → Type 0
AllDone s = (s.writer ≡ WriterPc.finished) × (total is_unfinished s.readers ≡ 0)

abbrev pub Goes : State → Type 0
Goes s = ((i : ℕ) × CanStep step s (reader i)) ⊎ (CanStep step s writer_turn ⊎ AllDone s)

active-awake : (p : ReaderPc) → 0 < is_active p → (is_asleep p ≡ 0) × (0 < is_unfinished p)
active-awake ReaderPc.entered h = omega arith
active-awake _ h = omega arith

locked-Goes : (s : State) → Inv s → s.locked ≡ true → writer_holds s.writer ≡ 0 → Goes s
locked-Goes s inv l h =
    let (i, p, e, q) = total_pos reader_holds s.readers (ground (arith, inv)) in
    inl (i, reader_can s i p e (holder_steps s i p q))

asleep-Goes : (s : State) → Inv s → s.locked ≡ false → s.writer ≡ WriterPc.asleep → Goes s
asleep-Goes s inv l h =
    let (i, p, e, q) = total_pos is_active s.readers (ground (arith, inv)) in
    let (a, u) = active-awake p q in inl (i, reader_can s i p e (awake_steps s i p l a u))

finished-Goes : (s : State) → Inv s → s.locked ≡ false → s.writer ≡ WriterPc.finished → Goes s
finished-Goes s inv l h = elim (dec_lt 0 (total is_unfinished s.readers)) [
  | yes some_left ↦
      let (i, p, e, q) = total_pos is_unfinished s.readers some_left in
      inl (
        i,
        reader_can s i p e
            (awake_steps s i p l (ground (arith, inv, le-total is_asleep s.readers i p e)) q),
      )
  | no none_left ↦ inr (inr (h, omega arith))
]

Inv-Goes : (s : State) → Inv s → Goes s
unfolding step
Inv-Goes s inv = elim (Option-cases (writer_step s s.writer)) [
  | inr x ↦ inr (inl x)
  | inl e ↦ elim (Bool-cases s.locked) [
    | inl l ↦ locked-Goes s inv l (blocked_writer s s.writer e).0
    | inr l ↦ elim (blocked_writer s s.writer e).1 [
      | inl k ↦ absurd (ground arith)
      | inr (inl w) ↦ asleep-Goes s inv l w
      | inr (inr w) ↦ finished-Goes s inv l w
    ]
  ]
]

-- No deadlock and no lost wake-up: in every reachable state some thread can take a step of its own
-- program, with no help of a spurious wake-up, or the writer and all readers have returned.
pub no_deadlock : {n : ℕ} {s : State} → Reach n s → Goes s
no_deadlock r = Inv-Goes _ (Reach-Inv r)
