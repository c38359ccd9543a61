-- ===== src/Threads/Safety.antt =====
-- lab8/main.c: what no schedule of `main`, the readers and the writer can break.
use operation_systems_mirea.Base.{
  ℕ, ◌≤◌, ◌≡◌, refl, true, false, some, arith, Option-cases, inl, inr,
}
use operation_systems_mirea.Base.Schedule.{Kept, Kept-some}
use operation_systems_mirea.Base.Counts.{get_elem?, total, le-total, total_mono}
use operation_systems_mirea.Monitor.Invariant.{text_of}
use operation_systems_mirea.Threads.{
  State, ReaderPc, Event, reader, writer_turn, main_turn, step, Reach, begin, later, start,
}
use operation_systems_mirea.Threads.Invariant.{Inv, reader_holds, is_unfinished, is_gone}
use operation_systems_mirea.Threads.Steps.{reader_step-Inv, writer_step-Inv, main_step-Inv}

Inv-start : Inv start
unfolding total
Inv-start = ground arith

step-Kept : (n : ℕ) (e : Event) (s : State) → Inv s → Kept Inv (step n e s)
unfolding step
step-Kept n (reader i) s inv = elim (Option-cases (get_elem? s.readers i)) [
  | inl e ↦ rw (e, step) tt
  | inr (p, e) ↦ rw (e, step) (reader_step-Inv s i p inv e)
]
step-Kept n writer_turn s inv = writer_step-Inv s s.writer inv refl
step-Kept n (main_turn created) s inv = main_step-Inv n created s s.main_thread inv refl

-- Every step keeps the invariant.
pub Reach-Inv : {n : ℕ} {s : State} → Reach n s → Inv s
Reach-Inv begin = Inv-start
Reach-Inv {n} (later e r p) = Kept-some Inv p (step-Kept n e _ (Reach-Inv r))

holds-unfinished : (p : ReaderPc) → reader_holds p ≤ is_unfinished p
holds-unfinished ReaderPc.finished = omega arith
holds-unfinished _ = omega arith

module _ {n : ℕ} {s : State} (r : Reach n s) where
  -- While a reader prints the array, the array holds the text of the last counted write, whole.
  pub array_is_whole :
      (i : ℕ)
      → get_elem? s.readers i ≡ some ReaderPc.reading
      → s.shared_array ≡ text_of s.write_counter
  array_is_whole i here =
      ground (arith, Reach-Inv r, le-total reader_holds s.readers i ReaderPc.reading here)

  -- `main` destroys the mutex only when nobody holds it, every reader that was created has returned,
  -- and the writer has returned or was never created. This holds also when creating a thread fails.
  pub destroyed_unused :
      s.mutex_exists ≡ false
      → (s.locked ≡ false) × (total is_unfinished s.readers ≡ 0) × (is_gone s.writer ≡ true)
  destroyed_unused gone =
      ground (arith, Reach-Inv r, total_mono reader_holds is_unfinished holds-unfinished s.readers)
