-- ===== src/Monitor/Main/Closing.antt =====
-- lab11/main.c: the readers after the writer has returned, while `main` ends them.
use operation_systems_mirea.Base.{
  ℕ, ◌+◌, ◌-◌, ◌<◌, ◌≡◌, ◌≢◌, refl, sym, subst, ◌∙◌, Bool, true, false, ◌&&◌, ◌==◌, List, Option,
  none, some, arith, Option-cases, Bool-cases, inl, inr, if◌then◌else◌, length,
}
use operation_systems_mirea.Base.Schedule.{Kept}
use operation_systems_mirea.Base.Counts.{
  get_elem?, set, total, total-set, le-total, to_bit, length-set, get_elem?-set,
}
use operation_systems_mirea.Monitor.{
  State, ReaderPc, WriterPc, Event, reader, writer_turn, spurious_reader, spurious_writer, acquire,
  wake_writer, reader_step, wake_alone, step, max_operations,
}
use operation_systems_mirea.Monitor.Invariant.{Inv, reader_holds, is_asleep}
use operation_systems_mirea.Monitor.Main.{end_reader, end_at}

-- What is left for a reader to do.
abbrev pub left : ReaderPc → ℕ
left ReaderPc.finished = 0
left ReaderPc.looping = 1
left ReaderPc.releasing = 2
left ReaderPc.counting_out = 3
left ReaderPc.leaving = 4
left ReaderPc.reading = 5
left ReaderPc.entered = 6
left ReaderPc.checking = 7
left ReaderPc.locking = 8
left ReaderPc.woken = 8
left ReaderPc.asleep = 9

-- The writer has returned, and no reader waits for it any more.
abbrev pub Quiet : State → Type 0
Quiet s =
    (s.writer ≡ WriterPc.finished)
    × (s.running ≡ false)
    × (s.writer_active ≡ false)
    × (s.writer_waiting ≡ false)
    × (s.write_counter ≡ max_operations)

-- There are `n` readers, of which the first `k` have ended.
pub record Facts (n k : ℕ) (readers : List ReaderPc) (locked : Bool) : Type 0 where
  pub number : length readers ≡ n
  pub awake : total is_asleep readers ≡ 0
  pub mutex : total reader_holds readers ≡ to_bit locked
  pub ended : (j : ℕ) → j < k → get_elem? readers j ≡ some ReaderPc.finished

abbrev pub Closing : ℕ → ℕ → State → Type 0
Closing n k s = Quiet s × Facts n k s.readers s.locked

Facts-move :
    {n k : ℕ} (readers : List ReaderPc) (locked : Bool) (i : ℕ) (p p' : ReaderPc) (locked' : Bool)
    → Facts n k readers locked
    → get_elem? readers i ≡ some p
    → p ≢ ReaderPc.finished
    → is_asleep p' ≡ 0
    → to_bit locked' + reader_holds p ≡ to_bit locked + reader_holds p'
    → Facts n k (set readers i p') locked'
Facts-move readers locked i p p' locked' f there alive awake' balance = record {
  number = length-set readers i p' ∙ f.number;
  awake = omega (arith, f.awake, total-set is_asleep readers i p' p there, awake');
  mutex = omega (arith, f.mutex, total-set reader_holds readers i p' p there, balance);
  ended = λ j h.
      get_elem?-set readers i j p' (λ e.
        alive
          (same there (subst (λ x. get_elem? readers x ≡ some ReaderPc.finished) e (f.ended j h))))
      ∙ f.ended j h;
}
  where
    same : {o : Option ReaderPc} {a b : ReaderPc} → o ≡ some a → o ≡ some b → a ≡ b
    same e h = ground arith

-- One step nearer to the end of the readers.
abbrev pub Nearer : ℕ → ℕ → State → State → Type 0
Nearer n k s t = Closing n k t × (total left t.readers < total left s.readers)

nearer :
    {n k : ℕ} (readers : List ReaderPc) (locked : Bool) (i : ℕ) (p p' : ReaderPc) (locked' : Bool)
    → Facts n k readers locked
    → get_elem? readers i ≡ some p
    → is_asleep p' ≡ 0
    → left p' < left p
    → to_bit locked' + reader_holds p ≡ to_bit locked + reader_holds p'
    → Facts n k (set readers i p') locked' × (total left (set readers i p') < total left readers)
nearer readers locked i p p' locked' f there awake' less balance = (
  Facts-move readers locked i p p' locked' f there (λ e. unfinished p p' e less) awake' balance,
  omega (arith, total-set left readers i p' p there, less),
)
  where
    unfinished : (p p' : ReaderPc) → p ≡ ReaderPc.finished → left p' < left p → ⊥
    unfinished p p' e h = ground arith

-- A reader that holds the mutex has it locked.
held :
    {n k : ℕ} (readers : List ReaderPc) (locked : Bool) (i : ℕ) (p : ReaderPc)
    → Facts n k readers locked
    → get_elem? readers i ≡ some p
    → reader_holds p ≡ 1
    → to_bit locked ≡ 1
held readers true i p f there h = refl
held readers false i p f there h =
    absurd (omega (arith, f.mutex, le-total reader_holds readers i p there, h))

-- The writer is not woken any more.
no_wake :
    (b ww : Bool) (w : WriterPc)
    → ww ≡ false
    → w ≡ WriterPc.finished
    → (if b && ww then wake_writer w else w) ≡ WriterPc.finished
no_wake true true w h e = absurd (ground arith)
no_wake true false w h e = e
no_wake false ww w h e = e

acquire-Nearer :
    (n k : ℕ) (s : State) (i : ℕ) (p p' : ReaderPc)
    → Closing n k s
    → get_elem? s.readers i ≡ some p
    → is_asleep p' ≡ 0
    → left p' < left p
    → reader_holds p ≡ 0
    → reader_holds p' ≡ 1
    → Kept (Nearer n k s) (acquire s i p')
acquire-Nearer n k s i p p' c there awake' less out held = elim (Bool-cases s.locked) [
  | inl e ↦ rw (e, acquire) tt
  | inr e ↦
      let (f, l) = nearer s.readers s.locked i p p' true c.1 there awake' less (ground arith) in
      rw (e, acquire) ((c.0, f), l)
]

reader_step-Nearer :
    (n k : ℕ) (s : State) (i : ℕ) (p : ReaderPc)
    → Closing n k s
    → get_elem? s.readers i ≡ some p
    → Kept (Nearer n k s) (reader_step s i p)
unfolding reader_step
reader_step-Nearer n k s i ReaderPc.looping c there =
    let x : Facts n k (set s.readers i ReaderPc.finished) s.locked
        × (total left (set s.readers i ReaderPc.finished) < total left s.readers) =
      nearer s.readers s.locked i ReaderPc.looping ReaderPc.finished s.locked c.1 there refl
        (omega arith) (omega arith) in
    let (f, l) =
      subst
        (λ b.
          Facts n k (set s.readers i (if b then ReaderPc.locking else ReaderPc.finished)) s.locked
          × (total left (set s.readers i (if b then ReaderPc.locking else ReaderPc.finished))
              < total left s.readers))
        (sym c.0.1) x in
    ((c.0, f), l)
reader_step-Nearer n k s i ReaderPc.locking c there =
    acquire-Nearer n k s i ReaderPc.locking ReaderPc.checking c there refl (omega arith) refl refl
reader_step-Nearer n k s i ReaderPc.checking c there =
    let (f, l) =
      nearer s.readers s.locked i ReaderPc.checking ReaderPc.entered s.locked c.1 there refl
        (omega arith) (omega arith) in
    ground arith
reader_step-Nearer n k s i ReaderPc.asleep c there = tt
reader_step-Nearer n k s i ReaderPc.woken c there =
    acquire-Nearer n k s i ReaderPc.woken ReaderPc.checking c there refl (omega arith) refl refl
reader_step-Nearer n k s i ReaderPc.entered c there =
    let (f, l) =
      nearer s.readers s.locked i ReaderPc.entered ReaderPc.reading false c.1 there refl
        (omega arith) (omega (arith, held s.readers s.locked i ReaderPc.entered c.1 there refl)) in
    ((c.0, f), l)
reader_step-Nearer n k s i ReaderPc.reading c there =
    let (f, l) =
      nearer s.readers s.locked i ReaderPc.reading ReaderPc.leaving s.locked c.1 there refl
        (omega arith) (omega arith) in
    ((c.0, f), l)
reader_step-Nearer n k s i ReaderPc.leaving c there =
    acquire-Nearer n k s i ReaderPc.leaving ReaderPc.counting_out c there refl (omega arith) refl
      refl
reader_step-Nearer n k s i ReaderPc.counting_out c there =
    let (f, l) =
      nearer s.readers s.locked i ReaderPc.counting_out ReaderPc.releasing s.locked c.1 there refl
        (omega arith) (omega arith) in
    (
      (
        (
          no_wake (s.active_readers - 1 == 0) s.writer_waiting s.writer c.0.3 c.0.0,
          c.0.1,
          c.0.2,
          c.0.3,
          c.0.4,
        ),
        f,
      ),
      l,
    )
reader_step-Nearer n k s i ReaderPc.releasing c there =
    let (f, l) =
      nearer s.readers s.locked i ReaderPc.releasing ReaderPc.looping false c.1 there refl
        (omega arith)
        (omega (arith, held s.readers s.locked i ReaderPc.releasing c.1 there refl)) in
    ((c.0, f), l)
reader_step-Nearer n k s i ReaderPc.finished c there = tt

none_asleep :
    {n k : ℕ} (readers : List ReaderPc) (locked : Bool) (i : ℕ)
    → Facts n k readers locked
    → get_elem? readers i ≡ some ReaderPc.asleep
    → ⊥
none_asleep readers locked i f there =
    absurd (omega (arith, f.awake, le-total is_asleep readers i ReaderPc.asleep there))

wake_alone-Nearer :
    (n k : ℕ) (s : State) (i : ℕ) (p : ReaderPc)
    → Closing n k s
    → get_elem? s.readers i ≡ some p
    → Kept (Nearer n k s) (wake_alone s i p)
wake_alone-Nearer n k s i ReaderPc.asleep c there =
    absurd (none_asleep s.readers s.locked i c.1 there)
wake_alone-Nearer n k s i _ c there = tt

-- Every step of a thread.
pub step-Nearer : (n k : ℕ) (e : Event) (s : State) → Closing n k s → Kept (Nearer n k s) (step e s)
unfolding step
step-Nearer n k (reader i) s c = elim (Option-cases (get_elem? s.readers i)) [
  | inl e ↦ rw (e, step) tt
  | inr (p, e) ↦ rw (e, step) (reader_step-Nearer n k s i p c e)
]
step-Nearer n k writer_turn s c = rw (c.0.0, step) tt
step-Nearer n k (spurious_reader i) s c = elim (Option-cases (get_elem? s.readers i)) [
  | inl e ↦ rw (e, step) tt
  | inr (p, e) ↦ rw (e, step) (wake_alone-Nearer n k s i p c e)
]
step-Nearer n k spurious_writer s c = rw (c.0.0, step) tt

end_reader-Nearer :
    (n k : ℕ) (s : State) (i : ℕ) (p : ReaderPc)
    → Closing n k s
    → get_elem? s.readers i ≡ some p
    → Kept (Nearer n k s) (end_reader false s i p)
end_reader-Nearer n k s i ReaderPc.looping c there =
    let (f, l) =
      nearer s.readers s.locked i ReaderPc.looping ReaderPc.finished s.locked c.1 there refl
        (omega arith) (omega arith) in
    ((c.0, f), l)
end_reader-Nearer n k s i ReaderPc.reading c there =
    let (f, l) =
      nearer s.readers s.locked i ReaderPc.reading ReaderPc.finished s.locked c.1 there refl
        (omega arith) (omega arith) in
    ((c.0, f), l)
end_reader-Nearer n k s i ReaderPc.asleep c there =
    absurd (none_asleep s.readers s.locked i c.1 there)
end_reader-Nearer n k s i _ c there = tt

-- A reader that ends because it was asked to.
pub end_at-Nearer :
    (n k : ℕ) (s : State) (i : ℕ) (o : Option ReaderPc)
    → Closing n k s
    → get_elem? s.readers i ≡ o
    → Kept (Nearer n k s) (end_at false s i o)
end_at-Nearer n k s i none c there = tt
end_at-Nearer n k s i (some p) c there = end_reader-Nearer n k s i p c there

-- The invariant of the threads says so of a writer that has returned.
pub Closing-finished :
    (s : State) (n : ℕ)
    → Inv s
    → length s.readers ≡ n
    → s.writer ≡ WriterPc.finished
    → Closing n 0 s
Closing-finished s n inv number done = (
  (ground (arith, inv)),
  record {
    number = number;
    awake = ground (arith, inv);
    mutex = ground (arith, inv);
    ended = λ j h. absurd (omega (arith, h));
  },
)
