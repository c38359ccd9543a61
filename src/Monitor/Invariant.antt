-- ===== src/Monitor/Invariant.antt =====
-- lab11/main.c: what holds in every state of the readers and the writer.
use operation_systems_mirea.Base.{
  ℕ, ◌+◌, ◌≤◌, ◌<◌, ◌≡◌, refl, ◌∙◌, Bool, true, false, ◌||◌, List, some, arith, if◌then◌else◌,
}
use operation_systems_mirea.Base.Schedule.{Kept}
use operation_systems_mirea.Base.Counts.{
  get_elem?, set, total, total-set, le-total, total-map, total-eq-zero, to_bit,
}
use operation_systems_mirea.Monitor.{
  State, ReaderPc, WriterPc, Buffer, initial, record_of, partial, max_operations, wake_reader,
  broadcast, move, reader_step, writer_step,
}

-- The threads that hold the mutex.
abbrev pub reader_holds : ReaderPc → ℕ
reader_holds ReaderPc.checking = 1
reader_holds ReaderPc.entered = 1
reader_holds ReaderPc.counting_out = 1
reader_holds ReaderPc.releasing = 1
reader_holds _ = 0

abbrev pub writer_holds : WriterPc → ℕ
writer_holds WriterPc.checking = 1
writer_holds WriterPc.claimed = 1
writer_holds WriterPc.finishing = 1
writer_holds WriterPc.releasing = 1
writer_holds WriterPc.stopping = 1
writer_holds WriterPc.stopping_unlock = 1
writer_holds _ = 0

-- The readers that are counted in.
abbrev pub is_active : ReaderPc → ℕ
is_active ReaderPc.entered = 1
is_active ReaderPc.reading = 1
is_active ReaderPc.leaving = 1
is_active ReaderPc.counting_out = 1
is_active _ = 0

abbrev pub is_asleep : ReaderPc → ℕ
is_asleep ReaderPc.asleep = 1
is_asleep _ = 0

-- The writer from its claim to the end of its turn.
abbrev pub claims : WriterPc → Bool
claims WriterPc.claimed = true
claims WriterPc.writing = true
claims WriterPc.filling = true
claims WriterPc.written = true
claims WriterPc.finishing = true
claims _ = false

abbrev pub waits : WriterPc → Bool
waits WriterPc.asleep = true
waits WriterPc.woken = true
waits _ = false

-- The writer has counted a write that its loop has not.
abbrev pub ahead : WriterPc → ℕ
ahead WriterPc.filling = 1
ahead WriterPc.written = 1
ahead WriterPc.finishing = 1
ahead _ = 0

-- What the loop's test says of `operations` while the writer is where it is.
abbrev pub IsWithin : WriterPc → ℕ → Type 0
IsWithin WriterPc.looping k = k ≤ max_operations
IsWithin WriterPc.releasing k = k ≤ max_operations
IsWithin WriterPc.stopping_lock k = k ≡ max_operations
IsWithin WriterPc.stopping k = k ≡ max_operations
IsWithin WriterPc.stopping_unlock k = k ≡ max_operations
IsWithin WriterPc.finished k = k ≡ max_operations
IsWithin _ k = k < max_operations

-- The text of the last write.
abbrev pub text_of : ℕ → Buffer
text_of ℕ.zero = initial
text_of (ℕ.suc n) = record_of (ℕ.suc n)

abbrev pub contents : WriterPc → ℕ → Buffer
contents WriterPc.filling n = partial
contents _ n = text_of n

abbrev pub has_stopped : WriterPc → Bool
has_stopped WriterPc.stopping_unlock = true
has_stopped WriterPc.finished = true
has_stopped _ = false

-- A writer that sleeps has an active reader to wait for; a reader that sleeps has a writer that
-- waits, writes, or is about to do either.
abbrev pub WriterAwaited : WriterPc → ℕ → Type 0
WriterAwaited WriterPc.asleep active = 0 < active
WriterAwaited _ active = Unit {0}

abbrev pub ReadersAwaited : WriterPc → ℕ → Type 0
ReadersAwaited WriterPc.checking sleeping = Unit {0}
ReadersAwaited w sleeping = if claims w || waits w then Unit {0} else sleeping ≡ 0

pub record Inv (s : State) : Type 0 where
  pub mutex : total reader_holds s.readers + writer_holds s.writer ≡ to_bit s.locked
  pub counted : s.active_readers ≡ total is_active s.readers
  pub claimed : s.writer_active ≡ claims s.writer
  pub waiting : s.writer_waiting ≡ waits s.writer
  pub exclusive : claims s.writer ≡ true → s.active_readers ≡ 0
  pub writer_awaited : WriterAwaited s.writer s.active_readers
  pub readers_awaited : ReadersAwaited s.writer (total is_asleep s.readers)
  pub writes : s.write_counter ≡ s.operations + ahead s.writer
  pub within : IsWithin s.writer s.operations
  pub buffer : s.shared_buffer ≡ contents s.writer s.write_counter
  pub on : s.running ≡ (if has_stopped s.writer then false else true)

module _ (s : State) (inv : Inv s) (i : ℕ) (p : ReaderPc)
    (there : get_elem? s.readers i ≡ some p) where
  record Mover (p' : ReaderPc) : Type 0 where
    holders :
        total reader_holds (set s.readers i p') + reader_holds p
        ≡ total reader_holds s.readers + reader_holds p'
    actives :
        total is_active (set s.readers i p') + is_active p
        ≡ total is_active s.readers + is_active p'
    sleepers :
        total is_asleep (set s.readers i p') + is_asleep p
        ≡ total is_asleep s.readers + is_asleep p'
    active_one : is_active p ≤ total is_active s.readers
    holds_one : reader_holds p ≤ total reader_holds s.readers

  mover : (p' : ReaderPc) → Mover p'
  mover p' = record {
    holders = total-set reader_holds s.readers i p' p there;
    actives = total-set is_active s.readers i p' p there;
    sleepers = total-set is_asleep s.readers i p' p there;
    active_one = le-total is_active s.readers i p there;
    holds_one = le-total reader_holds s.readers i p there;
  }

pub reader_step-Inv :
    (s : State) (i : ℕ) (p : ReaderPc)
    → Inv s
    → get_elem? s.readers i ≡ some p
    → Kept Inv (reader_step s i p)
unfolding reader_step
reader_step-Inv s i ReaderPc.looping inv there = ground (
  arith,
  mover s inv i ReaderPc.looping there ReaderPc.locking,
  mover s inv i ReaderPc.looping there ReaderPc.finished,
)
reader_step-Inv s i ReaderPc.locking inv there =
    ground (arith, mover s inv i ReaderPc.locking there ReaderPc.checking)
reader_step-Inv s i ReaderPc.checking inv there = ground (
  arith,
  mover s inv i ReaderPc.checking there ReaderPc.asleep,
  mover s inv i ReaderPc.checking there ReaderPc.entered,
)
reader_step-Inv s i ReaderPc.asleep inv there = tt
reader_step-Inv s i ReaderPc.woken inv there =
    ground (arith, mover s inv i ReaderPc.woken there ReaderPc.checking)
reader_step-Inv s i ReaderPc.entered inv there =
    ground (arith, mover s inv i ReaderPc.entered there ReaderPc.reading)
reader_step-Inv s i ReaderPc.reading inv there =
    ground (arith, mover s inv i ReaderPc.reading there ReaderPc.leaving)
reader_step-Inv s i ReaderPc.leaving inv there =
    ground (arith, mover s inv i ReaderPc.leaving there ReaderPc.counting_out)
reader_step-Inv s i ReaderPc.counting_out inv there =
    ground (arith, mover s inv i ReaderPc.counting_out there ReaderPc.releasing)
reader_step-Inv s i ReaderPc.releasing inv there =
    ground (arith, mover s inv i ReaderPc.releasing there ReaderPc.looping)
reader_step-Inv s i ReaderPc.finished inv there = tt

-- A broadcast wakes every reader and changes no other count.
record Woken (rs : List ReaderPc) : Type 0 where
  holders : total reader_holds (broadcast rs) ≡ total reader_holds rs
  actives : total is_active (broadcast rs) ≡ total is_active rs
  sleepers : total is_asleep (broadcast rs) ≡ 0

wake-holds : (p : ReaderPc) → reader_holds (wake_reader p) ≡ reader_holds p
wake-holds ReaderPc.asleep = refl
wake-holds _ = refl

wake-active : (p : ReaderPc) → is_active (wake_reader p) ≡ is_active p
wake-active ReaderPc.asleep = refl
wake-active _ = refl

wake-asleep : (p : ReaderPc) → is_asleep (wake_reader p) ≡ 0
wake-asleep ReaderPc.asleep = refl
wake-asleep _ = refl

Woken-all : (rs : List ReaderPc) → Woken rs
Woken-all rs = record {
  holders = total-map reader_holds reader_holds wake_reader wake-holds rs;
  actives = total-map is_active is_active wake_reader wake-active rs;
  sleepers =
      total-map is_asleep (λ _. 0) wake_reader wake-asleep rs
      ∙ total-eq-zero (λ _. 0) (λ _. refl) rs;
}

pub writer_step-Inv : (s : State) (w : WriterPc) → Inv s → s.writer ≡ w → Kept Inv (writer_step s w)
unfolding writer_step
writer_step-Inv s WriterPc.finishing inv there = ground (arith, Woken-all s.readers)
writer_step-Inv s WriterPc.stopping inv there = ground (arith, Woken-all s.readers)
writer_step-Inv s WriterPc.written inv there = ground arith
writer_step-Inv s _ inv there = ground arith

pub spurious_reader-Inv :
    (s : State) (i : ℕ)
    → Inv s
    → get_elem? s.readers i ≡ some ReaderPc.asleep
    → Inv (move s i ReaderPc.woken)
spurious_reader-Inv s i inv there =
    ground (arith, mover s inv i ReaderPc.asleep there ReaderPc.woken)
