-- ===== src/Threads/Invariant.antt =====
-- lab8/main.c: what holds in every state of `main`, the readers and the writer.
use operation_systems_mirea.Base.{
  ℕ, zero, suc, ◌+◌, ◌<◌, ◌≡◌, refl, Bool, true, false, List, [], ◌∷◌, none, some, arith,
  if◌then◌else◌,
}
use operation_systems_mirea.Base.Counts.{get_elem?, set, total, le-total, to_bit}
use operation_systems_mirea.Monitor.{Buffer, partial}
use operation_systems_mirea.Monitor.Invariant.{text_of}
use operation_systems_mirea.Threads.{State, ReaderPc, WriterPc, MainPc}

-- The threads that hold the mutex.
abbrev pub reader_holds : ReaderPc → ℕ
reader_holds ReaderPc.reading = 1
reader_holds ReaderPc.unlocking = 1
reader_holds _ = 0

abbrev pub writer_holds : WriterPc → ℕ
writer_holds WriterPc.writing = 1
writer_holds WriterPc.filling = 1
writer_holds WriterPc.unlocking = 1
writer_holds _ = 0

abbrev pub is_unfinished : ReaderPc → ℕ
is_unfinished ReaderPc.finished = 0
is_unfinished _ = 1

abbrev pub contents : WriterPc → ℕ → Buffer
contents WriterPc.filling n = partial
contents _ n = text_of n

-- In the middle of a write, that write is counted.
abbrev pub IsCounted : WriterPc → ℕ → Type 0
IsCounted WriterPc.filling n = 0 < n
IsCounted _ n = Unit {0}

-- The first `k` readers have returned.
abbrev pub AreJoined : ℕ → List ReaderPc → Type 0
AreJoined zero rs = Unit {0}
AreJoined (suc k) [] = Unit {0}
AreJoined (suc k) (r ∷ rs) = (r ≡ ReaderPc.finished) × AreJoined k rs

-- The writer does not run any more, or never did.
abbrev pub is_gone : WriterPc → Bool
is_gone WriterPc.absent = true
is_gone WriterPc.finished = true
is_gone _ = false

abbrev pub is_created : WriterPc → Bool
is_created WriterPc.absent = false
is_created _ = true

-- What `main` has waited for when it is where it is.
abbrev pub Waited : MainPc → List ReaderPc → WriterPc → Type 0
Waited MainPc.creating_writer rs w = (total is_unfinished rs ≡ 0) × (w ≡ WriterPc.absent)
Waited MainPc.creating_readers rs w = is_created w ≡ true
Waited MainPc.sleeping rs w = is_created w ≡ true
Waited (MainPc.joining k _) rs w = AreJoined k rs × (is_created w ≡ true)
Waited (MainPc.joining_writer _) rs w = (total is_unfinished rs ≡ 0) × (is_created w ≡ true)
Waited (MainPc.destroying _) rs w = (total is_unfinished rs ≡ 0) × (is_gone w ≡ true)
Waited (MainPc.exited _) rs w = (total is_unfinished rs ≡ 0) × (is_gone w ≡ true)

abbrev pub has_exited : MainPc → Bool
has_exited (MainPc.exited _) = true
has_exited _ = false

pub record Inv (s : State) : Type 0 where
  pub mutex : total reader_holds s.readers + writer_holds s.writer ≡ to_bit s.locked
  pub buffer : s.shared_array ≡ contents s.writer s.write_counter
  pub counted : IsCounted s.writer s.write_counter
  pub waited : Waited s.main_thread s.readers s.writer
  pub exists : s.mutex_exists ≡ (if has_exited s.main_thread then false else true)

AreJoined-set :
    (k : ℕ) (rs : List ReaderPc) (i : ℕ) (p p' : ReaderPc)
    → AreJoined k rs
    → get_elem? rs i ≡ some p
    → is_unfinished p ≡ 1
    → AreJoined k (set rs i p')
AreJoined-set zero rs i p p' h there u = tt
AreJoined-set (suc k) [] i p p' h there u = tt
AreJoined-set (suc k) (r ∷ rs) zero p p' h there u = absurd (ground arith)
AreJoined-set (suc k) (r ∷ rs) (suc i) p p' h there u = (h.0, AreJoined-set k rs i p p' h.1 there u)

-- A reader that moves is one that no join has waited for.
pub Waited-set :
    (m : MainPc) (rs : List ReaderPc) (w : WriterPc) (i : ℕ) (p p' : ReaderPc)
    → Waited m rs w
    → get_elem? rs i ≡ some p
    → is_unfinished p ≡ 1
    → Waited m (set rs i p') w
Waited-set (MainPc.joining k b) rs w i p p' h there u = (AreJoined-set k rs i p p' h.0 there u, h.1)
Waited-set _ rs w i p p' h there u = ground (arith, le-total is_unfinished rs i p there)

pub Waited-writer :
    (m : MainPc) (rs : List ReaderPc) (w w' : WriterPc)
    → Waited m rs w
    → is_gone w ≡ false
    → is_created w' ≡ true
    → Waited m rs w'
Waited-writer m rs w w' h g c = ground arith

pub AreJoined-suc :
    (k : ℕ) (rs : List ReaderPc)
    → AreJoined k rs
    → get_elem? rs k ≡ some ReaderPc.finished
    → AreJoined (k + 1) rs
AreJoined-suc zero [] h there = absurd (ground arith)
AreJoined-suc zero (r ∷ rs) h there = ground arith
AreJoined-suc (suc k) [] h there = absurd (ground arith)
AreJoined-suc (suc k) (r ∷ rs) h there = ground (arith, AreJoined-suc k rs h.1 there)

pub AreJoined-total :
    (k : ℕ) (rs : List ReaderPc)
    → AreJoined k rs
    → get_elem? rs k ≡ none
    → total is_unfinished rs ≡ 0
unfolding total
AreJoined-total zero [] h there = refl
AreJoined-total zero (r ∷ rs) h there = absurd (ground arith)
AreJoined-total (suc k) [] h there = refl
AreJoined-total (suc k) (r ∷ rs) h there = ground (arith, AreJoined-total k rs h.1 there)
