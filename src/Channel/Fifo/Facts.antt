-- ===== src/Channel/Fifo/Facts.antt =====
-- lab6: what holds between any two steps of producer.c and consumer.c.
use operation_systems_mirea.Base.{
  ℕ, ◌+◌, ◌≤◌, ◌≡◌, refl, Bool, true, false, [], Option, is_some, none, some, arith, ◌⊎◌,
  if◌then◌else◌,
}
use operation_systems_mirea.Base.Text.{Bytes}
use operation_systems_mirea.Channel.{sent, received}
use operation_systems_mirea.Channel.Fifo.{Setting, State, ProducerPc, ConsumerPc, start, message}

pub data Phase : Type 0 where
  early stamped written : Phase

-- The producer before it takes the time, before it writes, and after that.
abbrev pub phase : ProducerPc → Phase
phase ProducerPc.writing = stamped
phase ProducerPc.closing = written
phase (ProducerPc.sleeping wake) = written
phase ProducerPc.unlinking = written
phase ProducerPc.exited = written
phase _ = early

abbrev pub has_read : ConsumerPc → Bool
has_read ConsumerPc.dozing = true
has_read (ConsumerPc.sleeping wake) = true
has_read ConsumerPc.timing = true
has_read ConsumerPc.ending = true
has_read ConsumerPc.unlinking = true
has_read ConsumerPc.exited = true
has_read _ = false

pub phase-check :
    (there : Bool) → early ≡ phase (if there then ProducerPc.opening else ProducerPc.making)
phase-check true = refl
phase-check false = refl

pub has_read-check :
    (there : Bool) → has_read (if there then ConsumerPc.opening else ConsumerPc.making) ≡ false
has_read-check true = refl
has_read-check false = refl

-- The consumer has printed.
abbrev pub has_ended : ConsumerPc → Bool
has_ended ConsumerPc.unlinking = true
has_ended ConsumerPc.exited = true
has_ended _ = false

pub has_read-ended : (q : ConsumerPc) → has_ended q ≡ true → has_read q ≡ true
has_read-ended ConsumerPc.unlinking e = refl
has_read-ended ConsumerPc.exited e = refl
has_read-ended _ e = absurd (ground arith)

-- Something is printed, if it is to be by now.
abbrev pub IsDone : Bool → Option (Bytes × ℕ × ℕ) → Type 0
IsDone true out = is_some out ≡ true
IsDone false out = Unit {0}

-- The times, by where the consumer is.
abbrev pub Times : ConsumerPc → ℕ → ℕ → ℕ → ℕ → Type 0
Times ConsumerPc.reading clock stamp first time = first ≤ clock
Times ConsumerPc.dozing clock stamp first time = first ≤ clock
Times (ConsumerPc.sleeping wake) clock stamp first time = (first + 10 ≤ wake) × (stamp + 10 ≤ wake)
Times ConsumerPc.timing clock stamp first time = (first + 10 ≤ clock) × (stamp + 10 ≤ clock)
Times ConsumerPc.ending clock stamp first time = (first + 10 ≤ clock) × (stamp + 10 ≤ time)
Times _ clock stamp first time = Unit {0}

pub Times-check :
    (there : Bool) (clock stamp first time : ℕ)
    → Times (if there then ConsumerPc.opening else ConsumerPc.making) clock stamp first time
Times-check true clock stamp first time = tt
Times-check false clock stamp first time = tt

pub Times-stamp :
    (p : ConsumerPc) (clock stamp stamp' first time : ℕ)
    → has_read p ≡ false
    → Times p clock stamp first time
    → Times p clock stamp' first time
Times-stamp ConsumerPc.reading clock stamp stamp' first time h times = times
Times-stamp _ clock stamp stamp' first time h times = ground arith

pub Times-tick :
    (p : ConsumerPc) (clock stamp first time : ℕ)
    → Times p clock stamp first time
    → Times p (clock + 1) stamp first time
Times-tick ConsumerPc.reading clock stamp first time times = ground arith
Times-tick _ clock stamp first time times = ground arith

module _ (k : Setting) where
  -- The message, as it was sent at `stamp`, with a local time and a delay that are late enough.
  abbrev pub IsTold : ℕ → Option (Bytes × ℕ × ℕ) → Type 0
  IsTold stamp none = Unit {0}
  IsTold stamp (some (text, time, delay)) =
      (text ≡ message k stamp) × (stamp + 10 ≤ time) × (10 ≤ delay)

  -- The pipe, and what the consumer has read.
  abbrev pub IsSent : Phase → Bool → ℕ → ℕ → Bytes → Bytes → Type 0
  IsSent early read clock stamp pipe data' = (pipe ≡ []) × (read ≡ false)
  IsSent stamped read clock stamp pipe data' = (pipe ≡ []) × (read ≡ false) × (stamp ≤ clock)
  IsSent written read clock stamp pipe data' =
      (stamp ≤ clock)
      × (read ≡ false → (pipe ≡ []) ⊎ (pipe ≡ sent (message k stamp)))
      × (read ≡ true → data' ≡ received (sent (message k stamp)))

  pub IsSent-tick :
      (f : Phase) (read : Bool) (clock stamp : ℕ) (pipe data' : Bytes)
      → IsSent f read clock stamp pipe data'
      → IsSent f read (clock + 1) stamp pipe data'
  IsSent-tick _ read clock stamp pipe data' h = ground arith

  pub record Facts (p : ProducerPc) (q : ConsumerPc) (clock stamp first time : ℕ)
      (pipe data' : Bytes) (out : Option (Bytes × ℕ × ℕ)) : Type 0 where
    pub is_sent : IsSent (phase p) (has_read q) clock stamp pipe data'
    pub unprinted : has_read q ≡ false → out ≡ none
    pub times : Times q clock stamp first time
    pub told : IsTold stamp out
    pub done : has_ended q ≡ true → is_some out ≡ true

  abbrev pub Inv : State → Type 0
  Inv s =
      Facts s.producer s.consumer s.clock s.timestamp s.start_time s.current_timestamp s.pipe
        s.received_data s.printed

  pub Inv-start : (there : Bool) (clock : ℕ) → Inv (start there clock)
  Inv-start there clock = ground arith
