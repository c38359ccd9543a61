-- ===== src/Exchange/Output.antt =====
-- lab9/main.c: the order of what the producer and the consumer print.
use operation_systems_mirea.Base.{
  ℕ, ◌+◌, ◌≡◌, ◌≢◌, refl, Bool, true, false, List, [], ◌∷◌, arith, Bool-cases, inl, inr,
}
use operation_systems_mirea.Base.Schedule.{Kept, Kept-some}
use operation_systems_mirea.Monitor.{record_of, partial}
use operation_systems_mirea.Monitor.Invariant.{text_of}
use operation_systems_mirea.Exchange.{
  State, ProducerPc, ConsumerPc, MainPc, Line, producer_started, consumer_started, running, created,
  consumed, Event, producer_turn, consumer_turn, main_turn, has_failed, start, producer_step,
  consumer_step, main_step, step, Reach, begin, later,
}

-- How many messages an output says to be created.
abbrev pub created_in : List Line → ℕ
created_in [] = 0
created_in (created b ∷ out) = created_in out + 1
created_in (producer_started ∷ out) = created_in out
created_in (consumer_started ∷ out) = created_in out
created_in (running ∷ out) = created_in out
created_in (consumed b ∷ out) = created_in out

-- The messages are created in the order of their numbers, and what is consumed is the last message
-- that was created before, or the first text when there is none.
abbrev pub IsInOrder : List Line → Type 0
IsInOrder [] = Unit {0}
IsInOrder (created b ∷ out) = (b ≡ record_of (created_in out + 1)) × IsInOrder out
IsInOrder (consumed b ∷ out) = (b ≡ text_of (created_in out)) × IsInOrder out
IsInOrder (producer_started ∷ out) = IsInOrder out
IsInOrder (consumer_started ∷ out) = IsInOrder out
IsInOrder (running ∷ out) = IsInOrder out

-- The threads between their lock and their unlock.
abbrev pub producer_holds : ProducerPc → ℕ
producer_holds ProducerPc.writing = 1
producer_holds ProducerPc.filling = 1
producer_holds ProducerPc.printing = 1
producer_holds ProducerPc.unlocking = 1
producer_holds _ = 0

abbrev pub consumer_holds : ConsumerPc → ℕ
consumer_holds ConsumerPc.printing = 1
consumer_holds ConsumerPc.unlocking = 1
consumer_holds _ = 0

abbrev holders : Bool → ℕ
holders true = 1
holders false = 0

-- The buffer and the count, by where the producer is.
abbrev Contents : ProducerPc → State → Type 0
Contents ProducerPc.filling s =
    (s.data_buffer ≡ partial) × (s.message_count ≡ created_in s.output + 1)
Contents ProducerPc.printing s =
    (s.data_buffer ≡ record_of s.message_count) × (s.message_count ≡ created_in s.output + 1)
Contents _ s = (s.data_buffer ≡ text_of s.message_count) × (s.message_count ≡ created_in s.output)

-- Which threads there are, by where `start_application` is.
abbrev pub IsMade : MainPc → State → Type 0
IsMade MainPc.initializing s = (s.producer ≡ ProducerPc.absent) × (s.consumer ≡ ConsumerPc.absent)
IsMade MainPc.creating_producer s =
    (s.producer ≡ ProducerPc.absent) × (s.consumer ≡ ConsumerPc.absent)
IsMade MainPc.creating_consumer s =
    (s.producer ≢ ProducerPc.absent) × (s.consumer ≡ ConsumerPc.absent)
IsMade MainPc.failed s = Unit {0}
IsMade _ s = (s.producer ≢ ProducerPc.absent) × (s.consumer ≢ ConsumerPc.absent)

pub record Inv (s : State) : Type 0 where
  pub one_holder : producer_holds s.producer + consumer_holds s.consumer ≡ holders s.locked
  pub made : IsMade s.main_thread s
  pub contents : Contents s.producer s
  pub in_order : IsInOrder s.output

Inv-start : Inv start
Inv-start = ground arith

producer_step-Inv :
    (s : State) (p : ProducerPc) → Inv s → s.producer ≡ p → Kept Inv (producer_step s p)
unfolding producer_step
producer_step-Inv s ProducerPc.locking inv at = ground arith
producer_step-Inv s _ inv at = ground arith

consumer_step-Inv :
    (s : State) (p : ConsumerPc) → Inv s → s.consumer ≡ p → Kept Inv (consumer_step s p)
unfolding consumer_step
consumer_step-Inv s ConsumerPc.locking inv at = ground arith
consumer_step-Inv s _ inv at = ground arith

main_step-Inv :
    (works : Bool) (s : State) (p : MainPc)
    → Inv s
    → s.main_thread ≡ p
    → Kept Inv (main_step works s p)
unfolding main_step
main_step-Inv works s _ inv at = ground arith

step-Inv : (e : Event) (s : State) → Inv s → Kept Inv (step e s)
unfolding step
step-Inv producer_turn s inv = elim (Bool-cases (has_failed s.main_thread)) [
  | inl e ↦ rw e tt
  | inr e ↦ rw e (producer_step-Inv s s.producer inv refl)
]
step-Inv consumer_turn s inv = elim (Bool-cases (has_failed s.main_thread)) [
  | inl e ↦ rw e tt
  | inr e ↦ rw e (consumer_step-Inv s s.consumer inv refl)
]
step-Inv (main_turn works) s inv = main_step-Inv works s s.main_thread inv refl

-- Every step keeps the invariant.
pub Reach-Inv : {s : State} → Reach s → Inv s
Reach-Inv begin = Inv-start
Reach-Inv (later e r p) = Kept-some Inv p (step-Inv e _ (Reach-Inv r))

-- Whatever the schedule, what is printed is in order: the messages are created with the numbers 1, 2,
-- 3 and so on, and each time the consumer prints the buffer it prints the last message that was
-- created until then, whole, or the first text when there is none yet.
pub output-IsInOrder : {s : State} → Reach s → IsInOrder s.output
output-IsInOrder r = (Reach-Inv r).in_order
