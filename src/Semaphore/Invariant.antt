-- ===== src/Semaphore/Invariant.antt =====
-- lab9/sender.c and lab9/receiver.c: what holds in every state of the two processes.
use operation_systems_mirea.Base.{
  ℕ, ◌+◌, ◌≤◌, ◌<◌, ◌≡◌, refl, Bool, true, false, Option, none, some, arith,
}
use operation_systems_mirea.Base.Schedule.{Kept, Kept-some}
use operation_systems_mirea.Monitor.{Buffer, partial}
use operation_systems_mirea.Monitor.Invariant.{text_of}
use operation_systems_mirea.Semaphore.{
  State, SenderPc, ReceiverPc, Event, sender_turn, receiver_turn, sender_signal, receiver_signal,
  start, is_none, sender_step, receiver_step, signal_sender, signal_receiver, step, Reach, begin,
  later,
}

-- The processes between the two calls of `semop`.
abbrev pub sender_holds : SenderPc → ℕ
sender_holds SenderPc.writing = 1
sender_holds SenderPc.filling = 1
sender_holds SenderPc.unlocking = 1
sender_holds _ = 0

abbrev pub receiver_holds : ReceiverPc → ℕ
receiver_holds ReceiverPc.copying = 1
receiver_holds ReceiverPc.printing = 1
receiver_holds ReceiverPc.unlocking = 1
receiver_holds _ = 0

-- The sender before `semget`, and in its loop.
abbrev pub is_early : SenderPc → Bool
is_early SenderPc.creating_key = true
is_early SenderPc.getting_key = true
is_early SenderPc.getting_memory = true
is_early SenderPc.storing_memory = true
is_early SenderPc.attaching = true
is_early SenderPc.getting_semaphore = true
is_early _ = false

abbrev pub sends : SenderPc → Bool
sends SenderPc.locking = true
sends SenderPc.writing = true
sends SenderPc.filling = true
sends SenderPc.unlocking = true
sends _ = false

abbrev pub receives : ReceiverPc → Bool
receives ReceiverPc.locking = true
receives ReceiverPc.copying = true
receives ReceiverPc.printing = true
receives ReceiverPc.unlocking = true
receives _ = false

-- The sender ended by its signal handler.
abbrev pub has_cleaned : SenderPc → Bool
has_cleaned (SenderPc.exited ℕ.zero) = true
has_cleaned _ = false

-- The sender between the return of `shmget` or `semget` and the store of what it returned.
abbrev pub is_storing : SenderPc → Bool
is_storing SenderPc.storing_memory = true
is_storing SenderPc.storing_semaphore = true
is_storing _ = false

abbrev stores_memory : SenderPc → Bool
stores_memory SenderPc.storing_memory = true
stores_memory _ = false

abbrev stores_semaphore : SenderPc → Bool
stores_semaphore SenderPc.storing_semaphore = true
stores_semaphore _ = false

abbrev pub is_partial : Buffer → Bool
is_partial partial = true
is_partial _ = false

abbrev pub contents : SenderPc → ℕ → Buffer
contents SenderPc.filling n = partial
contents _ n = text_of n

abbrev pub IsCounted : SenderPc → ℕ → Type 0
IsCounted SenderPc.filling n = 0 < n
IsCounted _ n = Unit {0}

-- The value of the semaphore and the processes inside are one at most.
abbrev pub Balance : Option ℕ → ℕ → Type 0
Balance none holders = Unit {0}
Balance (some v) holders = v + holders ≤ 1

-- `semget` has made the semaphore and `semctl` has not set it.
abbrev pub Unset : SenderPc → Option ℕ → ℕ → Type 0
Unset SenderPc.storing_semaphore sem holders = (sem ≡ some 0) × (holders ≡ 0)
Unset SenderPc.setting_semaphore sem holders = (sem ≡ some 0) × (holders ≡ 0)
Unset _ sem holders = Unit {0}

pub record Inv (s : State) : Type 0 where
  pub early : is_early s.sender ≡ true → (s.sem ≡ none) × (s.message_count ≡ 0)
  pub unset : Unset s.sender s.sem (receiver_holds s.receiver)
  pub sending : sends s.sender ≡ true → is_none s.sem ≡ false
  pub receiving : receives s.receiver ≡ true → has_cleaned s.sender ≡ false → is_none s.sem ≡ false
  pub balance : Balance s.sem (sender_holds s.sender + receiver_holds s.receiver)
  pub counted : IsCounted s.sender s.message_count
  pub held : has_cleaned s.sender ≡ false → s.memory ≡ contents s.sender s.message_count
  pub received : has_cleaned s.sender ≡ false → is_partial s.received_data ≡ false
  pub memory_known :
      has_cleaned s.sender ≡ false
      → stores_memory s.sender ≡ false
      → s.shm ≡ true
      → s.shm_identifier ≡ true
  pub semaphore_known :
      has_cleaned s.sender ≡ false
      → stores_semaphore s.sender ≡ false
      → is_none s.sem ≡ false
      → s.sem_identifier ≡ true

Inv-start : Inv start
Inv-start = ground arith

sender_step-Inv :
    (works : Bool) (s : State) (p : SenderPc)
    → Inv s
    → s.sender ≡ p
    → Kept Inv (sender_step works s p)
unfolding sender_step
sender_step-Inv works s SenderPc.locking inv at = ground arith
sender_step-Inv works s _ inv at = ground arith

receiver_step-Inv :
    (works : Bool) (s : State) (p : ReceiverPc)
    → Inv s
    → s.receiver ≡ p
    → Kept Inv (receiver_step works s p)
unfolding receiver_step
receiver_step-Inv works s ReceiverPc.locking inv at = ground arith
receiver_step-Inv works s _ inv at = ground arith

signal_sender-Inv : (s : State) (p : SenderPc) → Inv s → s.sender ≡ p → Kept Inv (signal_sender s p)
signal_sender-Inv s (SenderPc.exited status) inv at = tt
signal_sender-Inv s _ inv at = ground arith

signal_receiver-Inv :
    (s : State) (p : ReceiverPc) → Inv s → s.receiver ≡ p → Kept Inv (signal_receiver s p)
signal_receiver-Inv s (ReceiverPc.exited status) inv at = tt
signal_receiver-Inv s _ inv at = ground arith

step-Inv : (e : Event) (s : State) → Inv s → Kept Inv (step e s)
unfolding step
step-Inv (sender_turn works) s inv = sender_step-Inv works s s.sender inv refl
step-Inv (receiver_turn works) s inv = receiver_step-Inv works s s.receiver inv refl
step-Inv sender_signal s inv = signal_sender-Inv s s.sender inv refl
step-Inv receiver_signal s inv = signal_receiver-Inv s s.receiver inv refl

-- Every step keeps the invariant.
pub Reach-Inv : {s : State} → Reach start s → Inv s
Reach-Inv begin = Inv-start
Reach-Inv (later e r p) = Kept-some Inv p (step-Inv e _ (Reach-Inv r))
