-- ===== src/Exchange/Progress.antt =====
-- lab9/main.c: the threads never all wait, and the consumer is never shut out for good.
use operation_systems_mirea.Base.{
  ℕ, suc, ◌+◌, ◌≡◌, ◌≢◌, refl, true, false, ◌∷◌, some, arith, inl, inr, Bool-cases,
}
use operation_systems_mirea.Monitor.{record_of, partial}
use operation_systems_mirea.Exchange.{
  State, ProducerPc, ConsumerPc, created, consumer_started, Event, producer_turn, consumer_turn,
  has_failed, step, Reach, later,
}
use operation_systems_mirea.Exchange.Output.{Inv, Reach-Inv, producer_holds}

-- A schedule of at most `n` steps brings the consumer to its `printf` of the buffer.
pub data Soon : ℕ → State → Type 0 where
  now : {n : ℕ} {s : State} → s.consumer ≡ ConsumerPc.printing → Soon n s
  next : {n : ℕ} {s t : State} (e : Event) → step e s ≡ some t → Soon n t → Soon (suc n) s

more : {n : ℕ} {s : State} → Soon n s → Soon (suc n) s
more (now h) = now h
more (next e p h) = next e p (more h)

module _ (s : State) (alive : has_failed s.main_thread ≡ false) where
  free-Soon : (n : ℕ) → s.consumer ≡ ConsumerPc.locking → s.locked ≡ false → Soon (suc n) s
  unfolding step
  free-Soon n at free =
      next {t = record s { locked = true; consumer = ConsumerPc.printing }} consumer_turn
        (ground arith) (now refl)

unlocking-Soon :
    (s : State) (n : ℕ)
    → has_failed s.main_thread ≡ false
    → s.consumer ≡ ConsumerPc.locking
    → s.producer ≡ ProducerPc.unlocking
    → Soon (suc (suc n)) s
unfolding step
unlocking-Soon s n alive at p =
    next {t = record s { locked = false; producer = ProducerPc.locking }} producer_turn
      (ground arith)
      (free-Soon (record s { locked = false; producer = ProducerPc.locking }) alive n at refl)

printing-Soon :
    (s : State) (n : ℕ)
    → has_failed s.main_thread ≡ false
    → s.consumer ≡ ConsumerPc.locking
    → s.producer ≡ ProducerPc.printing
    → Soon (suc (suc (suc n))) s
unfolding step
printing-Soon s n alive at p =
    let t : State = record s {
      producer = ProducerPc.unlocking;
      output = created s.data_buffer ∷ s.output;
    } in
    next {t = t} producer_turn (ground arith) (unlocking-Soon t n alive at refl)

filling-Soon :
    (s : State) (n : ℕ)
    → has_failed s.main_thread ≡ false
    → s.consumer ≡ ConsumerPc.locking
    → s.producer ≡ ProducerPc.filling
    → Soon (suc (suc (suc (suc n)))) s
unfolding step
filling-Soon s n alive at p =
    let t : State = record s {
      data_buffer = record_of s.message_count;
      producer = ProducerPc.printing;
    } in
    next {t = t} producer_turn (ground arith) (printing-Soon t n alive at refl)

writing-Soon :
    (s : State)
    → has_failed s.main_thread ≡ false
    → s.consumer ≡ ConsumerPc.locking
    → s.producer ≡ ProducerPc.writing
    → Soon 5 s
unfolding step
writing-Soon s alive at p =
    let t : State = record s {
      message_count = s.message_count + 1;
      data_buffer = partial;
      producer = ProducerPc.filling;
    } in
    next {t = t} producer_turn (ground arith) (filling-Soon t 0 alive at refl)

taken-Soon :
    (s : State) (p : ProducerPc)
    → has_failed s.main_thread ≡ false
    → s.consumer ≡ ConsumerPc.locking
    → s.producer ≡ p
    → producer_holds p ≡ 1
    → Soon 5 s
taken-Soon s ProducerPc.writing alive at p h = writing-Soon s alive at p
taken-Soon s ProducerPc.filling alive at p h = filling-Soon s 1 alive at p
taken-Soon s ProducerPc.printing alive at p h = printing-Soon s 2 alive at p
taken-Soon s ProducerPc.unlocking alive at p h = unlocking-Soon s 3 alive at p
taken-Soon s _ alive at p h = absurd (ground arith)

locking-Soon :
    (s : State)
    → Inv s
    → has_failed s.main_thread ≡ false
    → s.consumer ≡ ConsumerPc.locking
    → Soon 5 s
locking-Soon s inv alive at = elim (Bool-cases s.locked) [
  | inl l ↦ taken-Soon s s.producer alive at refl (ground (arith, inv.one_holder))
  | inr l ↦ free-Soon s alive 4 at l
]

starting-Soon :
    {s : State}
    → Reach s
    → has_failed s.main_thread ≡ false
    → s.consumer ≡ ConsumerPc.starting
    → Soon 6 s
unfolding step
starting-Soon {s} r alive at =
    let t : State = record s {
      consumer = ConsumerPc.locking;
      output = consumer_started ∷ s.output;
    } in
    let e : step consumer_turn s ≡ some t = ground arith in
    next {t = t} consumer_turn e (locking-Soon t (Reach-Inv (later consumer_turn r e)) alive refl)

leaving-Soon :
    (s : State) → has_failed s.main_thread ≡ false → s.consumer ≡ ConsumerPc.unlocking → Soon 6 s
unfolding step
leaving-Soon s alive at =
    let t : State = record s { locked = false; consumer = ConsumerPc.locking } in
    next {t = t} consumer_turn (ground arith) (free-Soon t alive 4 refl refl)

Soon-at :
    {s : State} (p : ConsumerPc)
    → Reach s
    → has_failed s.main_thread ≡ false
    → s.consumer ≡ p
    → p ≢ ConsumerPc.absent
    → Soon 6 s
Soon-at ConsumerPc.absent r alive at made = absurd (made refl)
Soon-at ConsumerPc.starting r alive at made = starting-Soon r alive at
Soon-at {s} ConsumerPc.locking r alive at made = more (locking-Soon s (Reach-Inv r) alive at)
Soon-at ConsumerPc.printing r alive at made = now at
Soon-at {s} ConsumerPc.unlocking r alive at made = leaving-Soon s alive at

-- In every state that the program reaches with its consumer created and no call failed, some schedule
-- of at most six steps brings the consumer to print the buffer: no thread keeps the mutex or waits for
-- another that waits for it.
pub Reach-Soon :
    {s : State}
    → Reach s
    → has_failed s.main_thread ≡ false
    → s.consumer ≢ ConsumerPc.absent
    → Soon 6 s
Reach-Soon {s} r alive made = Soon-at s.consumer r alive refl made
