-- ===== src/Channel/Fifo/Ending.antt =====
-- lab6/producer.c and lab6/consumer.c: while all calls work, both programs come to their end.
use operation_systems_mirea.Base.{
  ℕ, ◌+◌, ◌<◌, ◌≤◌, ◌≡◌, ◌≢◌, refl, ◌⊎◌, subst, Bool, true, [], ◌∷◌, Option, is_some, none, length,
  arith, inl, inr,
}
use operation_systems_mirea.Base.Text.{Bytes}
use operation_systems_mirea.Base.Schedule.{
  Kept, Kept-both, not_blocked, Kept-some, CanStep, Ends, Ends-weight,
}
use operation_systems_mirea.Channel.Fifo.{
  Setting, State, ProducerPc, ConsumerPc, producer_turn, consumer_turn, start, producer_step,
  consumer_step, read_pipe, step,
}
use operation_systems_mirea.Channel.Fifo.Facts.{has_read}
use operation_systems_mirea.Channel.Fifo.Meeting.{
  producer_opened, consumer_opened, Finds, Meets, Meeting, producer_step-Meeting,
}
use operation_systems_mirea.Channel.Fifo.Reader.{consumer_step-Meeting}

-- How many steps are left to each.
abbrev producer_left : ProducerPc → ℕ
producer_left ProducerPc.checking = 9
producer_left ProducerPc.making = 8
producer_left ProducerPc.opening = 7
producer_left ProducerPc.connecting = 6
producer_left ProducerPc.timing = 5
producer_left ProducerPc.writing = 4
producer_left ProducerPc.closing = 3
producer_left (ProducerPc.sleeping wake) = 2
producer_left ProducerPc.unlinking = 1
producer_left ProducerPc.exited = 0

abbrev consumer_left : ConsumerPc → ℕ
consumer_left ConsumerPc.checking = 11
consumer_left ConsumerPc.making = 10
consumer_left ConsumerPc.opening = 9
consumer_left ConsumerPc.connecting = 8
consumer_left ConsumerPc.starting = 7
consumer_left ConsumerPc.reading = 6
consumer_left ConsumerPc.dozing = 5
consumer_left (ConsumerPc.sleeping wake) = 4
consumer_left ConsumerPc.timing = 3
consumer_left ConsumerPc.ending = 2
consumer_left ConsumerPc.unlinking = 1
consumer_left ConsumerPc.exited = 0
consumer_left ConsumerPc.failed = 0

abbrev left : State → ℕ
left s = producer_left s.producer + consumer_left s.consumer

producer_step-left :
    (k : Setting) (s : State) (p : ProducerPc)
    → Kept (λ t. left t < producer_left p + consumer_left s.consumer) (producer_step k true s p)
unfolding producer_step
producer_step-left k s _ = ground arith

read_pipe-left :
    (s : State) (pipe : Bytes)
    → Kept (λ t. left t < producer_left s.producer + 6) (read_pipe s pipe)
read_pipe-left s [] = ground arith
read_pipe-left s (c ∷ pipe) = omega arith

consumer_step-left :
    (s : State) (q : ConsumerPc)
    → Kept (λ t. left t < producer_left s.producer + consumer_left q) (consumer_step true s q)
unfolding consumer_step
consumer_step-left s ConsumerPc.reading = read_pipe-left s s.pipe
consumer_step-left s _ = ground arith

-- A turn comes after some seconds.
pub data Turn : Type 0 where
  producer_after consumer_after : ℕ → Turn

abbrev pub after : ℕ → State → State
after n s = record s { clock = s.clock + n }

unfoldable pub turn : Setting → Turn → State → Option State
unfolding step
turn k (producer_after n) s = step k (producer_turn true) (after n s)
turn k (consumer_after n) s = step k (consumer_turn true) (after n s)

-- Both programs have returned 0, and the consumer has printed the message.
abbrev pub IsOver : State → Type 0
IsOver s =
    (s.producer ≡ ProducerPc.exited) × (s.consumer ≡ ConsumerPc.exited) × (is_some s.printed ≡ true)

turn-Meeting :
    (k : Setting) (t : Turn) (s : State)
    → Meeting s
    → Kept (λ u. Meeting u × (left u < left s)) (turn k t s)
unfolding turn step
turn-Meeting k (producer_after n) s (f, m, r, w) =
    Kept-both Meeting (λ u. left u < left s) (turn k (producer_after n) s)
      (producer_step-Meeting k (after n s) s.producer f m r w)
      (producer_step-left k (after n s) s.producer)
turn-Meeting k (consumer_after n) s (f, m, r, w) =
    Kept-both Meeting (λ u. left u < left s) (turn k (consumer_after n) s)
      (consumer_step-Meeting (after n s) s.consumer f m r w)
      (consumer_step-left (after n s) s.consumer)

-- Where the producer is not blocked, and until when it sleeps.
abbrev ProducerRuns : ProducerPc → Bool → Type 0
ProducerRuns ProducerPc.connecting came = came ≡ true
ProducerRuns ProducerPc.exited came = ⊥
ProducerRuns _ came = Unit {0}

abbrev producer_wake : ProducerPc → ℕ
producer_wake (ProducerPc.sleeping wake) = wake
producer_wake _ = 0

producer_goes_on :
    (k : Setting) (s : State) (p : ProducerPc)
    → ProducerRuns p s.reader_came
    → producer_wake p ≤ s.clock
    → producer_step k true s p ≢ none
unfolding producer_step
producer_goes_on k s ProducerPc.exited h l = absurd h
producer_goes_on k s _ h l = ground arith

abbrev ConsumerRuns : ConsumerPc → Bool → Bytes → Type 0
ConsumerRuns ConsumerPc.connecting came pipe = came ≡ true
ConsumerRuns ConsumerPc.reading came pipe = 0 < length pipe
ConsumerRuns ConsumerPc.exited came pipe = ⊥
ConsumerRuns ConsumerPc.failed came pipe = ⊥
ConsumerRuns _ came pipe = Unit {0}

abbrev consumer_wake : ConsumerPc → ℕ
consumer_wake (ConsumerPc.sleeping wake) = wake
consumer_wake _ = 0

read_pipe_some : (s : State) (pipe : Bytes) → 0 < length pipe → read_pipe s pipe ≢ none
read_pipe_some s [] h = absurd (omega arith)
read_pipe_some s (c ∷ pipe) h = ground arith

consumer_goes_on :
    (s : State) (q : ConsumerPc)
    → ConsumerRuns q s.writer_came s.pipe
    → consumer_wake q ≤ s.clock
    → consumer_step true s q ≢ none
unfolding consumer_step
consumer_goes_on s ConsumerPc.reading h l = read_pipe_some s s.pipe h
consumer_goes_on s ConsumerPc.exited h l = absurd h
consumer_goes_on s ConsumerPc.failed h l = absurd h
consumer_goes_on s _ h l = ground arith

module _ (k : Setting) (s : State) where
  abbrev Goes : Type 0
  Goes = (t : Turn) × CanStep (turn k) s t

  producer_goes : (p : ProducerPc) → s.producer ≡ p → ProducerRuns p s.reader_came → Goes
  unfolding turn step
  producer_goes p at h =
      let n : ℕ = producer_wake p in
      (
        producer_after n,
        not_blocked (turn k) s (producer_after n) (λ e.
            producer_goes_on k (after n s) p h (omega arith)
              (subst (λ p. producer_step k true (after n s) p ≡ none) at e)),
      )

  consumer_goes : (q : ConsumerPc) → s.consumer ≡ q → ConsumerRuns q s.writer_came s.pipe → Goes
  unfolding turn step
  consumer_goes q at h =
      let n : ℕ = consumer_wake q in
      (
        consumer_after n,
        not_blocked (turn k) s (consumer_after n) (λ e.
            consumer_goes_on (after n s) q h (omega arith)
              (subst (λ q. consumer_step true (after n s) q ≡ none) at e)),
      )

  -- The producer waits for a reader that has not come yet.
  connecting_goes :
      s.producer ≡ ProducerPc.connecting
      → (q : ConsumerPc) → s.consumer ≡ q
      → s.reader_came ≡ consumer_opened q
      → Goes
  connecting_goes at ConsumerPc.checking there r = consumer_goes ConsumerPc.checking there tt
  connecting_goes at ConsumerPc.making there r = consumer_goes ConsumerPc.making there tt
  connecting_goes at ConsumerPc.opening there r = consumer_goes ConsumerPc.opening there tt
  connecting_goes at _ there r = producer_goes ProducerPc.connecting at r

  -- The producer has returned.
  exited_goes :
      s.producer ≡ ProducerPc.exited
      → (q : ConsumerPc) → s.consumer ≡ q
      → Finds ProducerPc.exited s.fifo s.reader_came s.writer_open s.file_descriptor
          (has_read q)
          s.pipe
      → Meets q s.fifo s.writer_came s.printed
      → s.writer_came ≡ true
      → IsOver s ⊎ Goes
  exited_goes at ConsumerPc.connecting there f m w =
      inr (consumer_goes ConsumerPc.connecting there w)
  exited_goes at ConsumerPc.reading there f m w =
      inr (consumer_goes ConsumerPc.reading there (f.1 refl))
  exited_goes at ConsumerPc.exited there f m w = inl (at, there, m.1)
  exited_goes at ConsumerPc.failed there f m w = absurd m
  exited_goes at _ there f m w = inr (consumer_goes _ there tt)

  meeting_goes :
      (p : ProducerPc)
      → s.producer ≡ p
      → Finds p s.fifo s.reader_came s.writer_open s.file_descriptor (has_read s.consumer) s.pipe
      → Meets s.consumer s.fifo s.writer_came s.printed
      → s.reader_came ≡ consumer_opened s.consumer
      → s.writer_came ≡ producer_opened p
      → IsOver s ⊎ Goes
  meeting_goes ProducerPc.connecting at f m r w = inr (connecting_goes at s.consumer refl r)
  meeting_goes ProducerPc.exited at f m r w = exited_goes at s.consumer refl f m w
  meeting_goes _ at f m r w = inr (producer_goes _ at tt)

pub start-Ends : (k : Setting) (there : Bool) (clock : ℕ) → Ends (turn k) IsOver (start there clock)
start-Ends k there clock =
    Ends-weight (turn k) IsOver Meeting left
      (λ s (f, m, r, w). meeting_goes k s s.producer refl f m r w)
      (λ t s u p e. Kept-some (λ u. Meeting u × (left u < left s)) e (turn-Meeting k t s p)) 21
      (start there clock) (omega arith) (tt, tt, refl, refl)
