-- ===== src/Channel/Fifo/Delivery.antt =====
-- lab6/producer.c and lab6/consumer.c: the message arrives.
use operation_systems_mirea.Base.{ℕ, zero, suc, ◌≡◌, refl, subst, Bool, true, some, arith}
use operation_systems_mirea.Base.Schedule.{Ends, Ends-kept}
use operation_systems_mirea.Channel.Fifo.{
  Setting, State, producer_turn, consumer_turn, tick, start, step, Reach, begin, later,
}
use operation_systems_mirea.Channel.Fifo.Facts.{IsTold}
use operation_systems_mirea.Channel.Fifo.Safety.{consumer-IsTold}
use operation_systems_mirea.Channel.Fifo.Ending.{
  Turn, producer_after, consumer_after, after, turn, IsOver, start-Ends,
}

module _ (k : Setting) where
  Reach-after : (n : ℕ) (s : State) → Reach k s → Reach k (after n s)
  unfolding step
  Reach-after zero s r = subst (λ c. Reach k (record s { clock = c })) (omega arith) r
  Reach-after (suc n) s r =
      subst (λ c. Reach k (record s { clock = c })) (omega arith)
        (later tick (Reach-after n s r) refl)

  Reach-turn : (t : Turn) (s u : State) → Reach k s → turn k t s ≡ some u → Reach k u
  unfolding turn
  Reach-turn (producer_after n) s u r e = later (producer_turn true) (Reach-after n s r) e
  Reach-turn (consumer_after n) s u r e = later (consumer_turn true) (Reach-after n s r) e

  -- Both programs have returned 0, and the consumer has printed the message of the producer, with times
  -- that are late enough.
  abbrev pub IsDelivered : State → Type 0
  IsDelivered s = IsOver s × IsTold k s.timestamp s.printed

  -- While all calls work, whether the FIFO is there before or not: every schedule of the two programs, in
  -- which each turn comes after any number of seconds, ends with both having returned 0 and the consumer
  -- having printed the whole message of the producer, with a local time that is ten seconds or more after
  -- that in the message, and a delay of ten seconds or more; until then some turn can be taken.
  pub start-IsDelivered : (there : Bool) (clock : ℕ) → Ends (turn k) IsDelivered (start there clock)
  start-IsDelivered there clock =
      Ends-kept (turn k) IsOver (Reach k) IsDelivered Reach-turn
        (λ s o r. (o, (consumer-IsTold k r).0)) (begin there clock) (start-Ends k there clock)
