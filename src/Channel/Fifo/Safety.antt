-- ===== src/Channel/Fifo/Safety.antt =====
-- lab6/consumer.c: the steps of the consumer, and what it prints.
use operation_systems_mirea.Base.CString.{c_string}
use operation_systems_mirea.Base.{
  ℕ, ◌+◌, ◌-◌, ◌≤◌, ◌≡◌, refl, ap, sym, ◌∙◌, subst, Bool, true, false, ◌&&◌, [], ◌∷◌, Option,
  is_some, some, leb, drop, arith, Bool-cases, inl, inr, if◌then◌else◌,
}
use operation_systems_mirea.Base.Text.{Bytes}
use operation_systems_mirea.Base.Schedule.{Kept, Kept-some}
use operation_systems_mirea.Channel.{buffer_size, sent, received}
use operation_systems_mirea.Channel.Text.{c_string-received}
use operation_systems_mirea.Channel.Fifo.{
  Setting, State, ConsumerPc, Event, producer_turn, consumer_turn, tick, message, source,
  consumer_step, read_pipe, step, Reach, begin, later,
}
use operation_systems_mirea.Channel.Fifo.Facts.{
  Phase, phase, has_read, has_read-check, Times, Times-check, Times-tick, early, stamped, written,
  IsTold, IsDone, has_ended, has_read-ended, IsSent, IsSent-tick, Inv, Inv-start,
}
use operation_systems_mirea.Channel.Fifo.Producer.{producer_step-Inv}

module _ (k : Setting) where
  is_done :
      (b : Bool) (out : Option (Bytes × ℕ × ℕ)) → (b ≡ true → is_some out ≡ true) → IsDone b out
  is_done true out h = h refl
  is_done false out h = tt

  -- A step of the consumer before it has read.
  still_unread :
      (s : State) (p : ConsumerPc) (first : ℕ)
      → Inv k s
      → has_read s.consumer ≡ false
      → has_read p ≡ false
      → Times p s.clock s.timestamp first s.current_timestamp
      → Inv k (record s { consumer = p; start_time = first })
  still_unread s p first inv h e times = record {
    is_sent =
        subst (λ r. IsSent k (phase s.producer) r s.clock s.timestamp s.pipe s.received_data)
          (h ∙ sym e) inv.is_sent;
    unprinted = λ u. inv.unprinted h;
    times = times;
    told = inv.told;
    done = λ x. absurd (ground (arith, has_read-ended p x));
  }

  -- A step of the consumer after it has read.
  still_read :
      (s : State) (p : ConsumerPc) (time : ℕ) (out : Option (Bytes × ℕ × ℕ))
      → Inv k s
      → has_read s.consumer ≡ true
      → has_read p ≡ true
      → (has_ended p ≡ true → is_some out ≡ true)
      → Times p s.clock s.timestamp s.start_time time
      → IsTold k s.timestamp out
      → Inv k (record s { consumer = p; current_timestamp = time; printed = out })
  still_read s p time out inv h e ends times told = record {
    is_sent =
        subst (λ r. IsSent k (phase s.producer) r s.clock s.timestamp s.pipe s.received_data)
          (h ∙ sym e) inv.is_sent;
    unprinted = λ u. absurd (ground (arith, e, u));
    times = times;
    told = told;
    done = ends;
  }

  -- What is in the pipe is the message, and only after it was written.
  in_pipe :
      (f : Phase) (clock stamp c : ℕ) (pipe data' : Bytes)
      → IsSent k f false clock stamp (c ∷ pipe) data'
      → (f ≡ written) × (stamp ≤ clock) × (c ∷ pipe ≡ sent (message k stamp))
  in_pipe early clock stamp c pipe data' h = absurd (ground (arith, h.0))
  in_pipe stamped clock stamp c pipe data' h = absurd (ground (arith, h.0))
  in_pipe written clock stamp c pipe data' h = elim (h.1 refl) [
    | inl e ↦ absurd (ground (arith, e))
    | inr e ↦ (refl, h.0, e)
  ]

  read_pipe-Inv :
      (s : State) (pipe : Bytes)
      → Inv k s
      → s.consumer ≡ ConsumerPc.reading
      → s.pipe ≡ pipe
      → Kept (Inv k) (read_pipe s pipe)
  read_pipe-Inv s [] inv at e = elim (Bool-cases s.writer_open) [
    | inl o ↦ rw o tt
    | inr o ↦ rw o (still_unread s ConsumerPc.failed s.start_time inv (ap has_read at) refl tt)
  ]
  read_pipe-Inv s (c ∷ pipe) inv at e =
      let sends : IsSent k (phase s.producer) false s.clock s.timestamp (c ∷ pipe) s.received_data =
        subst (λ q. IsSent k (phase s.producer) false s.clock s.timestamp q s.received_data) e
          (subst (λ r. IsSent k (phase s.producer) r s.clock s.timestamp s.pipe s.received_data)
            (ap has_read at) inv.is_sent) in
      let (f, l, m) = in_pipe (phase s.producer) s.clock s.timestamp c pipe s.received_data sends in
      record {
        is_sent =
            subst
              (λ g.
                IsSent k g true s.clock s.timestamp (drop buffer_size (c ∷ pipe))
                  (received (c ∷ pipe)))
              (sym f) (l, (λ u. absurd (ground (arith, u))), (λ u. ap received m));
        unprinted = λ u. absurd (ground (arith, u));
        times =
            subst (λ p. Times p s.clock s.timestamp s.start_time s.current_timestamp) at inv.times;
        told = rw (inv.unprinted (ap has_read at)) tt;
        done = λ x. absurd (ground (arith, x));
      }

  past :
      (f : Phase) (clock stamp : ℕ) (pipe data' : Bytes)
      → IsSent k f true clock stamp pipe data'
      → stamp ≤ clock
  past early clock stamp pipe data' h = absurd (ground (arith, h.1))
  past stamped clock stamp pipe data' h = h.2
  past written clock stamp pipe data' h = h.0

  -- The producer's time is past when the consumer has read.
  stamp_past : (s : State) → Inv k s → has_read s.consumer ≡ true → s.timestamp ≤ s.clock
  stamp_past s inv h = past (phase s.producer) s.clock s.timestamp s.pipe s.received_data (
      subst (λ r. IsSent k (phase s.producer) r s.clock s.timestamp s.pipe s.received_data) h
        inv.is_sent)

  -- What `read` took was the message.
  data_read :
      (f : Phase) (clock stamp : ℕ) (pipe data' : Bytes)
      → IsSent k f true clock stamp pipe data'
      → data' ≡ received (sent (message k stamp))
  data_read early clock stamp pipe data' h = absurd (ground (arith, h.1))
  data_read stamped clock stamp pipe data' h = absurd (ground (arith, h.1))
  data_read written clock stamp pipe data' h = h.2 refl

  consumer_step-Inv :
      (works : Bool) (s : State) (p : ConsumerPc)
      → Inv k s
      → s.consumer ≡ p
      → Kept (Inv k) (consumer_step works s p)
  unfolding consumer_step
  consumer_step-Inv works s ConsumerPc.checking inv at =
      still_unread s (if s.fifo then ConsumerPc.opening else ConsumerPc.making) s.start_time inv
        (ap has_read at) (has_read-check s.fifo)
        (Times-check s.fifo s.clock s.timestamp s.start_time s.current_timestamp)
  consumer_step-Inv works s ConsumerPc.making inv at =
      still_unread s ConsumerPc.opening s.start_time inv (ap has_read at) refl tt
  consumer_step-Inv works s ConsumerPc.opening inv at = elim (Bool-cases (s.fifo && works)) [
    | inl e ↦ rw e (still_unread s ConsumerPc.connecting s.start_time inv (ap has_read at) refl tt)
    | inr e ↦ rw e (still_unread s ConsumerPc.failed s.start_time inv (ap has_read at) refl tt)
  ]
  consumer_step-Inv works s ConsumerPc.connecting inv at = elim (Bool-cases s.writer_came) [
    | inl e ↦ rw e (still_unread s ConsumerPc.starting s.start_time inv (ap has_read at) refl tt)
    | inr e ↦ rw e tt
  ]
  consumer_step-Inv works s ConsumerPc.starting inv at =
      still_unread s ConsumerPc.reading s.clock inv (ap has_read at) refl (ground arith)
  consumer_step-Inv works s ConsumerPc.reading inv at = read_pipe-Inv s s.pipe inv at refl
  consumer_step-Inv works s ConsumerPc.dozing inv at =
      let first : s.start_time ≤ s.clock =
        subst (λ p. Times p s.clock s.timestamp s.start_time s.current_timestamp) at inv.times in
      let stamp : s.timestamp ≤ s.clock = stamp_past s inv (ap has_read at) in
      still_read s (ConsumerPc.sleeping (s.clock + 10)) s.current_timestamp s.printed inv
        (ap has_read at) refl (λ x. absurd (ground (arith, x))) (omega arith, omega arith) inv.told
  consumer_step-Inv works s (ConsumerPc.sleeping wake) inv at =
      let t : (s.start_time + 10 ≤ wake) × (s.timestamp + 10 ≤ wake) =
        subst (λ p. Times p s.clock s.timestamp s.start_time s.current_timestamp) at inv.times in
      elim (Bool-cases (leb wake s.clock)) [
        | inl e ↦ rw e (
            still_read s ConsumerPc.timing s.current_timestamp s.printed inv (ap has_read at) refl
              (λ x. absurd (ground (arith, x))) (ground arith) inv.told)
        | inr e ↦ rw e tt
      ]
  consumer_step-Inv works s ConsumerPc.timing inv at =
      still_read s ConsumerPc.ending s.clock s.printed inv (ap has_read at) refl
        (λ x. absurd (ground (arith, x)))
        (subst (λ p. Times p s.clock s.timestamp s.start_time s.current_timestamp) at inv.times)
        inv.told
  consumer_step-Inv works s ConsumerPc.ending inv at =
      let t : (s.start_time + 10 ≤ s.clock) × (s.timestamp + 10 ≤ s.current_timestamp) =
        subst (λ p. Times p s.clock s.timestamp s.start_time s.current_timestamp) at inv.times in
      let e : s.received_data ≡ received (sent (message k s.timestamp)) =
        data_read (phase s.producer) s.clock s.timestamp s.pipe s.received_data (
          subst (λ r. IsSent k (phase s.producer) r s.clock s.timestamp s.pipe s.received_data)
            (ap has_read at) inv.is_sent) in
      still_read s ConsumerPc.unlinking s.current_timestamp
        (some (c_string s.received_data, s.current_timestamp, s.clock - s.start_time)) inv
        (ap has_read at) refl (λ x. refl) tt
        (
          ap c_string e ∙ c_string-received source k.pid (k.local_time s.timestamp),
          t.1,
          omega arith,
        )
  consumer_step-Inv works s ConsumerPc.unlinking inv at =
      still_read s ConsumerPc.exited s.current_timestamp s.printed inv (ap has_read at) refl
        (λ x. inv.done (ap has_ended at)) tt inv.told
  consumer_step-Inv works s ConsumerPc.exited inv at = tt
  consumer_step-Inv works s ConsumerPc.failed inv at = tt

  step-Inv : (e : Event) (s : State) → Inv k s → Kept (Inv k) (step k e s)
  unfolding step
  step-Inv (producer_turn works) s inv = producer_step-Inv k works s s.producer inv refl
  step-Inv (consumer_turn works) s inv = consumer_step-Inv works s s.consumer inv refl
  step-Inv tick s inv = record {
    is_sent =
        IsSent-tick k (phase s.producer) (has_read s.consumer) s.clock s.timestamp s.pipe
          s.received_data inv.is_sent;
    unprinted = inv.unprinted;
    times = Times-tick s.consumer s.clock s.timestamp s.start_time s.current_timestamp inv.times;
    told = inv.told;
    done = inv.done;
  }

  Reach-Inv : {s : State} → Reach k s → Inv k s
  Reach-Inv (begin there clock) = Inv-start k there clock
  Reach-Inv (later e r p) = Kept-some (Inv k) p (step-Inv e _ (Reach-Inv r))

  -- Whatever the schedule, whichever calls fail, and whether the FIFO is there before: a consumer that
  -- comes to its end with status 0 has printed, and what a consumer prints is the message of the
  -- producer, whole; its own local time is ten seconds or more after that in the message, and the delay
  -- that it prints is ten seconds or more.
  pub consumer-IsTold :
      {s : State}
      → Reach k s
      → IsTold k s.timestamp s.printed × IsDone (has_ended s.consumer) s.printed
  consumer-IsTold {s} r =
      let inv : Inv k s = Reach-Inv r in
      (inv.told, is_done (has_ended s.consumer) s.printed inv.done)
