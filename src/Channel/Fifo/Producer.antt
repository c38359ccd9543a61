-- ===== src/Channel/Fifo/Producer.antt =====
-- lab6/producer.c: the steps of the producer.
use operation_systems_mirea.Base.{
  ℕ, ◌+◌, ◌≤◌, ◌≡◌, refl, ap, ◌∙◌, subst, Bool, true, false, ◌||◌, ◌&&◌, [], ◌++◌, leb, arith,
  Bool-cases, inl, inr, ◌⊎◌, if◌then◌else◌,
}
use operation_systems_mirea.Base.Text.{Bytes}
use operation_systems_mirea.Base.Schedule.{Kept}
use operation_systems_mirea.Channel.{sent}
use operation_systems_mirea.Channel.Fifo.{Setting, State, ProducerPc, message, producer_step}
use operation_systems_mirea.Channel.Fifo.Facts.{
  phase, has_read, phase-check, Times-stamp, IsSent, Inv,
}

module _ (k : Setting) where
  -- A step of the producer that neither takes the time nor writes.
  pub same_phase :
      (s : State) (p : ProducerPc)
      → Inv k s
      → phase s.producer ≡ phase p
      → Inv k (record s { producer = p })
  same_phase s p inv e = record {
    is_sent =
        subst (λ f. IsSent k f (has_read s.consumer) s.clock s.timestamp s.pipe s.received_data) e
          inv.is_sent;
    unprinted = inv.unprinted;
    times = inv.times;
    told = inv.told;
    done = inv.done;
  }

  -- The message stands in the pipe.
  pub write :
      (s : State) (pipe : Bytes)
      → Inv k s
      → s.producer ≡ ProducerPc.writing
      → (pipe ≡ []) ⊎ (pipe ≡ sent (message k s.timestamp))
      → Inv k (record s { pipe = pipe; producer = ProducerPc.closing })
  write s pipe inv at h =
      let now' : (s.pipe ≡ []) × (has_read s.consumer ≡ false) × (s.timestamp ≤ s.clock) =
        subst
          (λ p. IsSent k (phase p) (has_read s.consumer) s.clock s.timestamp s.pipe s.received_data)
          at inv.is_sent in
      record {
        is_sent = (now'.2, (λ u. h), (λ r. absurd (ground (arith, now'.1))));
        unprinted = inv.unprinted;
        times = inv.times;
        told = inv.told;
        done = inv.done;
      }

  pub take_time :
      (s : State) (t : ℕ)
      → Inv k s
      → s.producer ≡ ProducerPc.timing
      → t ≤ s.clock
      → Inv k (record s { timestamp = t; producer = ProducerPc.writing })
  take_time s t inv at h =
      let now' : (s.pipe ≡ []) × (has_read s.consumer ≡ false) =
        subst
          (λ p. IsSent k (phase p) (has_read s.consumer) s.clock s.timestamp s.pipe s.received_data)
          at inv.is_sent in
      record {
        is_sent = (now'.0, now'.1, h);
        unprinted = inv.unprinted;
        times =
            Times-stamp s.consumer s.clock s.timestamp t s.start_time s.current_timestamp now'.1
              inv.times;
        told = rw (inv.unprinted now'.1) tt;
        done = inv.done;
      }

  pub contents :
      (s : State)
      → Inv k s
      → s.producer ≡ ProducerPc.writing
      → let pipe = if s.file_descriptor then s.pipe ++ sent (message k s.timestamp) else s.pipe in
        (pipe ≡ []) ⊎ (pipe ≡ sent (message k s.timestamp))
  contents s inv at =
      let now' : (s.pipe ≡ []) × (has_read s.consumer ≡ false) × (s.timestamp ≤ s.clock) =
        subst
          (λ p. IsSent k (phase p) (has_read s.consumer) s.clock s.timestamp s.pipe s.received_data)
          at inv.is_sent in
      elim (Bool-cases s.file_descriptor) [
        | inl e ↦ rw (e, now'.0) (inr refl)
        | inr e ↦ rw (e, now'.0) (inl refl)
      ]

  pub producer_step-Inv :
      (works : Bool) (s : State) (p : ProducerPc)
      → Inv k s
      → s.producer ≡ p
      → Kept (Inv k) (producer_step k works s p)
  unfolding producer_step
  producer_step-Inv works s ProducerPc.checking inv at =
      same_phase s (if s.fifo then ProducerPc.opening else ProducerPc.making) inv
        (ap phase at ∙ phase-check s.fifo)
  producer_step-Inv works s ProducerPc.making inv at =
      same_phase (record s { fifo = s.fifo || works }) ProducerPc.opening inv (ap phase at)
  producer_step-Inv works s ProducerPc.opening inv at = elim (Bool-cases (s.fifo && works)) [
    | inl e ↦ rw e (
        same_phase (record s { writer_came = true; writer_open = true }) ProducerPc.connecting inv
          (ap phase at))
    | inr e ↦ rw e (same_phase s ProducerPc.timing inv (ap phase at))
  ]
  producer_step-Inv works s ProducerPc.connecting inv at = elim (Bool-cases s.reader_came) [
    | inl e ↦
        rw e (same_phase (record s { file_descriptor = true }) ProducerPc.timing inv (ap phase at))
    | inr e ↦ rw e tt
  ]
  producer_step-Inv works s ProducerPc.timing inv at = take_time s s.clock inv at (ground arith)
  producer_step-Inv works s ProducerPc.writing inv at =
      write s (if s.file_descriptor then s.pipe ++ sent (message k s.timestamp) else s.pipe) inv at
        (contents s inv at)
  producer_step-Inv works s ProducerPc.closing inv at =
      same_phase (record s { writer_open = false }) (ProducerPc.sleeping (s.clock + 2)) inv
        (ap phase at)
  producer_step-Inv works s (ProducerPc.sleeping wake) inv at =
      elim (Bool-cases (leb wake s.clock)) [
        | inl e ↦ rw e (same_phase s ProducerPc.unlinking inv (ap phase at))
        | inr e ↦ rw e tt
      ]
  producer_step-Inv works s ProducerPc.unlinking inv at =
      same_phase (record s { fifo = false }) ProducerPc.exited inv (ap phase at)
  producer_step-Inv works s ProducerPc.exited inv at = tt
