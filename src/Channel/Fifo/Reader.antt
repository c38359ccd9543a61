-- ===== src/Channel/Fifo/Reader.antt =====
-- lab6/consumer.c: the steps of the consumer while all calls work.
use operation_systems_mirea.Base.{
  ◌≡◌, refl, sym, ◌∙◌, subst, Bool, true, false, ◌&&◌, ◌||◌, [], ◌∷◌, some, leb, drop, arith,
  Bool-cases, inl, inr, if◌then◌else◌,
}
use operation_systems_mirea.Base.Text.{Bytes}
use operation_systems_mirea.Base.Schedule.{Kept, Kept-test}
use operation_systems_mirea.Channel.{buffer_size}
use operation_systems_mirea.Channel.Fifo.{State, ProducerPc, ConsumerPc, consumer_step, read_pipe}
use operation_systems_mirea.Channel.Fifo.Facts.{has_read, has_read-check}
use operation_systems_mirea.Channel.Fifo.Meeting.{
  producer_opened, consumer_opened, Finds, Finds-fifo, Finds-read, Meets, Meeting, when_true,
  or_true, and_true,
}

-- A pipe that is empty is still open.
not_lost :
    (p : ProducerPc) (fifo came descriptor : Bool)
    → producer_opened p ≡ true
    → Finds p fifo came false descriptor false []
    → ⊥
not_lost ProducerPc.connecting fifo came descriptor o f = ground (arith, f)
not_lost ProducerPc.timing fifo came descriptor o f = ground (arith, f.1)
not_lost ProducerPc.writing fifo came descriptor o f = ground (arith, f.1)
not_lost ProducerPc.checking fifo came descriptor o f = ground (arith, o)
not_lost ProducerPc.making fifo came descriptor o f = ground (arith, o)
not_lost ProducerPc.opening fifo came descriptor o f = ground (arith, o)
not_lost _ fifo came descriptor o f = absurd (ground (arith, f.1 refl))

module _ (s : State) where
  abbrev FindsWith : Bool → Type 0
  FindsWith read = Finds s.producer s.fifo s.reader_came s.writer_open s.file_descriptor read s.pipe

  Meets-check :
      (there : Bool)
      → s.fifo ≡ there
      → Meets
          (if there then ConsumerPc.opening else ConsumerPc.making)
          s.fifo
          s.writer_came
          s.printed
  Meets-check true e = e
  Meets-check false e = tt

  consumer_opened-check :
      (there : Bool)
      → false ≡ consumer_opened (if there then ConsumerPc.opening else ConsumerPc.making)
  consumer_opened-check true = refl
  consumer_opened-check false = refl

  read_pipe-Meeting :
      (pipe : Bytes)
      → s.pipe ≡ pipe
      → FindsWith false
      → s.writer_came ≡ true
      → s.reader_came ≡ true
      → s.writer_came ≡ producer_opened s.producer
      → Kept Meeting (read_pipe s pipe)
  read_pipe-Meeting [] e f m r w = elim (Bool-cases s.writer_open) [
    | inl o ↦ rw o tt
    | inr o ↦ absurd (
        not_lost s.producer s.fifo s.reader_came s.file_descriptor (sym w ∙ m) (
          subst (λ o. Finds s.producer s.fifo s.reader_came o s.file_descriptor false []) o
            (subst
              (λ q. Finds s.producer s.fifo s.reader_came s.writer_open s.file_descriptor false q) e
              f)))
  ]
  read_pipe-Meeting (c ∷ pipe) e f m r w = (
    Finds-read s.producer s.fifo s.reader_came s.writer_open s.file_descriptor false s.pipe
        (drop buffer_size (c ∷ pipe)) f,
    m,
    r,
    w,
  )

  pub consumer_step-Meeting :
      (q : ConsumerPc)
      → FindsWith (has_read q)
      → Meets q s.fifo s.writer_came s.printed
      → s.reader_came ≡ consumer_opened q
      → s.writer_came ≡ producer_opened s.producer
      → Kept Meeting (consumer_step true s q)
  unfolding consumer_step
  consumer_step-Meeting ConsumerPc.checking f m r w = (
    subst FindsWith (sym (has_read-check s.fifo)) f,
    Meets-check s.fifo refl,
    r ∙ consumer_opened-check s.fifo,
    w,
  )
  consumer_step-Meeting ConsumerPc.making f m r w = (
    Finds-fifo s.producer s.fifo (s.fifo || true) s.reader_came s.reader_came s.writer_open
        s.file_descriptor false s.pipe (λ _ _. or_true s.fifo) (λ e. e) f,
    or_true s.fifo,
    r,
    w,
  )
  consumer_step-Meeting ConsumerPc.opening f m r w =
      when_true Meeting (s.fifo && true)
        (record s { reader_came = true; consumer = ConsumerPc.connecting })
        (record s { consumer = ConsumerPc.failed }) (and_true s.fifo m)
        (
          Finds-fifo s.producer s.fifo s.fifo s.reader_came true s.writer_open s.file_descriptor
              false s.pipe (λ _ e. e) (λ _. refl) f,
          tt,
          refl,
          w,
        )
  consumer_step-Meeting ConsumerPc.connecting f m r w =
      Kept-test Meeting s.writer_came (some (record s { consumer = ConsumerPc.starting }))
        (λ e. (f, e, r, w))
  consumer_step-Meeting ConsumerPc.starting f m r w = (f, m, r, w)
  consumer_step-Meeting ConsumerPc.reading f m r w = read_pipe-Meeting s.pipe refl f m r w
  consumer_step-Meeting ConsumerPc.dozing f m r w = (f, m, r, w)
  consumer_step-Meeting (ConsumerPc.sleeping wake) f m r w =
      Kept-test Meeting (leb wake s.clock) (some (record s { consumer = ConsumerPc.timing }))
        (λ _. (f, m, r, w))
  consumer_step-Meeting ConsumerPc.timing f m r w = (f, m, r, w)
  consumer_step-Meeting ConsumerPc.ending f m r w = (f, (m, refl), r, w)
  consumer_step-Meeting ConsumerPc.unlinking f m r w = (
    Finds-fifo s.producer s.fifo false s.reader_came s.reader_came s.writer_open s.file_descriptor
        true s.pipe (λ c _. absurd (ground (arith, m.0, w, c))) (λ e. e) f,
    m,
    r,
    w,
  )
  consumer_step-Meeting ConsumerPc.exited f m r w = tt
  consumer_step-Meeting ConsumerPc.failed f m r w = absurd m
