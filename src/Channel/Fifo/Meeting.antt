-- ===== src/Channel/Fifo/Meeting.antt =====
-- lab6/producer.c and lab6/consumer.c: what holds between any two steps while all calls work.
use operation_systems_mirea.Base.{
  ℕ, ◌<◌, ◌≡◌, refl, ◌∙◌, Bool, true, false, ◌&&◌, ◌||◌, [], ◌∷◌, ◌++◌, Option, is_some, some, leb,
  length, length-append, arith, if◌then◌else◌,
}
use operation_systems_mirea.Base.Text.{Bytes}
use operation_systems_mirea.Base.Schedule.{Kept, Kept-test}
use operation_systems_mirea.Channel.{sent}
use operation_systems_mirea.Channel.Fifo.{
  Setting, State, ProducerPc, ConsumerPc, message, producer_step,
}
use operation_systems_mirea.Channel.Fifo.Facts.{has_read}

abbrev pub producer_opened : ProducerPc → Bool
producer_opened ProducerPc.checking = false
producer_opened ProducerPc.making = false
producer_opened ProducerPc.opening = false
producer_opened _ = true

abbrev pub consumer_opened : ConsumerPc → Bool
consumer_opened ConsumerPc.checking = false
consumer_opened ConsumerPc.making = false
consumer_opened ConsumerPc.opening = false
consumer_opened _ = true

-- What the producer finds, by where it is: the FIFO, whether the reader came, whether its side is open,
-- its descriptor, whether the consumer has read, and the pipe.
abbrev pub Finds : ProducerPc → Bool → Bool → Bool → Bool → Bool → Bytes → Type 0
Finds ProducerPc.checking fifo came ready descriptor read pipe = Unit {0}
Finds ProducerPc.making fifo came ready descriptor read pipe = Unit {0}
Finds ProducerPc.opening fifo came ready descriptor read pipe = fifo ≡ true
Finds ProducerPc.connecting fifo came ready descriptor read pipe = ready ≡ true
Finds ProducerPc.timing fifo came ready descriptor read pipe =
    (came ≡ true) × (ready ≡ true) × (descriptor ≡ true)
Finds ProducerPc.writing fifo came ready descriptor read pipe =
    (came ≡ true) × (ready ≡ true) × (descriptor ≡ true)
Finds _ fifo came ready descriptor read pipe = (came ≡ true) × (read ≡ false → 0 < length pipe)

-- What the consumer finds: the FIFO, whether the writer came, and what it has printed.
abbrev pub Meets : ConsumerPc → Bool → Bool → Option (Bytes × ℕ × ℕ) → Type 0
Meets ConsumerPc.checking fifo came out = Unit {0}
Meets ConsumerPc.making fifo came out = Unit {0}
Meets ConsumerPc.opening fifo came out = fifo ≡ true
Meets ConsumerPc.connecting fifo came out = Unit {0}
Meets ConsumerPc.unlinking fifo came out = (came ≡ true) × (is_some out ≡ true)
Meets ConsumerPc.exited fifo came out = (came ≡ true) × (is_some out ≡ true)
Meets ConsumerPc.failed fifo came out = ⊥
Meets _ fifo came out = came ≡ true

abbrev pub Meeting : State → Type 0
Meeting s =
    Finds s.producer s.fifo s.reader_came s.writer_open s.file_descriptor (has_read s.consumer)
      s.pipe
    × Meets s.consumer s.fifo s.writer_came s.printed
    × (s.reader_came ≡ consumer_opened s.consumer)
    × (s.writer_came ≡ producer_opened s.producer)

-- What the other side does to it.
pub Finds-fifo :
    (p : ProducerPc) (fifo fifo' came came' ready descriptor read : Bool) (pipe : Bytes)
    → (producer_opened p ≡ false → fifo ≡ true → fifo' ≡ true)
    → (came ≡ true → came' ≡ true)
    → Finds p fifo came ready descriptor read pipe
    → Finds p fifo' came' ready descriptor read pipe
Finds-fifo ProducerPc.checking fifo fifo' came came' ready descriptor read pipe f c h = tt
Finds-fifo ProducerPc.making fifo fifo' came came' ready descriptor read pipe f c h = tt
Finds-fifo ProducerPc.opening fifo fifo' came came' ready descriptor read pipe f c h = f refl h
Finds-fifo ProducerPc.connecting fifo fifo' came came' ready descriptor read pipe f c h = h
Finds-fifo ProducerPc.timing fifo fifo' came came' ready descriptor read pipe f c h =
    (c h.0, h.1, h.2)
Finds-fifo ProducerPc.writing fifo fifo' came came' ready descriptor read pipe f c h =
    (c h.0, h.1, h.2)
Finds-fifo _ fifo fifo' came came' ready descriptor read pipe f c h = (c h.0, h.1)

pub Finds-read :
    (p : ProducerPc) (fifo came ready descriptor read : Bool) (pipe pipe' : Bytes)
    → Finds p fifo came ready descriptor read pipe
    → Finds p fifo came ready descriptor true pipe'
Finds-read ProducerPc.checking fifo came ready descriptor read pipe pipe' h = tt
Finds-read ProducerPc.making fifo came ready descriptor read pipe pipe' h = tt
Finds-read ProducerPc.opening fifo came ready descriptor read pipe pipe' h = h
Finds-read ProducerPc.connecting fifo came ready descriptor read pipe pipe' h = h
Finds-read ProducerPc.timing fifo came ready descriptor read pipe pipe' h = h
Finds-read ProducerPc.writing fifo came ready descriptor read pipe pipe' h = h
Finds-read _ fifo came ready descriptor read pipe pipe' h = (h.0, λ e. absurd (ground (arith, e)))

Meets-fifo :
    (q : ConsumerPc) (fifo fifo' came came' : Bool) (out : Option (Bytes × ℕ × ℕ))
    → (consumer_opened q ≡ false → fifo ≡ true → fifo' ≡ true)
    → (came ≡ true → came' ≡ true)
    → Meets q fifo came out
    → Meets q fifo' came' out
Meets-fifo ConsumerPc.checking fifo fifo' came came' out f c h = tt
Meets-fifo ConsumerPc.making fifo fifo' came came' out f c h = tt
Meets-fifo ConsumerPc.opening fifo fifo' came came' out f c h = f refl h
Meets-fifo ConsumerPc.connecting fifo fifo' came came' out f c h = tt
Meets-fifo ConsumerPc.unlinking fifo fifo' came came' out f c h = (c h.0, h.1)
Meets-fifo ConsumerPc.exited fifo fifo' came came' out f c h = (c h.0, h.1)
Meets-fifo ConsumerPc.failed fifo fifo' came came' out f c h = h
Meets-fifo _ fifo fifo' came came' out f c h = c h

-- A test whose answer is known.
pub when_true :
    (P : State → Type 0) (b : Bool) (s t : State) → b ≡ true → P s → P (if b then s else t)
when_true P true s t e h = h
when_true P false s t e h = absurd (ground (arith, e))

pub or_true : (b : Bool) → (b || true) ≡ true
or_true true = refl
or_true false = refl

pub and_true : (b : Bool) → b ≡ true → (b && true) ≡ true
and_true b e = rw e refl

module _ (k : Setting) (s : State) where
  abbrev FindsAt : ProducerPc → Type 0
  FindsAt p =
      Finds p s.fifo s.reader_came s.writer_open s.file_descriptor (has_read s.consumer) s.pipe

  FindsAt-check :
      (there : Bool)
      → s.fifo ≡ there
      → FindsAt (if there then ProducerPc.opening else ProducerPc.making)
  FindsAt-check true e = e
  FindsAt-check false e = tt

  producer_opened-check :
      (there : Bool)
      → false ≡ producer_opened (if there then ProducerPc.opening else ProducerPc.making)
  producer_opened-check true = refl
  producer_opened-check false = refl

  sent_there :
      s.file_descriptor ≡ true
      → 0 < length (if s.file_descriptor then s.pipe ++ sent (message k s.timestamp) else s.pipe)
  sent_there e = rw e (
      omega (
        arith,
        length-append s.pipe (sent (message k s.timestamp)),
        length-append (message k s.timestamp) (0 ∷ []),
      ))

  pub producer_step-Meeting :
      (p : ProducerPc)
      → FindsAt p
      → Meets s.consumer s.fifo s.writer_came s.printed
      → s.reader_came ≡ consumer_opened s.consumer
      → s.writer_came ≡ producer_opened p
      → Kept Meeting (producer_step k true s p)
  unfolding producer_step
  producer_step-Meeting ProducerPc.checking f m r w =
      (FindsAt-check s.fifo refl, m, r, w ∙ producer_opened-check s.fifo)
  producer_step-Meeting ProducerPc.making f m r w = (
    or_true s.fifo,
    Meets-fifo s.consumer s.fifo (s.fifo || true) s.writer_came s.writer_came s.printed
        (λ _ _. or_true s.fifo) (λ e. e) m,
    r,
    w,
  )
  producer_step-Meeting ProducerPc.opening f m r w =
      when_true Meeting (s.fifo && true)
        (record s { writer_came = true; writer_open = true; producer = ProducerPc.connecting })
        (record s { producer = ProducerPc.timing }) (and_true s.fifo f)
        (
          refl,
          Meets-fifo s.consumer s.fifo s.fifo s.writer_came true s.printed (λ _ e. e) (λ _. refl) m,
          r,
          refl,
        )
  producer_step-Meeting ProducerPc.connecting f m r w =
      Kept-test Meeting s.reader_came
        (some (record s { file_descriptor = true; producer = ProducerPc.timing }))
        (λ e. ((e, f, refl), m, r, w))
  producer_step-Meeting ProducerPc.timing f m r w = (f, m, r, w)
  producer_step-Meeting ProducerPc.writing (came, ready, descriptor) m r w =
      ((came, λ _. sent_there descriptor), m, r, w)
  producer_step-Meeting ProducerPc.closing f m r w = (f, m, r, w)
  producer_step-Meeting (ProducerPc.sleeping wake) f m r w =
      Kept-test Meeting (leb wake s.clock) (some (record s { producer = ProducerPc.unlinking }))
        (λ _. (f, m, r, w))
  producer_step-Meeting ProducerPc.unlinking f m r w = (
    f,
    Meets-fifo s.consumer s.fifo false s.writer_came s.writer_came s.printed
        (λ c _. absurd (ground (arith, f.0, r, c))) (λ e. e) m,
    r,
    w,
  )
  producer_step-Meeting ProducerPc.exited f m r w = tt
