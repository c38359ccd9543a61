-- ===== src/Semaphore/Blocking.antt =====
-- lab9/receiver.c: what a signal does to a receiver that holds the semaphore.
use operation_systems_mirea.Base.{ℕ, ◌≡◌, ◌⊎◌, inl, inr, Bool, true, some, arith, refl}
use operation_systems_mirea.Base.Schedule.{Kept, Kept-some, Kept-map}
use operation_systems_mirea.Semaphore.{
  State, SenderPc, ReceiverPc, Event, sender_turn, receiver_turn, sender_signal, receiver_signal,
  start, receiver_step, signal_receiver, step, Reach, begin, later,
}
use operation_systems_mirea.Semaphore.Invariant.{Reach-Inv, sender_holds, receiver_holds, sends}

-- Nobody is left who could raise the semaphore; or the sender was ended.
abbrev Stuck : ℕ → State → Type 0
Stuck count s =
    (s.sender ≡ SenderPc.exited 0)
    ⊎ ((s.sender ≡ SenderPc.locking)
        × (s.sem ≡ some 0)
        × (s.receiver ≡ ReceiverPc.exited 0)
        × (s.message_count ≡ count))

-- The sender was ended, or waits at its semaphore and has sent no more messages.
abbrev pub Waits : ℕ → State → Type 0
Waits count s =
    (s.sender ≡ SenderPc.exited 0) ⊎ ((s.sender ≡ SenderPc.locking) × (s.message_count ≡ count))

receiver_step_exited :
    (works : Bool) (s : State) (p : ReceiverPc)
    → s.sender ≡ SenderPc.exited 0
    → Kept (λ t. t.sender ≡ SenderPc.exited 0) (receiver_step works s p)
unfolding receiver_step
receiver_step_exited works s _ h = ground arith

signal-Stuck :
    (count : ℕ) (s : State) (p : ReceiverPc)
    → Stuck count s
    → Kept (Stuck count) (signal_receiver s p)
signal-Stuck count s (ReceiverPc.exited status) h = tt
signal-Stuck count s _ h = ground arith

killed-Stuck :
    (s : State) (p : ReceiverPc)
    → receiver_holds p ≡ 1
    → s.sem ≡ some 0
    → s.sender ≡ SenderPc.locking
    → Kept (Stuck s.message_count) (signal_receiver s p)
killed-Stuck s (ReceiverPc.exited status) inside z l = absurd (ground arith)
killed-Stuck s _ inside z l = ground arith

forget : (count : ℕ) (s : State) → Stuck count s → Waits count s
forget count s h = ground arith

step-Stuck : (count : ℕ) (e : Event) (s : State) → Stuck count s → Kept (Stuck count) (step e s)
unfolding step
step-Stuck count (sender_turn works) s (inl e) = rw (e, step) tt
step-Stuck count (sender_turn works) s (inr (l, z, r, c)) = rw (l, z, step) tt
step-Stuck count (receiver_turn works) s (inl e) =
    Kept-map (λ t h. inl h) (receiver_step works s s.receiver)
      (receiver_step_exited works s s.receiver e)
step-Stuck count (receiver_turn works) s (inr (l, z, r, c)) = rw (r, step) tt
step-Stuck count sender_signal s (inl e) = rw (e, step) tt
step-Stuck count sender_signal s (inr (l, z, r, c)) = rw (l, step) (inl refl)
step-Stuck count receiver_signal s h = signal-Stuck count s s.receiver h

Reach-Stuck : {count : ℕ} {s t : State} → Stuck count s → Reach s t → Stuck count t
Reach-Stuck h begin = h
Reach-Stuck {count} h (later e r p) =
    Kept-some (Stuck count) p (step-Stuck count e _ (Reach-Stuck h r))

-- In its loop and outside its two calls of `semop` the sender is about to make the first.
waiting_outside : (p : SenderPc) → sends p ≡ true → sender_holds p ≡ 0 → p ≡ SenderPc.locking
waiting_outside SenderPc.locking h k = refl
waiting_outside _ h k = absurd (ground arith)

-- When a signal ends the receiver between its two calls of `semop` and the sender is in its loop, the
-- sender sends no further message: from then on, under every schedule, it waits for the semaphore
-- until a signal ends it too.
pub killed_receiver_blocks :
    {s t u : State}
    → Reach start s
    → receiver_holds s.receiver ≡ 1
    → sends s.sender ≡ true
    → step receiver_signal s ≡ some t
    → Reach t u
    → Waits s.message_count u
unfolding step
killed_receiver_blocks {s} {t} {u} r inside loop signalled later_on = forget s.message_count u (
    Reach-Stuck
      (Kept-some (Stuck s.message_count) signalled (
        killed-Stuck s s.receiver inside (ground (arith, Reach-Inv r))
          (waiting_outside s.sender loop (ground (arith, Reach-Inv r)))))
      later_on)
