-- ===== src/Semaphore/Safety.antt =====
-- lab9/sender.c and lab9/receiver.c: what no schedule, failing call or signal can break.
use operation_systems_mirea.Base.{◌≡◌, false, none, arith}
use operation_systems_mirea.Monitor.Invariant.{text_of}
use operation_systems_mirea.Semaphore.{State, SenderPc, start, Reach}
use operation_systems_mirea.Semaphore.Invariant.{
  Reach-Inv, sender_holds, receiver_holds, has_cleaned, is_partial,
}

module _ {s : State} (r : Reach start s) where
  -- As long as the sender has not been ended by a signal: while the receiver is between its two calls
  -- of `semop` the sender is not between its own, the memory holds the text of the last message,
  -- whole, and what the receiver prints is never half of a message.
  pub received_whole :
      has_cleaned s.sender ≡ false
      → receiver_holds s.receiver ≡ 1
      → (sender_holds s.sender ≡ 0)
        × (s.memory ≡ text_of s.message_count)
        × (is_partial s.received_data ≡ false)
  received_whole alive inside = ground (arith, Reach-Inv r)

-- Nothing is there, and the sender was ended by a signal.
abbrev Gone : State → Type 0
Gone s = (s.sender ≡ SenderPc.exited 0) × (s.key_file ≡ false) × (s.shm ≡ false) × (s.sem ≡ none)
