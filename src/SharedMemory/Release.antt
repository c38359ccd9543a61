-- ===== src/SharedMemory/Release.antt =====
-- lab7/sender.c: what a run leaves behind, and what it does when nothing disturbs it.
use operation_systems_mirea.Base.{
  ℕ, zero, suc, ◌+◌, ◌≡◌, refl, ap, ◌⊎◌, true, false, List, [], ◌∷◌, none,
}
use operation_systems_mirea.Base.Text.{Bytes}
use operation_systems_mirea.SharedMemory.{
  SharedData, World, Kernel, no_signal, before_store, success, has_segment, written, or_new,
  max_operations, send_loop, create_shared_memory, send_with, main, create_file, first_data,
  Creation, add_segment, Point, at_start, with_file, stored, attached,
}
use operation_systems_mirea.SharedMemory.Segments.{write_segment_head, read_segment_head}

-- The segments as they were; no key file, or nothing changed.
abbrev Leaves : World → World → Type 0
Leaves w v = (v.segments ≡ w.segments) × ((v.key_file ≡ none) ⊎ (v ≡ w))

-- What goes on from here leaves nothing.
data Clean (k : Kernel) (w : World) : Creation → Type 0 where
  clean : {c : Creation} → Leaves w (send_with k c).world → Clean k w c

-- The lines of the rounds from `i` on: the time of each round and the number of the process.
abbrev pub lines : Kernel → ℕ → ℕ → List (Bytes × ℕ)
lines k zero i = []
lines k (suc n) i = (k.clock i, k.pid) ∷ lines k n (i + 1)

send_loop-lines :
    (k : Kernel) (left i key : ℕ) (w : World) (x : SharedData)
    → has_segment key w.segments ≡ false
    → ((j : ℕ) → k.signal j ≡ no_signal)
    → let r = send_loop k left i key (add_segment key x w) in
      (r.ending ≡ success) × (r.printed ≡ lines k left i)
unfolding send_loop
send_loop-lines k zero i key w x fresh quiet = (refl, refl)
send_loop-lines k (suc left) i key w x fresh quiet =
    rw
      (
        quiet i,
        write_segment_head key x w.segments fresh k i,
        read_segment_head key (written k i x) w.segments fresh,
      )
      (let (ends, prints) = send_loop-lines k left (i + 1) key w (written k i x) fresh quiet in
        (ends, ap (λ r. (k.clock i, k.pid) ∷ r) prints))

-- Where every call works, no segment has the key and no signal comes, a run ends by itself with
-- status 0, after `max_operations` operations; what it reads back from the segment and prints in each
-- is the time of that round and the number of the process.
pub main-lines :
    (k : Kernel) (w : World)
    → ((p : Point) → k.early p ≡ false)
    → k.can_create ≡ true
    → k.has_key ≡ true
    → has_segment (k.key_of (or_new w.key_file w.next_file)) w.segments ≡ false
    → k.can_get ≡ true
    → k.can_attach ≡ true
    → ((j : ℕ) → k.signal j ≡ no_signal)
    → ((main k w).ending ≡ success) × ((main k w).printed ≡ lines k max_operations 0)
unfolding main create_shared_memory
main-lines k w early creates keyed fresh gets attaches quiet =
    rw
      (
        early at_start,
        creates,
        early with_file,
        keyed,
        fresh,
        gets,
        early before_store,
        early stored,
        attaches,
        early attached,
      )
      (send_loop-lines k max_operations 0 (k.key_of (or_new w.key_file w.next_file)) (create_file w)
        (first_data k) fresh quiet)
