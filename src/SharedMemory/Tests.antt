-- ===== src/SharedMemory/Tests.antt =====
-- lab7/sender.c and lab7/receiver.c: the theorems at runs of a small system.
use operation_systems_mirea.Base.{ℕ, zero, suc, ◌+◌, ◌≡◌, refl, Bool, true, false, [], ◌∷◌, none}
use operation_systems_mirea.Base.Text.{codes}
use operation_systems_mirea.SharedMemory.{
  Point, before_store, blank_data, create_shared_memory, World, Kernel, Arrival, no_signal,
  after_writing, success, interrupted, main, first_data, max_operations,
}
use operation_systems_mirea.SharedMemory.Release.{main-lines, lines}

-- The system answers well; the key of file `n` is `n + 100`, and no signal comes.
abbrev quiet : Kernel
quiet = record {
  pid = 42;
  early = λ p. false;
  can_create = true;
  has_key = true;
  key_of = λ file. file + 100;
  can_get = true;
  can_attach = true;
  clock = λ i. codes "12:00";
  signal = λ i. no_signal;
}

abbrev in_round_two : ℕ → Arrival
in_round_two (suc (suc zero)) = after_writing
in_round_two _ = no_signal

-- A signal comes in the third round.
abbrev stopped : Kernel
stopped = record quiet { signal = in_round_two }

-- Nothing is there but a segment of another program.
abbrev empty : World
empty = record { key_file = none; next_file = 7; segments = (5, first_data quiet) ∷ [] }

main-stopped : main stopped empty ≡ record {
  world = record { key_file = none; next_file = 8; segments = (5, first_data quiet) ∷ [] };
  ending = interrupted;
  printed = (codes "12:00", 42) ∷ (codes "12:00", 42) ∷ (codes "12:00", 42) ∷ [];
}
unfolding main
main-stopped = refl

abbrev between : Point → Bool
between before_store = true
between _ = false

-- A signal between the return of `shmget` and the store of its number leaves the new segment.
main_left_over : main (record quiet { early = between }) empty ≡ record {
  world = record {
    key_file = none;
    next_file = 8;
    segments = (107, blank_data) ∷ (5, first_data quiet) ∷ [];
  };
  ending = interrupted;
  printed = [];
}
unfolding main create_shared_memory
main_left_over = refl

main-lines_example :
    ((main quiet empty).ending ≡ success)
    × ((main quiet empty).printed ≡ lines quiet max_operations 0)
main-lines_example = main-lines quiet empty (λ p. refl) refl refl refl refl refl (λ j. refl)
