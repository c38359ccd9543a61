-- ===== src/SharedMemory.antt =====
-- lab7/sender.c: a program that keeps a key file and a segment of shared memory while it runs.
-- lab7/receiver.c is the same text, so that all of this is said of both programs. A signal comes in
-- `create_shared_memory` between two of its calls, or in the loop before or after the data of a round
-- are written.
pub mod Segments
pub mod Release
mod Tests
use operation_systems_mirea.Base.{
  ℕ, zero, suc, ◌+◌, Bool, true, false, not, ◌||◌, List, [], ◌∷◌, Option, none, some, ◌==◌,
  if◌then◌else◌,
}
use operation_systems_mirea.Base.Text.{Bytes, utf8}

abbrev pub max_operations : ℕ
max_operations = 50

pub record SharedData : Type 0 where
  pub timestamp : Bytes
  pub process_id : ℕ
  pub operation_count : ℕ

-- The system: which file stands at SHM_KEY_FILE, the number that the next new file gets, and the
-- segments by their keys.
pub record World : Type 0 where
  pub key_file : Option ℕ
  pub next_file : ℕ
  pub segments : List (ℕ × SharedData)

-- Where a signal comes in a round of the loop.
pub data Arrival : Type 0 where
  no_signal before_writing after_writing : Arrival

-- A point of `create_shared_memory`: `before_store` is after `shmget` made the segment and before its
-- number is in `shared_memory_id`, `stored` after that, `attached` after `shmat`, and `on_error`
-- after a call that failed.
pub data Point : Type 0 where
  at_start with_file before_store stored attached on_error : Point

-- What the system answers to one run: `early` says at which points of `create_shared_memory` a signal
-- comes, `key_of` is `ftok` of a file, `clock` the text of the time in a round.
pub record Kernel : Type 0 where
  pub pid : ℕ
  pub early : Point → Bool
  pub can_create : Bool
  pub has_key : Bool
  pub key_of : ℕ → ℕ
  pub can_get : Bool
  pub can_attach : Bool
  pub clock : ℕ → Bytes
  pub signal : ℕ → Arrival

abbrev pub has_segment : ℕ → List (ℕ × SharedData) → Bool
has_segment key [] = false
has_segment key ((j, x) ∷ xs) = j == key || has_segment key xs

-- `shmctl` with IPC_RMID
abbrev pub remove_segment : ℕ → List (ℕ × SharedData) → List (ℕ × SharedData)
remove_segment key [] = []
remove_segment key ((j, x) ∷ xs) =
    let rest = remove_segment key xs in if j == key then rest else (j, x) ∷ rest

-- What the program writes in a round.
abbrev pub written : Kernel → ℕ → SharedData → SharedData
written k i x = record x {
  timestamp = k.clock i;
  process_id = k.pid;
  operation_count = x.operation_count + 1;
}

abbrev pub write_segment : Kernel → ℕ → ℕ → List (ℕ × SharedData) → List (ℕ × SharedData)
write_segment k i key [] = []
write_segment k i key ((j, x) ∷ xs) =
    let rest = write_segment k i key xs in
    if j == key then (j, written k i x) ∷ rest else (j, x) ∷ rest

abbrev pub or_new : Option ℕ → ℕ → ℕ
or_new none next = next
or_new (some file) next = file

abbrev pub after_new : Option ℕ → ℕ → ℕ
after_new none next = next + 1
after_new (some file) next = next

-- `fopen(SHM_KEY_FILE, "w")`: a file that is there stays the same file.
abbrev pub create_file : World → World
create_file w = record w {
  key_file = some (or_new w.key_file w.next_file);
  next_file = after_new w.key_file w.next_file;
}

-- `remove(SHM_KEY_FILE)`
abbrev pub remove_file : World → World
remove_file w = record w { key_file = none }

abbrev pub first_data : Kernel → SharedData
first_data k = record { timestamp = utf8 "Инициализация"; process_id = k.pid; operation_count = 0 }

-- `release_resources`, with the key of the segment if `shared_memory_id` is set.
abbrev pub release_resources : Option ℕ → World → World
release_resources none w = remove_file w
release_resources (some key) w = remove_file (record w { segments = remove_segment key w.segments })

-- How `create_shared_memory` ends: 0 with the key of the segment, -1, or by a signal, whose handler
-- ends the program.
pub data Creation : Type 0 where
  made : World → ℕ → Creation
  refused : World → Creation
  stopped : World → Creation

-- A signal at this point, or the rest of the function. The handler knows the segment if its number is
-- stored.
abbrev pub unless_signal : Kernel → Point → Option ℕ → World → Creation → Creation
unless_signal k p id w rest = if k.early p then stopped (release_resources id w) else rest

abbrev pub refuse : Kernel → World → Creation
refuse k w = unless_signal k on_error none w (refused w)

-- The segment as `shmget` makes it.
abbrev pub blank_data : SharedData
blank_data = record { timestamp = []; process_id = 0; operation_count = 0 }

abbrev pub add_segment : ℕ → SharedData → World → World
add_segment key x w = record w { segments = (key, x) ∷ w.segments }

-- From the return of `shmget` on: `w` is the world before the segment.
abbrev pub attach_segment : Kernel → ℕ → World → Creation
attach_segment k key w = unless_signal k before_store none (add_segment key blank_data w) (
    unless_signal k stored (some key) (add_segment key blank_data w) (
      if not k.can_attach
      then refuse k (release_resources (some key) (add_segment key blank_data w))
      else unless_signal k attached (some key) (add_segment key (first_data k) w)
          (made (add_segment key (first_data k) w) key)))

unfoldable pub create_shared_memory : Kernel → World → Creation
create_shared_memory k w =
    let w1 = create_file w in
    let key = k.key_of (or_new w.key_file w.next_file) in
    unless_signal k at_start none w (
      if not k.can_create
      then refuse k w
      else unless_signal k with_file none w1 (
          if not k.has_key
          then refuse k (remove_file w1)
          else if has_segment key w.segments || not k.can_get
          then refuse k (remove_file w1)
          else attach_segment k key w1))

-- How a run ends, and what it has printed: the time and the process of each operation.
pub data Ending : Type 0 where
  failure : Ending
  interrupted : Ending
  success : Ending

pub record Result : Type 0 where
  pub world : World
  pub ending : Ending
  pub printed : List (Bytes × ℕ)

abbrev pub print_first : Bytes × ℕ → Result → Result
print_first line r = record r { printed = line ∷ r.printed }

abbrev pub interrupt : ℕ → World → Result
interrupt key w = record {
  world = release_resources (some key) w;
  ending = interrupted;
  printed = [];
}

abbrev pub write_round : Kernel → ℕ → ℕ → World → World
write_round k i key w = record w { segments = write_segment k i key w.segments }

-- What stands in the segment of a key, which the program reads through its pointer.
abbrev pub read_segment : ℕ → List (ℕ × SharedData) → SharedData
read_segment key [] = blank_data
read_segment key ((j, x) ∷ xs) = let rest = read_segment key xs in if j == key then x else rest

-- The line of a round: the time and the process that stand in the segment.
abbrev pub data_line : ℕ → World → Bytes × ℕ
data_line key w = let x = read_segment key w.segments in (x.timestamp, x.process_id)

-- A round of the loop, by where a signal comes; `rest` is the run from the next round on.
abbrev pub round : Kernel → ℕ → ℕ → World → (World → Result) → Arrival → Result
round k i key w rest before_writing = interrupt key w
round k i key w rest after_writing =
    let w' = write_round k i key w in print_first (data_line key w') (interrupt key w')
round k i key w rest no_signal =
    let w' = write_round k i key w in print_first (data_line key w') (rest w')

-- The loop, with the rounds that are left and `operations_performed`.
unfoldable pub send_loop : Kernel → ℕ → ℕ → ℕ → World → Result
send_loop k zero i key w = record {
  world = release_resources (some key) w;
  ending = success;
  printed = [];
}
send_loop k (suc left) i key w =
    round k i key w (λ w'. send_loop k left (i + 1) key w') (k.signal i)

-- After `create_shared_memory`.
abbrev pub send_with : Kernel → Creation → Result
unfolding send_loop
send_with k (stopped w) = record { world = w; ending = interrupted; printed = [] }
send_with k (refused w) = record { world = w; ending = failure; printed = [] }
send_with k (made w key) = send_loop k max_operations 0 key w

unfoldable pub main : Kernel → World → Result
unfolding create_shared_memory send_loop
main k w = send_with k (create_shared_memory k w)

-- `main` of receiver.c, whose text is that of sender.c.
abbrev pub receiver_main : Kernel → World → Result
receiver_main = main
