-- ===== src/Lib.antt =====
-- Verification library of the operating-systems laboratory programs: C programs that stand each in
-- its own directory and share no code. A text or a file is a list of bytes (`Bytes`), a program is a
-- function from its arguments and the answers of the system to what it prints, its status and what
-- it changes. A concurrent program is a step function over the shared variables and the points of the
-- threads.
--
-- Base: numbers, lists, tests, bits, decimals, 32-bit counters (Base.Int), C strings, and step functions of concurrent programs
-- (Base.Schedule); what the other modules share.
--
-- Chmod (lab4/main.c): `main` chooses `process_octal_permissions` or `process_symbolic_permissions`.
--   Chmod.Octal has `strtol` in base 8 with its clamp to a 64-bit long, Chmod.Symbolic the parser and
--   the bit arithmetic on a 32-bit mode. Chmod.Spec writes down what a change means by users and
--   permissions, Chmod.Bits compares it with the masks, Chmod.Grammar and Chmod.Accepted compare it
--   with the parser in both directions, and Change, Numeral and Ending state what `main` does.
--   `stat` and `chmod` are the parameter `Kernel`.
-- Monitor (lab11/main.c): `reader_thread` and `writer_thread`, cut at the points where another thread
--   can run: every lock, unlock and wait, and every access outside the mutex. `step` lets one thread
--   go on, or ends a wait with no signal; `Reach n` is what `n` readers and the writer come to under
--   any schedule. Monitor.Invariant is the invariant, Safety and Progress what follows from it.
--   Monitor.Main is `main` with these threads: its calls and their failures, the creations, the joins,
--   `pthread_cancel` and the destruction, `Runs n late` the states of the whole program. Whether a woken
--   reader can end inside `pthread_cond_wait` is the parameter `late`. Whole compares its threads with
--   `Reach`; Closing, Descent, Ending and Shutdown follow the end of the program, Lengths counts the
--   readers. When a thread cannot be created, `main` destroys the mutex while others run; the model then
--   stops at the first call with it, as `undefined`.
-- Threads (lab8/main.c): in the same way `main` with the creation and the joins of its threads,
--   `writer_thread` and `reader_thread` under one mutex. Ending follows the joins to the end.
-- RwLock (lab10/main.c): `reader_thread` and `writer_thread` under a read-write lock; whether the lock
--   prefers writers is a parameter. The type of the shared text is that of Monitor in both.
--   RwLock.Main is `main` in the way of Monitor.Main; the parameter `System` says what POSIX leaves open
--   of the lock and of cancellation. Leak is about a reader that ends while it has the lock.
-- Semaphore (lab9/sender.c, lab9/receiver.c): the two processes, cut at their system calls. `step` lets
--   one go on, with the answer of its call, or gives it a signal; the text in the memory is of the type
--   of Monitor. Semaphore.Invariant is the invariant, Safety and Blocking what follows from it.
--   Semaphore.Message has the bytes of a message, and of the copies that go into the memory and out of it;
--   the present time, as `localtime` gives it, is a parameter.
-- Fork (lab3/main.c): parent and child, with the exit handler, the handlers of the signals, and what
--   stands in the buffers of standard output. Counts is the invariant, Prints and Ends what a line and
--   the end of a process do to it, Moves and Output the steps.
-- Exchange (lab9/main.c): `producer_function`, `consumer_function` and `start_application` in the way of
--   Threads, with the lines that they print in their order. Output is the invariant and the order,
--   Progress what keeps the threads going.
-- Channel (lab6): the message of messages.h and what becomes of it in a buffer. Channel.Pipe is
--   pipe_program.c, Channel.Fifo is producer.c and consumer.c: two processes each, cut at their system
--   calls, and a clock of seconds that goes on between any two steps. In both, Facts is what holds
--   between two steps, Producer, Parent and Child have steps, Lost is what the pipe has lost, and Safety
--   what is printed. Ending and
--   Delivery are about the end of the programs, with turns that come after any number of seconds
--   (`turn`); Meeting, Reader and Going are what holds between two of those.
-- SharedMemory (lab7/sender.c, and lab7/receiver.c, which is the same text): a run as a function of the
--   key file, the segments of the system (`World`), and the answers of the system and the signals
--   (`Kernel`). Release is what a run leaves and prints.
-- Archiver (lab5/archiver.c): Archiver.Files is the disk and the system calls on it, with the parameter
--   `Kernel` for permissions, errors and room on the disk. Entry is `struct archive_entry`; its bytes
--   are the parameter `Layout`, of which `IsLawful` says what C promises. Add, Show and Extract are the
--   three operations. Members is an archive as the list of its members, Shown and Addition state what
--   listing and adding do. Copying, Rounds, Removal and Scanning follow the loops of extraction from the
--   inside out, Extraction states what it does, and RoundTrip what adding and extracting do together.
-- Ls (lab2/demls.c): Ls.State is `ProgramState` with what is allocated, and `cleanupProgram`, Ls.Format
--   what `printEntry` prints, Ls.Collect the array of entries and the order, Ls itself the loop, the
--   options and `main`. A copy of an entry is known by its place in the array, and is freed once at most,
--   or the run is a `double_free`. State.Clearing is what the clean-up does to the state, Frees the loop
--   over the entries, Release what is given back, Listing what `main` prints. `lstat`, `readlink`,
--   `readdir`, names of users, times, allocations, `getopt` and `qsort` are parameters.
-- Lines, Cat, Grep (lab1/demcat.c, lab1/demgrep.c): Lines is the loop over `fgets` that both have; Cat
--   is options, numbering and end marks; Grep is the search. Opening a file is the parameter `Env`.
--
-- Bounds and fuel. The loop over `fgets` takes one round for each byte at most, since a round that
-- reads anything takes a byte. Listing and extracting take one round more than the archive has bytes,
-- since a round takes a header, which has a byte at least. The copy loop of adding takes one round more
-- than the file has bytes; its result `runs_on` is the case that this is not enough, which the theorem
-- on adding excludes. The loop that copies out of an archive takes the size in the header as its number
-- of rounds. The buffers of 4096 bytes are those of the sources.
--
-- Not modelled: how long the threads of lab8 to lab11 sleep, as any of them can go on next; in lab2 the
-- texts of `errno`; signals in the middle of a library call; the wording of messages.
pub mod Base
pub mod Chmod
pub mod Monitor
pub mod Threads
pub mod Channel
pub mod Exchange
pub mod Fork
pub mod Semaphore
pub mod SharedMemory
pub mod RwLock
pub mod Archiver
pub mod Ls
pub mod Lines
pub mod Cat
pub mod Grep
