-- ===== src/Semaphore/Message.antt =====
-- lab9/sender.c and lab9/receiver.c: the bytes of a message, in the sender's buffer, in the shared memory
-- and in the receiver's buffer.
pub mod Whole
use operation_systems_mirea.Base.{
  ℕ, zero, suc, ◌-◌, [], ◌∷◌, ◌++◌, ◌==◌, take, length, replicate, if◌then◌else◌,
}
use operation_systems_mirea.Base.Text.{Bytes, codes}
use operation_systems_mirea.Base.CString.{c_string}
use operation_systems_mirea.Base.Decimal.{decimal}

abbrev pub buffer_capacity : ℕ
buffer_capacity = 1024

abbrev pub max_message_length : ℕ
max_message_length = 100

-- What `localtime` gives of the present time.
pub record Time : Type 0 where
  pub hour : ℕ
  pub minute : ℕ
  pub second : ℕ

-- `%02d`
abbrev pub two_digits : ℕ → Bytes
unfolding decimal
two_digits n = replicate (2 - length (decimal n)) b'0' ++ decimal n

abbrev pub time_string : Time → Bytes
unfolding decimal
time_string t =
    two_digits t.hour ++ codes ":" ++ two_digits t.minute ++ codes ":" ++ two_digits t.second

-- The text of `IPC_SENDER_MESSAGE_FORMAT`, with no bound.
unfoldable pub message_text : ℕ → Time → ℕ → Bytes
unfolding decimal
message_text msg_num t pid =
    codes "[Message #"
    ++ decimal msg_num
    ++ codes "] Time: "
    ++ time_string t
    ++ codes ", PID: "
    ++ decimal pid

-- `snprintf` stores one byte less than the buffer has, and a NUL.
abbrev pub prepare_message : ℕ → Time → ℕ → Bytes
unfolding message_text
prepare_message msg_num t pid = take (max_message_length - 1) (message_text msg_num t pid)

-- The `n` bytes that `strncpy` writes: the text up to its NUL, and NULs after it.
unfoldable pub strncpy : ℕ → Bytes → Bytes
strncpy zero src = []
strncpy (suc n) [] = 0 ∷ strncpy n []
strncpy (suc n) (c ∷ src) =
    let rest = strncpy n src in if c == 0 then 0 ∷ strncpy n [] else c ∷ rest

-- The shared memory after `sender_loop` has written a message, all of it.
abbrev pub shared_memory : Bytes → Bytes
unfolding strncpy
shared_memory message = strncpy (buffer_capacity - 1) message ++ 0 ∷ []

-- The receiver's buffer after it has copied from the memory.
abbrev pub received_data : Bytes → Bytes
unfolding strncpy
received_data memory = strncpy (max_message_length - 1) memory ++ 0 ∷ []

-- The line of `IPC_RECEIVER_FORMAT` for some data.
unfoldable pub receiver_line : Time → ℕ → Bytes → Bytes
unfolding decimal
receiver_line t pid text =
    codes "[Receiver] Local time: "
    ++ time_string t
    ++ codes ", PID: "
    ++ decimal pid
    ++ codes ", Data: "
    ++ text
    ++ 10 ∷ []

-- What the receiver prints of the memory.
abbrev pub print_received : Time → ℕ → Bytes → Bytes
unfolding strncpy receiver_line
print_received t pid memory = receiver_line t pid (c_string (received_data memory))
