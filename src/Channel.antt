-- ===== src/Channel.antt =====
-- lab6: the text that goes through a pipe, by messages.h, and its two ways: Channel.Pipe is
-- pipe_program.c, Channel.Fifo is producer.c and consumer.c.
pub mod Text
pub mod Pipe
pub mod Fifo
mod Tests
use operation_systems_mirea.Base.CString.{c_string}
use operation_systems_mirea.Base.{ℕ, ◌+◌, ◌-◌, [], ◌∷◌, ◌++◌, take}
use operation_systems_mirea.Base.Text.{Bytes, codes, utf8}
use operation_systems_mirea.Base.Decimal.{decimal}

abbrev pub buffer_size : ℕ
buffer_size = 256

-- `format_message`: `snprintf` stores one byte less than the buffer has, and a NUL.
unfoldable pub format_message : Bytes → ℕ → Bytes → Bytes
unfolding decimal
format_message source pid time_str = take (buffer_size - 1) (
    c_string source
    ++ codes " (PID: "
    ++ decimal pid
    ++ codes ")\n"
    ++ utf8 "Время отправки: "
    ++ c_string time_str)

-- What `write` sends: the bytes of a C string and its NUL.
abbrev pub sent : Bytes → Bytes
sent message = message ++ 0 ∷ []

-- What `read` takes out of a pipe.
abbrev pub received : Bytes → Bytes
received pipe = take buffer_size pipe
