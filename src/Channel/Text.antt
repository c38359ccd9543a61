-- ===== src/Channel/Text.antt =====
-- lab6/messages.h: a message comes out of the buffer of the reader as it was written.
use operation_systems_mirea.Base.CString.{
  c_string, NoNul, NoNul-take, NoNul-c_string, NoNul-decimal, c_string-take, NoNul-parts,
}
use operation_systems_mirea.Base.{ℕ, ◌<◌, ◌≡◌, ◌++◌, length, length-take, arith}
use operation_systems_mirea.Base.Text.{Bytes, codes, utf8}
use operation_systems_mirea.Base.Decimal.{decimal}
use operation_systems_mirea.Channel.{buffer_size, format_message, sent, received}

NoNul-format_message :
    (source : Bytes) (pid : ℕ) (time_str : Bytes) → NoNul (format_message source pid time_str)
unfolding format_message
NoNul-format_message source pid time_str =
    NoNul-take 255
      (c_string source
        ++ codes " (PID: "
        ++ decimal pid
        ++ codes ")\n"
        ++ utf8 "Время отправки: "
        ++ c_string time_str)
      (NoNul-parts (c_string source) (codes " (PID: ") (decimal pid) (codes ")\n")
        (utf8 "Время отправки: ") (c_string time_str) (NoNul-c_string source) (ground arith)
        (NoNul-decimal pid) (ground arith) (ground arith) (NoNul-c_string time_str))

-- The message fits into the buffers of the two sides, cut if need be.
pub length-format_message :
    (source : Bytes) (pid : ℕ) (time_str : Bytes)
    → length (format_message source pid time_str) < buffer_size
unfolding format_message
length-format_message source pid time_str = ground (
  arith,
  length-take 255 (
      c_string source
      ++ codes " (PID: "
      ++ decimal pid
      ++ codes ")\n"
      ++ utf8 "Время отправки: "
      ++ c_string time_str),
)

-- What is read out of a pipe that holds a sent message prints as the message.
pub c_string-received :
    (source : Bytes) (pid : ℕ) (time_str : Bytes)
    → c_string (received (sent (format_message source pid time_str)))
      ≡ format_message source pid time_str
c_string-received source pid time_str =
    c_string-take buffer_size (format_message source pid time_str)
      (NoNul-format_message source pid time_str) (length-format_message source pid time_str)
