-- ===== src/Semaphore/Message/Whole.antt =====
-- lab9: a message goes through the buffers and the shared memory with nothing cut off.
use operation_systems_mirea.Base.{
  ℕ, zero, suc, ◌+◌, ◌-◌, ◌^◌, ◌≤◌, ◌<◌, ◌≡◌, refl, ap, ◌∙◌, ◌≢◌, [], ◌∷◌, ◌++◌, take, length,
  length-append, length-replicate, replicate, arith, Bool-cases, inl, inr, ◌==◌,
}
use operation_systems_mirea.Base.Text.{Bytes, codes}
use operation_systems_mirea.Base.CString.{c_string, NoNul, NoNul-append, NoNul-decimal, NoNul-parts}
use operation_systems_mirea.Base.Decimal.{decimal, length-decimal}
use operation_systems_mirea.Semaphore.Message.{
  Time, buffer_capacity, max_message_length, two_digits, time_string, message_text, prepare_message,
  strncpy, shared_memory, received_data, receiver_line, print_received,
}

take_all : (n : ℕ) (s : Bytes) → length s ≤ n → take n s ≡ s
take_all zero [] h = refl
take_all (suc n) [] h = refl
take_all zero (c ∷ s) h = absurd (omega arith)
take_all (suc n) (c ∷ s) h = ap (λ t. c ∷ t) (take_all n s (omega arith))

length-strncpy : (n : ℕ) (s : Bytes) → length (strncpy n s) ≡ n
unfolding strncpy
length-strncpy zero s = refl
length-strncpy (suc n) [] = ap suc (length-strncpy n [])
length-strncpy (suc n) (c ∷ s) = elim (Bool-cases (c == 0)) [
  | inl e ↦ rw (e, strncpy) (ap suc (length-strncpy n []))
  | inr e ↦ rw (e, strncpy) (ap suc (length-strncpy n s))
]

-- A text that two copies have room for comes out of the second.
c_string-strncpy :
    (k n : ℕ) (m : Bytes)
    → NoNul m
    → length m ≤ k
    → k ≤ n
    → c_string (strncpy k (strncpy n m ++ 0 ∷ []) ++ 0 ∷ []) ≡ m
unfolding strncpy
c_string-strncpy zero n [] h l b = refl
c_string-strncpy zero n (c ∷ m) h l b = absurd (omega arith)
c_string-strncpy (suc k) zero m h l b = absurd (omega arith)
c_string-strncpy (suc k) (suc n) [] h l b = refl
c_string-strncpy (suc k) (suc n) (c ∷ m) h l b = elim (Bool-cases (c == 0)) [
  | inl e ↦ absurd (ground (arith, h.0))
  | inr e ↦
      rw (e, strncpy)
        (rw (e) (rw (e) (ap (λ t. c ∷ t) (c_string-strncpy k n m h.1 (omega arith) (omega arith)))))
]

length-two_digits : (n : ℕ) → n < 100 → length (two_digits n) ≤ 2
unfolding two_digits
length-two_digits n h = omega (
  arith,
  length-append (replicate (2 - length (decimal n)) b'0') (decimal n),
  length-replicate {A = ℕ} (2 - length (decimal n)) b'0',
  length-decimal 1 n h,
)

-- A time of the day, a leap second included.
abbrev pub IsTime : Time → Type 0
IsTime t = (t.hour < 24) × (t.minute < 60) × (t.second < 61)

-- A number that is not negative and fits an `int`.
abbrev pub IsInt : ℕ → Type 0
IsInt n = n < 2 ^ 31

length_parts :
    (a b c d e : Bytes)
    → length (a ++ b ++ c ++ d ++ e) ≡ length a + length b + length c + length d + length e
length_parts a b c d e = omega (
  arith,
  length-append (a ++ b ++ c ++ d) e,
  length-append (a ++ b ++ c) d,
  length-append (a ++ b) c,
  length-append a b,
)

length-time_string : (t : Time) → IsTime t → length (time_string t) ≤ 8
unfolding time_string
length-time_string t (h, m, s) = omega (
  arith,
  length_parts (two_digits t.hour) (codes ":") (two_digits t.minute) (codes ":")
      (two_digits t.second),
  length-two_digits t.hour (omega arith),
  length-two_digits t.minute (omega arith),
  length-two_digits t.second (omega arith),
)

length-message_text :
    (msg_num : ℕ) (t : Time) (pid : ℕ)
    → IsInt msg_num
    → IsTime t
    → IsInt pid
    → length (message_text msg_num t pid) < max_message_length
unfolding message_text
length-message_text msg_num t pid n h p = omega (
  arith,
  length-append
      (codes "[Message #"
        ++ decimal msg_num
        ++ codes "] Time: "
        ++ time_string t
        ++ codes ", PID: ")
      (decimal pid),
  length_parts (codes "[Message #") (decimal msg_num) (codes "] Time: ") (time_string t)
      (codes ", PID: "),
  length-time_string t h,
  length-decimal 9 msg_num (omega arith),
  length-decimal 9 pid (omega arith),
)

NoNul-replicate : (n c : ℕ) → c ≢ 0 → NoNul (replicate n c)
NoNul-replicate zero c h = tt
NoNul-replicate (suc n) c h = (h, NoNul-replicate n c h)

NoNul-two_digits : (n : ℕ) → NoNul (two_digits n)
unfolding two_digits
NoNul-two_digits n =
    NoNul-append (replicate (2 - length (decimal n)) b'0') (decimal n)
      (NoNul-replicate (2 - length (decimal n)) b'0' (omega arith)) (NoNul-decimal n)

NoNul-time_string : (t : Time) → NoNul (time_string t)
unfolding time_string
NoNul-time_string t =
    NoNul-parts [] (two_digits t.hour) (codes ":") (two_digits t.minute) (codes ":")
      (two_digits t.second) tt (NoNul-two_digits t.hour) (ground arith) (NoNul-two_digits t.minute)
      (ground arith) (NoNul-two_digits t.second)

NoNul-message_text : (msg_num : ℕ) (t : Time) (pid : ℕ) → NoNul (message_text msg_num t pid)
unfolding message_text
NoNul-message_text msg_num t pid =
    NoNul-parts (codes "[Message #") (decimal msg_num) (codes "] Time: ") (time_string t)
      (codes ", PID: ") (decimal pid) (ground arith) (NoNul-decimal msg_num) (ground arith)
      (NoNul-time_string t) (ground arith) (NoNul-decimal pid)

length-shared_memory : (m : Bytes) → length (shared_memory m) ≡ buffer_capacity
unfolding shared_memory
length-shared_memory m =
    length-append (strncpy 1023 m) (0 ∷ []) ∙ ap (λ n. n + 1) (length-strncpy 1023 m)

-- For a number and a process number that are `int`s and a time of the day, `snprintf` cuts nothing off
-- the message, the sender writes all bytes of the shared memory and none past its end, and what the
-- receiver then prints holds the whole message.
pub print_received-prepare_message :
    (msg_num : ℕ) (t : Time) (pid : ℕ) (local : Time) (receiver_pid : ℕ)
    → IsInt msg_num
    → IsTime t
    → IsInt pid
    → (length (shared_memory (prepare_message msg_num t pid)) ≡ buffer_capacity)
      × (print_received local receiver_pid (shared_memory (prepare_message msg_num t pid))
          ≡ receiver_line local receiver_pid (message_text msg_num t pid))
unfolding prepare_message shared_memory print_received received_data
print_received-prepare_message msg_num t pid local receiver_pid n h p =
    let l : length (message_text msg_num t pid) < 100 = length-message_text msg_num t pid n h p in
    let whole : prepare_message msg_num t pid ≡ message_text msg_num t pid =
      take_all 99 (message_text msg_num t pid) (omega arith) in
    (
      length-shared_memory (prepare_message msg_num t pid),
      ap (λ m. print_received local receiver_pid (shared_memory m)) whole
          ∙ ap (receiver_line local receiver_pid) (
              c_string-strncpy 99 1023 (message_text msg_num t pid)
                (NoNul-message_text msg_num t pid) (omega arith) (omega arith)),
    )
