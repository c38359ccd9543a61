-- ===== src/Base/Int.antt =====
-- A 32-bit `int` that counts up, by its bits, and `%d` of it. What a machine does at the end of the range
-- is to go on with the least number.
use Prim.Native.Nat.{ℕ, ◌+◌, ◌-◌, ◌%◌, ◌^◌, ◌<◌}
use mathlib.Core.Path.{◌≡◌}
use native.Mathlib.Omega.{arith}
use mathlib.Core.List.{◌∷◌}
use operation_systems_mirea.Base.Tests.{ltb, if◌then◌else◌}
use operation_systems_mirea.Base.Text.{Bytes}
use operation_systems_mirea.Base.Decimal.{decimal}

-- `n++`
unfoldable pub next_int : ℕ → ℕ
next_int n = (n + 1) % 2 ^ 32

unfoldable pub int_text : ℕ → Bytes
int_text n = if ltb n (2 ^ 31) then decimal n else b'-' ∷ decimal (2 ^ 32 - n)

pub next_int_below : (n : ℕ) → n < 2 ^ 31 → next_int n ≡ n + 1
unfolding next_int
next_int_below n h = omega arith

pub int_text_below : (n : ℕ) → n < 2 ^ 31 → int_text n ≡ decimal n
unfolding int_text
int_text_below n h = ground arith
