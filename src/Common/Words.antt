-- ===== src/Common/Words.antt =====
-- Go's fixed-width integers as bit patterns: a value of type `int64` or `int` is a number below
-- 2 ^ 64, a value of type `int32` one below 2 ^ 32; negative values are the upper half.
use Prim.Native.Nat.{ℕ, zero, suc, ◌+◌, ◌-◌, ◌*◌, ◌/◌, ◌%◌, ◌^◌}
use Prim.Native.String.{String, ◌++◌, slice}
use mathlib.Core.Bool.{Bool}
use mathlib.Core.Option.{Option, none, some}
use mathlib.Core.Path.{◌≡◌, refl}
use quidditch.Common.Tests.{ltb, leb, if◌then◌else◌}

abbrev pub wrap64 : ℕ → ℕ
wrap64 n = n % 2 ^ 64

abbrev pub add64 : ℕ → ℕ → ℕ
add64 a b = (a + b) % 2 ^ 64

abbrev pub sub64 : ℕ → ℕ → ℕ
sub64 a b = (a + 2 ^ 64 - b) % 2 ^ 64

-- `a < b` on `int64`: adding 2 ^ 63 turns the signed order into the order of the patterns.
abbrev pub lt64 : ℕ → ℕ → Bool
lt64 a b = ltb ((a + 2 ^ 63) % 2 ^ 64) ((b + 2 ^ 63) % 2 ^ 64)

-- `a * b` and `a / b` on int64; `none` is the panic of a division by 0.
abbrev pub mul64 : ℕ → ℕ → ℕ
mul64 a b = wrap64 (a * b)

abbrev magnitude : ℕ → ℕ
magnitude a = if ltb a (2 ^ 63) then a else 2 ^ 64 - a

abbrev same_sign : ℕ → ℕ → Bool
same_sign a b = if ltb a (2 ^ 63) then ltb b (2 ^ 63) else leb (2 ^ 63) b

abbrev pub quot64 : ℕ → ℕ → Option ℕ
quot64 a zero = none
quot64 a (suc b) =
    let q = magnitude a / magnitude (suc b) in
    some (if same_sign a (suc b) then wrap64 q else wrap64 (2 ^ 64 - q))

digit : ℕ → String
digit d = slice "0123456789" d (d + 1)

-- The decimal digits of a number; ten rounds are enough for 2 ^ 32.
decimal : ℕ → ℕ → String
unfolding digit
decimal zero n = ""
decimal (suc f) n =
    let more = decimal f (n / 10) in if ltb n 10 then digit n else more ++ digit (n % 10)

-- `%d` of an `int32`.
unfoldable pub format_int32 : ℕ → String
unfolding decimal
format_int32 n = if ltb n (2 ^ 31) then decimal 10 n else "-" ++ decimal 10 (2 ^ 32 - n)

-- `%d` of an `int64`.
unfoldable pub format_int64 : ℕ → String
unfolding decimal
format_int64 n = if ltb n (2 ^ 63) then decimal 20 n else "-" ++ decimal 20 (2 ^ 64 - n)

format_int32_runs : (format_int32 1234567890 ≡ "1234567890") × (format_int32 (2 ^ 32 - 45) ≡ "-45")
unfolding format_int32
format_int32_runs = (refl, refl)
