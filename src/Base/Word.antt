-- ===== src/Base/Word.antt =====
-- `int64` and `uint64` values as bit patterns below 2 ^ 64.
use Prim.Native.Nat.{ℕ, ◌+◌, ◌*◌, ◌%◌, ◌^◌}
use mathlib.Core.Bool.{Bool, ◌&&◌}
use dns_go.Base.Test.{ltb}

abbrev pub word : ℕ
word = 2 ^ 64

-- The sign bit.
abbrev pub half : ℕ
half = 2 ^ 63

-- Signed `a < b`.
abbrev pub slt : ℕ → ℕ → Bool
slt a b = ltb ((a + half) % word) ((b + half) % word)

-- Signed `x > 0`.
abbrev pub is_positive : ℕ → Bool
is_positive x = ltb 0 x && ltb x half

abbrev pub add64 : ℕ → ℕ → ℕ
add64 a b = (a + b) % word

abbrev pub mul64 : ℕ → ℕ → ℕ
mul64 a b = (a * b) % word
