-- ===== src/Base/Decimal.antt =====
-- Decimal numbers: `%d` of package fmt, and `ParseUint` and `Atoi` of package strconv, base 10.
use Prim.Native.Nat.{ℕ, zero, suc, ◌+◌, ◌-◌, ◌*◌, ◌/◌, ◌%◌, ◌^◌, ◌<◌}
use mathlib.Core.Bool.{Bool, true, ◌&&◌}
use mathlib.Core.List.{[], ◌∷◌}
use mathlib.Core.Logic.{inl, inr}
use mathlib.Core.Path.{◌≡◌, refl}
use native.Mathlib.Omega.{arith}
use dns_go.Base.Test.{
  ltb, leb, nat_eq, if◌then◌else◌, ◌==◌, Result, ok, err, Result-cases, Bool-cases,
}
use dns_go.Base.Text.{Text, codes, text_eq}
use dns_go.Base.Word.{word, half}

-- The digits of a number, before those that are already written.
decimal_from : ℕ → ℕ → Text → Text
decimal_from zero n acc = acc
decimal_from (suc fuel) n acc =
    let rest = decimal_from fuel (n / 10) ((48 + n % 10) ∷ acc) in
    if ltb n 10 then (48 + n % 10) ∷ acc else rest

unfoldable pub decimal : ℕ → Text
unfolding decimal_from
decimal n = decimal_from (suc n) n []

abbrev pub is_digit : ℕ → Bool
is_digit c = leb b'0' c && leb c b'9'

unfoldable pub parse_digits : ℕ → Text → Result ℕ
parse_digits n [] = ok n
parse_digits n (c ∷ s) = if is_digit c then parse_digits (n * 10 + (c - 48)) s else err

-- A number of digits that is below a limit.
unfoldable pub parse_below : ℕ → Text → Result ℕ
parse_below limit [] = err
parse_below limit (c ∷ s) = elim (parse_digits 0 (c ∷ s)) [
  | err ↦ err
  | ok n ↦ if ltb n limit then ok n else err
]

-- `strconv.ParseUint(s, 10, bits)`.
abbrev pub parse_uint : ℕ → Text → Result ℕ
parse_uint bits s = parse_below (2 ^ bits) s

-- `strconv.Atoi`, as a bit pattern of 64 bits: a sign may stand before the digits.
unfoldable pub atoi : Text → Result ℕ
atoi [] = err
atoi (c ∷ s) =
    if c == b'-'
    then elim (parse_below (half + 1) s) [ err ↦ err | ok n ↦ ok ((word - n) % word) ]
    else if c == b'+'
    then parse_below half s
    else parse_below half (c ∷ s)

pub parse_below-lt : (limit : ℕ) (s : Text) (n : ℕ) → parse_below limit s ≡ ok n → n < limit
unfolding parse_below
parse_below-lt limit [] n h = absurd (ground arith)
parse_below-lt limit (c ∷ s) n h = elim (Result-cases (parse_digits 0 (c ∷ s))) [
  | inl bad ↦ absurd (ground (arith, bad, h))
  | inr (m, e) ↦ ground (arith, e, h)
]

parse_digits-decimal_from :
    (fuel n : ℕ) (acc : Text)
    → n < fuel
    → parse_digits 0 (decimal_from fuel n acc) ≡ parse_digits n acc
unfolding parse_digits decimal_from
parse_digits-decimal_from zero n acc h = elim h [ ]
parse_digits-decimal_from (suc fuel) n acc h =
    ground (arith, parse_digits-decimal_from fuel (n / 10) ((48 + n % 10) ∷ acc))

-- A printed number is not empty, and begins with a digit.
decimal_from-cons :
    (fuel n d : ℕ) (acc : Text)
    → is_digit d ≡ true
    → (c : ℕ) × (s : Text) × (decimal_from fuel n (d ∷ acc) ≡ c ∷ s) × (is_digit c ≡ true)
unfolding decimal_from
decimal_from-cons zero n d acc h = (d, acc, refl, h)
decimal_from-cons (suc fuel) n d acc h = elim (Bool-cases (ltb n 10)) [
  | inl small ↦ (48 + n % 10, d ∷ acc, ground arith, ground arith)
  | inr large ↦
      let (c, s, e, g) = decimal_from-cons fuel (n / 10) (48 + n % 10) (d ∷ acc) (ground arith) in
      (c, s, ground (arith, e), g)
]

decimal-cons : (n : ℕ) → (c : ℕ) × (s : Text) × (decimal n ≡ c ∷ s) × (is_digit c ≡ true)
unfolding decimal decimal_from
decimal-cons n = elim (Bool-cases (ltb n 10)) [
  | inl small ↦ (48 + n % 10, [], ground arith, ground arith)
  | inr large ↦
      let (c, s, e, g) = decimal_from-cons n (n / 10) (48 + n % 10) [] (ground arith) in
      (c, s, ground (arith, e), g)
]

parse_digits-decimal : (n : ℕ) → parse_digits 0 (decimal n) ≡ ok n
unfolding decimal parse_digits
parse_digits-decimal n = parse_digits-decimal_from (suc n) n [] (omega arith)

-- What is printed is read back.
pub parse_below-decimal : (limit n : ℕ) → n < limit → parse_below limit (decimal n) ≡ ok n
unfolding parse_below
parse_below-decimal limit n h =
    let (c, s, e, g) = decimal-cons n in ground (arith, e, parse_digits-decimal n)

decimal_checks :
    (decimal 0 ≡ codes "0")
    × (decimal 4096 ≡ codes "4096")
    × (parse_uint 16 (codes "65535") ≡ ok 65535)
    × (parse_uint 16 (codes "65536") ≡ err)
    × (parse_uint 16 (codes "+1") ≡ err)
    × (atoi (codes "+31") ≡ ok 31)
    × (atoi (codes "-1") ≡ ok (word - 1))
unfolding decimal parse_below parse_digits atoi
decimal_checks = (refl, refl, refl, refl, refl, refl, refl)
