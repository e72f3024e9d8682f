-- ===== src/Config/Duration.antt =====
-- src/config.rs: `parse_duration`. The result is in nanoseconds. A release build is modelled: the
-- product with 60 wraps round at 2^64. Whitespace is ASCII whitespace.
pub mod Units
use storage_harvester.Base.{
  ℕ, zero, suc, ◌+◌, ◌-◌, ◌*◌, ◌%◌, Bool, true, false, not, ◌&&◌, ◌||◌, ◌==◌, ltb, leb, Option,
  none, some, List, [], ◌∷◌, if◌then◌else◌,
}
use mathlib.Core.List.{reverse}
use storage_harvester.Base.Int.{u64_max, two64}
use storage_harvester.Base.Bytes.{Bytes, text, eqb}
use storage_harvester.Config.{second}
use storage_harvester.Config.Resolve.{is_nil}

pub data DurationError : Type 0 where
  empty_text bad_number bad_unit : DurationError

pub data Parsed : Type 0 where
  nanos : ℕ → Parsed
  failed : DurationError → Parsed

abbrev pub is_space : ℕ → Bool
is_space b = b == 32 || (leb 9 b && leb b 13)

abbrev pub is_digit : ℕ → Bool
is_digit b = leb 48 b && leb b 57

unfoldable pub trim_start : Bytes → Bytes
trim_start [] = []
trim_start (b ∷ bs) = let rest = trim_start bs in if is_space b then rest else b ∷ bs

-- `str::trim`.
unfoldable pub trim : Bytes → Bytes
trim value = reverse (trim_start (reverse (trim_start value)))

-- `value.split_at(split_at)`, at the first byte that is no digit.
unfoldable pub digits_of : Bytes → Bytes
digits_of [] = []
digits_of (b ∷ bs) = let rest = digits_of bs in if is_digit b then b ∷ rest else []

unfoldable pub unit_of : Bytes → Bytes
unit_of [] = []
unit_of (b ∷ bs) = let rest = unit_of bs in if is_digit b then rest else b ∷ bs

-- What decimal digits stand for, behind those that stand for `acc`.
unfoldable pub decimal : ℕ → Bytes → ℕ
decimal acc [] = acc
decimal acc (b ∷ bs) = decimal (acc * 10 + (b - 48)) bs

-- `number.parse::<u64>()`, on digits.
unfoldable pub parse_u64 : Bytes → Option ℕ
parse_u64 number =
    if is_nil number
    then none
    else if leb (decimal 0 number) u64_max
    then some (decimal 0 number)
    else none

abbrev pub one_of : Bytes → List Bytes → Bool
one_of unit [] = false
one_of unit (u ∷ us) = eqb unit u || one_of unit us

-- The `match` on the unit.
unfoldable pub scale : ℕ → Bytes → Parsed
scale amount unit =
    if eqb unit (text "ms")
    then nanos (amount * 1000000)
    else if one_of unit (text "s" ∷ text "sec" ∷ text "secs" ∷ [])
    then nanos (amount * second)
    else if one_of unit (text "m" ∷ text "min" ∷ text "mins" ∷ [])
    then nanos (amount * 60 % two64 * second)
    else if one_of unit (text "h" ∷ text "hr" ∷ text "hrs" ∷ [])
    then nanos (amount * 60 % two64 * 60 % two64 * second)
    else if is_nil unit
    then nanos (amount * second)
    else failed bad_unit

unfoldable pub parse_duration : Bytes → Parsed
parse_duration value =
    let v = trim value in
    if is_nil v then failed empty_text else elim (parse_u64 (digits_of v)) [
      | none ↦ failed bad_number
      | some amount ↦ scale amount (unit_of v)
    ]
