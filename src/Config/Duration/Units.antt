-- ===== src/Config/Duration/Units.antt =====
-- src/config.rs: a number with a unit is read as so many of the unit.
use mathlib.Core.List.{reverse, reverse-append, reverse-reverse}
use storage_harvester.Base.{ℕ, ◌*◌, ◌≤◌, ◌≡◌, refl, ap, ◌∙◌, true, some, [], ◌∷◌, ◌++◌, arith, All}
use storage_harvester.Base.Int.{u64_max}
use storage_harvester.Base.Bytes.{Bytes, text, eqb}
use storage_harvester.Config.{second}
use storage_harvester.Config.Duration.{
  nanos, is_digit, trim_start, trim, digits_of, unit_of, decimal, parse_u64, scale, parse_duration,
}

-- A unit, by the way that it is written.
pub data TimeUnit : Type 0 where
  millis secs sec_word secs_word minutes min_word mins_word hours hr_word hrs_word : TimeUnit

abbrev pub suffix : TimeUnit → Bytes
suffix millis = text "ms"
suffix secs = text "s"
suffix sec_word = text "sec"
suffix secs_word = text "secs"
suffix minutes = text "m"
suffix min_word = text "min"
suffix mins_word = text "mins"
suffix hours = text "h"
suffix hr_word = text "hr"
suffix hrs_word = text "hrs"

abbrev pub seconds_of : TimeUnit → ℕ
seconds_of millis = 0
seconds_of secs = 1
seconds_of sec_word = 1
seconds_of secs_word = 1
seconds_of minutes = 60
seconds_of min_word = 60
seconds_of mins_word = 60
seconds_of hours = 3600
seconds_of hr_word = 3600
seconds_of hrs_word = 3600

-- How many nanoseconds a unit has.
abbrev pub nanos_of : TimeUnit → ℕ
nanos_of millis = 1000000
nanos_of secs = second
nanos_of sec_word = second
nanos_of secs_word = second
nanos_of minutes = 60 * second
nanos_of min_word = 60 * second
nanos_of mins_word = 60 * second
nanos_of hours = 3600 * second
nanos_of hr_word = 3600 * second
nanos_of hrs_word = 3600 * second

abbrev pub AreDigits : Bytes → Type 0
AreDigits = All (λ b. is_digit b ≡ true)

digits_of-append : (ds : Bytes) (u : TimeUnit) → AreDigits ds → digits_of (ds ++ suffix u) ≡ ds
unfolding digits_of
digits_of-append [] millis h = refl
digits_of-append [] secs h = refl
digits_of-append [] sec_word h = refl
digits_of-append [] secs_word h = refl
digits_of-append [] minutes h = refl
digits_of-append [] min_word h = refl
digits_of-append [] mins_word h = refl
digits_of-append [] hours h = refl
digits_of-append [] hr_word h = refl
digits_of-append [] hrs_word h = refl
digits_of-append (d ∷ ds) u h = rw (digits_of-append ds u h.1, h.0) refl

unit_of-append : (ds : Bytes) (u : TimeUnit) → AreDigits ds → unit_of (ds ++ suffix u) ≡ suffix u
unfolding unit_of
unit_of-append [] millis h = refl
unit_of-append [] secs h = refl
unit_of-append [] sec_word h = refl
unit_of-append [] secs_word h = refl
unit_of-append [] minutes h = refl
unit_of-append [] min_word h = refl
unit_of-append [] mins_word h = refl
unit_of-append [] hours h = refl
unit_of-append [] hr_word h = refl
unit_of-append [] hrs_word h = refl
unit_of-append (d ∷ ds) u h = rw (unit_of-append ds u h.1, h.0) refl

trim_start-digits : (d : ℕ) (bs : Bytes) → is_digit d ≡ true → trim_start (d ∷ bs) ≡ d ∷ bs
unfolding trim_start
trim_start-digits d bs h = ground arith

trim_start-suffix :
    (u : TimeUnit) (bs : Bytes) → trim_start (reverse (suffix u) ++ bs) ≡ reverse (suffix u) ++ bs
unfolding trim_start
trim_start-suffix millis bs = refl
trim_start-suffix secs bs = refl
trim_start-suffix sec_word bs = refl
trim_start-suffix secs_word bs = refl
trim_start-suffix minutes bs = refl
trim_start-suffix min_word bs = refl
trim_start-suffix mins_word bs = refl
trim_start-suffix hours bs = refl
trim_start-suffix hr_word bs = refl
trim_start-suffix hrs_word bs = refl

trim-digits :
    (d : ℕ) (ds : Bytes) (u : TimeUnit)
    → is_digit d ≡ true
    → trim ((d ∷ ds) ++ suffix u) ≡ (d ∷ ds) ++ suffix u
unfolding trim
trim-digits d ds u h = rw (trim_start-digits d (ds ++ suffix u) h) (
    rw (reverse-append (d ∷ ds) (suffix u)) (
      rw (trim_start-suffix u (reverse (d ∷ ds)))
        (rw (← reverse-append (d ∷ ds) (suffix u)) (reverse-reverse _))))

scale-unit :
    (n : ℕ) (u : TimeUnit)
    → n * seconds_of u ≤ u64_max
    → scale n (suffix u) ≡ nanos (n * nanos_of u)
unfolding scale eqb
scale-unit n millis h = refl
scale-unit n secs h = refl
scale-unit n sec_word h = refl
scale-unit n secs_word h = refl
scale-unit n minutes h = ap nanos (omega arith)
scale-unit n min_word h = ap nanos (omega arith)
scale-unit n mins_word h = ap nanos (omega arith)
scale-unit n hours h = ap nanos (omega arith)
scale-unit n hr_word h = ap nanos (omega arith)
scale-unit n hrs_word h = ap nanos (omega arith)

parse_u64-digits :
    (d : ℕ) (ds : Bytes)
    → decimal 0 (d ∷ ds) ≤ u64_max
    → parse_u64 (d ∷ ds) ≡ some (decimal 0 (d ∷ ds))
unfolding parse_u64
parse_u64-digits d ds h = ground arith

parse_duration-step :
    (value : Bytes) {number unit : Bytes} {d amount : ℕ} (rest : Bytes)
    → trim value ≡ d ∷ rest
    → digits_of (d ∷ rest) ≡ number
    → parse_u64 number ≡ some amount
    → unit_of (d ∷ rest) ≡ unit
    → parse_duration value ≡ scale amount unit
unfolding parse_duration
parse_duration-step value rest et ed ep eu = ground arith

-- Decimal digits behind which a unit stands, in any of the ways to write it, are read as that number
-- of the unit, as long as the number, and its seconds, fit `u64`.
pub parse_duration-unit :
    (d : ℕ) (ds : Bytes) (u : TimeUnit)
    → AreDigits (d ∷ ds)
    → decimal 0 (d ∷ ds) ≤ u64_max
    → decimal 0 (d ∷ ds) * seconds_of u ≤ u64_max
    → parse_duration ((d ∷ ds) ++ suffix u) ≡ nanos (decimal 0 (d ∷ ds) * nanos_of u)
parse_duration-unit d ds u h fits secs_fit =
    parse_duration-step _ (ds ++ suffix u) (trim-digits d ds u h.0) (digits_of-append (d ∷ ds) u h)
      (parse_u64-digits d ds fits) (unit_of-append (d ∷ ds) u h)
    ∙ scale-unit (decimal 0 (d ∷ ds)) u secs_fit
