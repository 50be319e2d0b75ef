-- ===== src/Time.antt =====
-- Go's package `time`. A `time.Time` is the count of nanoseconds since the first of January of
-- year 1, so that 0 is the zero time; a `time.Duration` is a count of nanoseconds. Unix seconds
-- are natural numbers: instants before 1970 are written as 0 in a record of an account.
pub mod Laws
use antigravity2api.Base.{
  ℕ, zero, suc, ◌+◌, ◌-◌, ◌*◌, ◌/◌, ◌%◌, ◌^◌, ◌≤◌, Bool, true, false, ◌&&◌, ◌||◌, not, List, [],
  ◌∷◌, Option, none, some, Text, leb, ltb, nat_beq, max, is_empty, if◌then◌else◌,
}

abbrev pub millisecond : ℕ
millisecond = 1_000_000

abbrev pub second : ℕ
second = 1_000_000_000

abbrev pub minute : ℕ
minute = 60 * second

-- The seconds from year 1 to 1970.
abbrev pub unix_epoch : ℕ
unix_epoch = 62135596800

-- t.After(u)
abbrev pub after : ℕ → ℕ → Bool
after t u = ltb u t

-- t.Before(u)
abbrev pub before : ℕ → ℕ → Bool
before t u = ltb t u

-- t.IsZero()
abbrev pub is_zero : ℕ → Bool
is_zero t = nat_beq t 0

-- time.Unix(s, 0)
abbrev pub from_unix : ℕ → ℕ
from_unix s = (s + unix_epoch) * second

-- t.Unix() counted from year 1, which orders instants before 1970 too.
abbrev pub unix_seconds : ℕ → ℕ
unix_seconds t = t / second

-- t.Unix()
abbrev pub unix : ℕ → ℕ
unix t = unix_seconds t - unix_epoch

-- The steps of a parser: a value and what is left of the text.
abbrev Parsed : Type 0
Parsed = Option (ℕ × Text)

infixl 5 ◌>>=◌
abbrev ◌>>=◌ {ℓ κ} : {A : Type ℓ} {B : Type κ} → Option A → (A → Option B) → Option B
none >>= f = none
some a >>= f = f a

abbrev guard : Bool → Text → Option Text
guard true s = some s
guard false s = none

is_digit : ℕ → Bool
is_digit c = leb b'0' c && leb c b'9'

-- One digit.
digit : Text → Parsed
unfolding is_digit
digit [] = none
digit (c ∷ s) = if is_digit c then some (c - b'0', s) else none

-- getnum with `fixed`: two digits.
two_digits : Text → Parsed
unfolding digit
two_digits s = do (a, rest) ← digit s; (b, rest') ← digit rest; some (10 * a + b, rest')

-- getnum without `fixed`: one digit or two.
one_or_two_digits : Text → Parsed
unfolding two_digits
one_or_two_digits s = elim (two_digits s) [ some r ↦ some r | none ↦ digit s ]

expect : ℕ → Text → Option Text
expect c [] = none
expect c (d ∷ s) = if nat_beq c d then some s else none

-- The digits of a fraction, as nanoseconds; digits behind the ninth count for nothing.
fraction : ℕ → Text → ℕ × Text
unfolding is_digit
fraction unit [] = (0, [])
fraction unit (c ∷ s) =
    let rest = fraction (unit / 10) s in
    if is_digit c then ((c - b'0') * unit + rest.0, rest.1) else (0, c ∷ s)

-- A fraction stands behind the seconds if a dot or a comma and a digit follow.
optional_fraction : Text → ℕ × Text
unfolding fraction is_digit
optional_fraction (p ∷ c ∷ s) =
    if (nat_beq p b'.' || nat_beq p b',') && is_digit c
    then fraction 100_000_000 (c ∷ s)
    else (0, p ∷ c ∷ s)
optional_fraction s = (0, s)

-- Hours and minutes behind a sign, to the end of the text, in seconds.
numeric_offset : Text → Option ℕ
unfolding two_digits expect
numeric_offset s = do
  (h, s1) ← two_digits s
  s2 ← expect b':' s1
  (m, s3) ← two_digits s2
  end ← guard (leb h 24 && leb m 60 && is_empty s3) s3
  some ((h * 60 + m) * 60)

-- The offset in seconds and whether it lies west: "Z", or a sign, hours and minutes.
offset : Text → Option (Bool × ℕ)
unfolding numeric_offset
offset [] = none
offset (c ∷ s) =
    if nat_beq c b'Z'
    then (if is_empty s then some (false, 0) else none)
    else (if nat_beq c b'+' || nat_beq c b'-'
        then (numeric_offset s >>= λ off. some (nat_beq c b'-', off))
        else none)

is_leap : ℕ → Bool
is_leap y = nat_beq (y % 4) 0 && (not (nat_beq (y % 100) 0) || nat_beq (y % 400) 0)

month_days : ℕ → ℕ → ℕ
unfolding is_leap
month_days y m =
    if nat_beq m 2
    then (if is_leap y then 29 else 28)
    else (if nat_beq m 4 || nat_beq m 6 || nat_beq m 9 || nat_beq m 11 then 30 else 31)

-- The days of the months before month m + 1.
days_before : ℕ → ℕ → ℕ
unfolding month_days
days_before y zero = 0
days_before y (suc m) = days_before y m + month_days y (suc m)

-- The days from the first of January of year 1, for a year from 1 on.
day_number : ℕ → ℕ → ℕ → ℕ
unfolding days_before
day_number y m d =
    let p = y - 1 in 365 * p + p / 4 - p / 100 + p / 400 + days_before y (m - 1) + (d - 1)

-- time.Parse(time.RFC3339, s); `none` is an error. The days are counted from 400 years before the
-- zero time. An instant before the zero time is moved to the nanosecond behind it: both lie before
-- any clock reading and neither is the zero time.
unfoldable pub parse_rfc3339 : Text → Option ℕ
unfolding two_digits one_or_two_digits expect optional_fraction offset month_days day_number
parse_rfc3339 s = do
  (century, s1) ← two_digits s
  (year_of, s2) ← two_digits s1
  s3 ← expect b'-' s2
  (month, s4) ← two_digits s3
  s5 ← guard (leb 1 month && leb month 12) s4
  s6 ← expect b'-' s5
  (day, s7) ← two_digits s6
  s8 ← expect b'T' s7
  (hour, s9) ← one_or_two_digits s8
  s10 ← guard (ltb hour 24) s9
  s11 ← expect b':' s10
  (mins, s12) ← two_digits s11
  s13 ← guard (ltb mins 60) s12
  s14 ← expect b':' s13
  (secs, s15) ← two_digits s14
  s16 ← guard (ltb secs 60) s15
  let frac = optional_fraction s16
  (west, off) ← offset frac.1
  let year = 100 * century + year_of
  s17 ← guard (leb 1 day && leb day (month_days year month)) s
  let local = ((day_number (400 + year) month day * 24 + hour) * 60 + mins) * 60 + secs
  let utc = if west then local + off else local - off
  let zero_time = 146097 * 24 * 60 * 60
  some (if ltb utc zero_time then 1 else (utc - zero_time) * second + frac.0)

-- `t, _ := time.Parse(time.RFC3339, s)`: the zero time on an error.
unfoldable pub parse_or_zero : Text → ℕ
unfolding parse_rfc3339
parse_or_zero s = elim (parse_rfc3339 s) [ none ↦ 0 | some t ↦ t ]
