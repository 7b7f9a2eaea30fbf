-- ===== src/ControlPlane/Dates.antt =====
-- Dates of packages/control-plane/src/service.ts: `parseDate`, `dateOnly` and `addDays`. A date is a
-- day of the Gregorian calendar; texts YYYY-MM-DD are ordered as their fields. `Date.parse` reads a day
-- up to 31 in every month; where the month is shorter, it counts into the next one.
use Prim.Native.Char.{code}
use badgerbots_code_studio.Prelude.{
  ℕ, zero, suc, ◌+◌, ◌-◌, ◌*◌, ◌%◌, String, Bool, not, ◌&&◌, ◌||◌, List, [], ◌∷◌, Option, none,
  some, ltb, leb, ◌==◌, if◌then◌else◌,
}

pub record Date : Type 0 where
  pub year : ℕ
  pub month : ℕ
  pub day : ℕ

-- A reading of the clock: the UTC date, and the milliseconds since the epoch.
pub record Instant : Type 0 where
  pub date : Date
  pub time : ℕ

-- `left < right` on two dates.
abbrev pub ltb_date : Date → Date → Bool
ltb_date a b =
    ltb a.year b.year
    || (a.year == b.year && (ltb a.month b.month || (a.month == b.month && ltb a.day b.day)))

abbrev is_leap : ℕ → Bool
is_leap year = (year % 4 == 0 && not (year % 100 == 0)) || year % 400 == 0

abbrev days_in_month : ℕ → ℕ → ℕ
days_in_month year month =
    if month == 2
    then (if is_leap year then 29 else 28)
    else (if month == 4 || month == 6 || month == 9 || month == 11 then 30 else 31)

unfoldable pub next_day : Date → Date
next_day d =
    if ltb d.day (days_in_month d.year d.month)
    then record d { day = d.day + 1 }
    else (if ltb d.month 12
        then record d { month = d.month + 1; day = 1 }
        else record { year = d.year + 1; month = 1; day = 1 })

-- `setUTCDate(getUTCDate() + days)`
unfoldable pub add_days : Date → ℕ → Date
add_days d zero = d
add_days d (suc n) = add_days (next_day d) n

-- The day that `Date.parse` reads.
unfoldable pub day_of : Date → Date
day_of d =
    if leb d.day (days_in_month d.year d.month)
    then d
    else record d { month = d.month + 1; day = d.day - days_in_month d.year d.month }

abbrev codes : String → List ℕ
codes String.[] = []
codes (String.◌∷◌ c s) = code c ∷ codes s

abbrev is_digit : ℕ → Bool
is_digit c = leb b'0' c && leb c b'9'

-- `\d{n}`: the number that the digits spell, behind those that were read, and the rest of the text.
unfoldable read_digits : ℕ → ℕ → List ℕ → Option (ℕ × List ℕ)
read_digits zero read s = some (read, s)
read_digits (suc n) read [] = none
read_digits (suc n) read (c ∷ s) =
    if is_digit c then read_digits n (read * 10 + (c - b'0')) s else none

unfoldable read_dash : List ℕ → Option (List ℕ)
read_dash [] = none
read_dash (c ∷ s) = if c == b'-' then some s else none

abbrev read_end : Date → List ℕ → Option Date
read_end d [] =
    if leb 1 d.month && leb d.month 12 && leb 1 d.day && leb d.day 31 then some d else none
read_end d (c ∷ s) = none

infixl 5 ◌>>=◌
abbrev ◌>>=◌ : {A B : Type 0} → Option A → (A → Option B) → Option B
none >>= f = none
some a >>= f = f a

-- `parseDate`: `none` if it throws.
unfoldable pub parse_date : String → Option Date
unfolding read_digits read_dash
parse_date text = do
  (year, s1) ← read_digits 4 0 (codes text)
  s2 ← read_dash s1
  (month, s3) ← read_digits 2 0 s2
  s4 ← read_dash s3
  (day, s5) ← read_digits 2 0 s4
  read_end (record { year = year; month = month; day = day }) s5
