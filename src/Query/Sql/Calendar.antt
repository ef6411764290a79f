-- ===== src/Query/Sql/Calendar.antt =====
-- Dates and numbers as Python reads them: `int(text)` and `date(year, month, day)`, of which
-- query/app/core/periods.py makes use.
use Prim.Native.Char.{code}
use incident_desk.Prelude.{
  Bool, Option, String, false, if◌then◌else◌, leb, ltb, nat_eq, none, not, some, string_eq, true, ℕ,
  ◌%◌, ◌&&◌, ◌*◌, ◌+◌, ◌==◌, ◌||◌,
}
use incident_desk.Json.Text.{strip}
use incident_desk.Worker.Contracts.{object_eq, source_eq}

-- The rest of int(s), behind a number of digits; a single "_" may stand between digits.
digits_from : (ℕ → Option ℕ) → ℕ → Bool → String → Option ℕ
digits_from digit n after_digit String.[] = if after_digit then some n else none
digits_from digit n after_digit (String.◌∷◌ c s) = elim (digit (code c)) [
  | some d ↦ digits_from digit (n * 10 + d) true s
  | none ↦ if after_digit && code c == 95 then digits_from digit n false s else none
]

without_plus : String → String
without_plus String.[] = ""
without_plus (String.◌∷◌ c s) = if code c == 43 then s else String.◌∷◌ c s

-- int(s), of a text without "-"; `digit` is the value of a decimal digit of Unicode.
unfoldable pub read_int : (ℕ → Option ℕ) → String → Option ℕ
unfolding digits_from without_plus strip
read_int digit s = digits_from digit 0 false (without_plus (strip s))

pub record Date : Type 0 where
  pub year : ℕ
  pub month : ℕ
  pub day : ℕ

unfoldable pub is_leap : ℕ → Bool
is_leap y = y % 4 == 0 && (not (y % 100 == 0) || y % 400 == 0)

-- calendar.monthrange(y, m)[1]
unfoldable pub month_days : ℕ → ℕ → ℕ
unfolding is_leap
month_days y m =
    if m == 2
    then (if is_leap y then 29 else 28)
    else if m == 4 || m == 6 || m == 9 || m == 11
    then 30
    else 31

-- date(y, m, d), where that raises nothing
unfoldable pub day_of : ℕ → ℕ → ℕ → Option Date
unfolding month_days
day_of y m d =
    if leb 1 y && leb y 9999 && leb 1 m && leb m 12 && leb 1 d && leb d (month_days y m)
    then some (record { year = y; month = m; day = d })
    else none

abbrev pub earlier : Date → Date → Bool
earlier a b =
    ltb a.year b.year
    || a.year == b.year && (ltb a.month b.month || a.month == b.month && ltb a.day b.day)

abbrev pub same_day : Date → Date → Bool
same_day a b = a.year == b.year && a.month == b.month && a.day == b.day

-- a <= b
abbrev pub not_after : Date → Date → Bool
not_after a b = earlier a b || same_day a b
