-- ===== src/Query/Sql/Periods.antt =====
-- query/app/core/periods.py: SQL must keep the year and the month that the question names.
pub mod Searches
pub mod Days
pub mod Kept
pub mod Months
pub mod Years
use Prim.Native.Char.{code}
use incident_desk.Prelude.{
  Bool, List, Option, String, [], all, contains, false, if◌then◌else◌, ltb, map, nat_eq, none, not,
  some, string_eq, suc, true, ℕ, ◌&&◌, ◌-◌, ◌==◌, ◌||◌, ◌∷◌,
}
use incident_desk.Json.Text.{
  after_prefix, has_substring, left_stripped, rest_after, take_chars, text_length,
}
use incident_desk.Query.Sql.Calendar.{Date, read_int}
use incident_desk.Worker.Contracts.{object_eq, source_eq}

is_mark : String → String → Bool
is_mark marks String.[] = false
is_mark marks (String.◌∷◌ c s) = has_substring (String.◌∷◌ c "") marks

begins : String → String → Bool
unfolding after_prefix
begins p s = elim (after_prefix p s) [ none ↦ false | some _ ↦ true ]

abbrev chinese_digits : List String
chinese_digits = "一" ∷ "二" ∷ "三" ∷ "四" ∷ "五" ∷ "六" ∷ "七" ∷ "八" ∷ "九" ∷ "十" ∷ []

abbrev chinese_months : List String
chinese_months = "一" ∷ "二" ∷ "三" ∷ "四" ∷ "五" ∷ "六" ∷ "七" ∷ "八" ∷ "九" ∷ "十" ∷ "十一" ∷ "十二" ∷ []

abbrev month_numerals : List String
month_numerals = "1" ∷ "2" ∷ "3" ∷ "4" ∷ "5" ∷ "6" ∷ "7" ∷ "8" ∷ "9" ∷ "10" ∷ "11" ∷ "12" ∷ []

-- Which of the texts it is, counted from n.
position : ℕ → List String → String → Option ℕ
position n [] k = none
position n (x ∷ xs) k = let rest = position (suc n) xs k in if x == k then some n else rest

-- m.lstrip("0")
without_zeros : String → String
without_zeros String.[] = ""
without_zeros (String.◌∷◌ c s) =
    let rest = without_zeros s in if code c == 48 then rest else String.◌∷◌ c s

-- chinese.get(m.lstrip("0"))
unfoldable pub month_number : String → Option ℕ
unfolding position without_zeros
month_number m = elim (position 1 month_numerals (without_zeros m)) [
  | some n ↦ some n
  | none ↦ position 1 chinese_months (without_zeros m)
]

-- The one month that all the texts are, if it is one.
unfoldable pub sole_month : List (Option ℕ) → Option ℕ
sole_month [] = none
sole_month (none ∷ ms) = none
sole_month (some m ∷ ms) =
    if all (λ o. elim o [ none ↦ false | some n ↦ n == m ]) ms then some m else none

-- `digit` is \d with the value of a digit, and `today` the date of the system.
module _ (digit : ℕ → Option ℕ) (today : Date) where
  begins_with_digit : String → Bool
  begins_with_digit String.[] = false
  begins_with_digit (String.◌∷◌ c s) = elim (digit (code c)) [ none ↦ false | some _ ↦ true ]

  -- (20\d{2})\s*(?:年|[-/]) at the beginning
  year_at : String → Option String
  unfolding begins begins_with_digit is_mark rest_after left_stripped take_chars
  year_at s =
      if begins "20" s
        && begins_with_digit (rest_after 2 s)
        && begins_with_digit (rest_after 3 s)
        && is_mark "年-/" (left_stripped (rest_after 4 s))
      then some (take_chars 4 s)
      else none

  -- re.findall: no two matches overlap, so that each position is tried.
  pub years_in : String → List String
  unfolding year_at
  years_in String.[] = []
  years_in (String.◌∷◌ c s) = elim (year_at (String.◌∷◌ c s)) [
    | none ↦ years_in s
    | some y ↦ y ∷ years_in s
  ]

  first_if : Bool → String → String
  first_if b String.[] = ""
  first_if b (String.◌∷◌ c s) = if b then String.◌∷◌ c "" else ""

  -- \d{1,2}|十一|十二|[一二三四五六七八九十]; a shorter match is never followed by 月 where a longer one is
  -- not.
  month_group : String → String
  unfolding begins_with_digit first_if begins
  month_group String.[] = ""
  month_group (String.◌∷◌ c s) =
      if begins_with_digit (String.◌∷◌ c s)
      then String.◌∷◌ c (first_if (begins_with_digit s) s)
      else if begins "十" (String.◌∷◌ c s)
      then String.◌∷◌ c (first_if (begins "一" s || begins "二" s) s)
      else first_if (contains (String.◌∷◌ c "") chinese_digits) (String.◌∷◌ c s)

  -- With \s*月 behind it.
  month_at : String → Option String
  unfolding month_group begins left_stripped rest_after text_length
  month_at s =
      let m = month_group s in
      if ltb 0 (text_length m) && begins "月" (left_stripped (rest_after (text_length m) s))
      then some m
      else none

  -- re.findall; `inside` is within a match, which ends with the next 月.
  pub months_in : Bool → String → List String
  unfolding month_at begins
  months_in inside String.[] = []
  months_in true (String.◌∷◌ c s) = months_in (not (begins "月" (String.◌∷◌ c ""))) s
  months_in false (String.◌∷◌ c s) = elim (month_at (String.◌∷◌ c s)) [
    | none ↦ months_in false s
    | some m ↦ m ∷ months_in true s
  ]

  year_of_texts : String → List String → Option ℕ
  unfolding read_int
  year_of_texts y ys = if all (λ z. z == y) ys then read_int digit y else none

  relative_year : String → Option ℕ
  unfolding has_substring
  relative_year q =
      if has_substring "今年" q || has_substring "本年" q
      then some today.year
      else if has_substring "去年" q
      then some (today.year - 1)
      else none

  year_or_relative : String → List String → Option ℕ
  unfolding year_of_texts relative_year
  year_or_relative q [] = relative_year q
  year_or_relative q (y ∷ ys) = year_of_texts y ys

  -- The year that _validate_year asks for.
  unfoldable pub year_asked : String → Option ℕ
  unfolding years_in year_or_relative
  year_asked q = year_or_relative q (years_in q)

  relative_month_year : String → Option ℕ
  unfolding has_substring
  relative_month_year q =
      if has_substring "今年" q || has_substring "本年" q || has_substring "去年" q
      then some (today.year - (if has_substring "去年" q then 1 else 0))
      else none

  month_year_or_relative : String → List String → Option ℕ
  unfolding year_of_texts relative_month_year
  month_year_or_relative q [] = relative_month_year q
  month_year_or_relative q (y ∷ ys) = year_of_texts y ys

  -- The month that validate_period asks for, and its year.
  unfoldable pub month_asked : String → Option ℕ
  unfolding months_in
  month_asked q = sole_month (map month_number (months_in false q))

  unfoldable pub month_year : String → Option ℕ
  unfolding years_in month_year_or_relative
  month_year q = month_year_or_relative q (years_in q)
