-- ===== src/Query/Sql/Periods/Searches.antt =====
-- query/app/core/periods.py: the searches of the SQL's WHERE clauses for the year and the month.
use Prim.Native.Char.{code}
use incident_desk.Prelude.{
  Bool, Exc, List, Option, Result, String, [], all, and_then, any, err, false, if◌then◌else◌, leb,
  map, nat_eq, none, ok, other_error, some, string_eq, true, value_error, ℕ, ◌%◌, ◌&&◌, ◌++◌, ◌+◌,
  ◌<>◌, ◌==◌, ◌||◌, ◌∷◌,
}
use incident_desk.Json.Text.{after_prefix, rest_after, show, take_chars, text_length}
use incident_desk.Query.Routing.{mentions_any}
use incident_desk.Query.Sql.{SqlTree, find_all}
use incident_desk.Query.Sql.Calendar.{Date, day_of, month_days, not_after, read_int, same_day}
use incident_desk.Query.Sql.Periods.{month_asked, month_year, year_asked}
use incident_desk.Worker.Contracts.{object_eq, source_eq}

-- What the loop over the predicates of a WHERE has: it returned, or it has seen these lower and upper
-- bounds, an upper one with whether it is exclusive.
pub data Search : Type 0 where
  met : Search
  seeking : List Date → List (Date × Bool) → Search

-- The last day of the month of `low`.
abbrev pub month_end : ℕ → Date → Date
month_end m low = record { year = low.year; month = m; day = month_days low.year m }

-- The first day after it, which date() refuses beyond the year 9999.
unfoldable pub following : ℕ → Date → Result Date
following m low =
    let y = low.year + (if m == 12 then 1 else 0) in
    if leb y 9999
    then ok (record { year = y; month = m % 12 + 1; day = 1 })
    else err (value_error "year 10000 is out of range")

abbrev pub closes : ℕ → Date → Date → Date × Bool → Bool
closes m low next high =
    not_after low high.0 && not_after high.0 (month_end m low) || high.1 && same_day high.0 next

unfoldable pub bounds_month : ℕ → List Date → List (Date × Bool) → Result Bool
unfolding following
bounds_month m [] highs = ok false
bounds_month m (low ∷ lows) highs = and_then (following m low) λ next.
    let rest = bounds_month m lows highs in if any (closes m low next) highs then ok true else rest

-- value and value.month == month and (year is None or value.year == year)
abbrev pub in_year : Option ℕ → Date → Bool
in_year none d = true
in_year (some y) d = d.year == y

abbrev pub requested_day : ℕ → Option ℕ → Option Date → Bool
requested_day m y none = false
requested_day m y (some d) = d.month == m && in_year y d

-- for x in xs: if test(x): return, where the test may raise
unfoldable pub any_result : {A : Type 0} → (A → Result Bool) → List A → Result Bool
any_result test [] = ok false
any_result test (x ∷ xs) =
    and_then (test x) (λ b. let rest = any_result test xs in if b then ok true else rest)

-- text.replace(mark, ""), for a mark of one character
without : ℕ → String → String
without mark String.[] = ""
without mark (String.◌∷◌ c s) =
    let rest = without mark s in if code c == mark then rest else String.◌∷◌ c rest

day_of_numbers : Option ℕ → Option ℕ → Option ℕ → Option Date
unfolding day_of
day_of_numbers (some y) (some m) (some d) = day_of y m d
day_of_numbers _ _ _ = none

module _ {T : Type 0} (g : SqlTree T) (digit : ℕ → Option ℕ) (today : Date) where
  unfoldable pub is_year_text : String → String → Bool
  unfolding after_prefix text_length
  is_year_text y v =
      v == y
      || elim (after_prefix y v) [ none ↦ false | some _ ↦ true ]
        && (text_length v == 8 || text_length v == 10)

  unfoldable pub names_year : ℕ → T → Bool
  unfolding find_all is_year_text show
  names_year y p =
      any (λ c. g.name c == "year" || g.name c == "date_id") (find_all g g.is_column p)
      && any (λ n. is_year_text (show y) (g.literal n)) (find_all g g.is_literal p)

  unfoldable pub where_keeps_year : ℕ → T → Bool
  unfolding names_year find_all mentions_any
  where_keeps_year y w =
      any (names_year y) (find_all g g.is_predicate w)
      || y == today.year && mentions_any ("YEAR(CURRENT_DATE)" ∷ []) (g.sql w)

  wrong_year : ℕ → Exc
  unfolding show
  wrong_year y =
      value_error
        ("问题指定了 " <> show y <> " 年，SQL 必须保留 year=" <> show y <> " 或该年 date_id 范围，不能改查全部历史订单。")

  unfoldable pub tree_keeps_year : ℕ → T → Result (Unit {0})
  unfolding where_keeps_year find_all wrong_year
  tree_keeps_year y tree =
      if any (where_keeps_year y) (find_all g g.is_where tree) then ok tt else err (wrong_year y)

  unfoldable pub validate_year : String → String → Result (Unit {0})
  unfolding year_asked tree_keeps_year
  validate_year q sql = elim (year_asked digit today q) [
    | none ↦ ok tt
    | some y ↦ and_then (g.parse_one sql) (tree_keeps_year y)
  ]

  -- The eight digits of a date.
  date_of_text : String → Option Date
  unfolding read_int take_chars rest_after text_length day_of_numbers
  date_of_text raw =
      if text_length raw == 8
      then day_of_numbers (read_int digit (take_chars 4 raw))
          (read_int digit (take_chars 2 (rest_after 4 raw))) (read_int digit (rest_after 6 raw))
      else none

  unfoldable pub date_value : Option T → Option Date
  unfolding date_of_text without
  date_value none = none
  date_value (some n) =
      if g.is_literal n then date_of_text (without 47 (without 45 (g.literal n))) else none

  is_month_side : Option T → Bool
  is_month_side none = false
  is_month_side (some left) = g.is_column left && g.name left == "month" || g.is_month left

  is_month_literal : ℕ → Option T → Bool
  unfolding show
  is_month_literal m none = false
  is_month_literal m (some v) = g.is_literal v && g.literal v == show m

  unfoldable pub compared : T → List (Option T)
  compared p = if g.is_in p then map some (g.args "expressions" p) else g.expression p ∷ []

  has_any : List (Option T) → Bool
  has_any [] = false
  has_any (x ∷ xs) = true

  -- month = 3, or month IN (3)
  unfoldable pub month_test : ℕ → T → Bool
  unfolding is_month_side is_month_literal has_any compared
  month_test m p =
      is_month_side (g.this p) && has_any (compared p) && all (is_month_literal m) (compared p)

  -- any(c.name == "date_id" for c in predicate.this.find_all(exp.Column))
  unfoldable pub on_date : Option T → Result Bool
  unfolding find_all
  on_date none = err (other_error "AttributeError")
  on_date (some t) = ok (any (λ c. g.name c == "date_id") (find_all g g.is_column t))

  module _ (m : ℕ) (y : Option ℕ) where
    abbrev pub add_low : T → Option Date → List Date → List Date
    add_low p none lows = lows
    add_low p (some d) lows =
        if g.is_gte p && requested_day m y (some d) then lows ++ d ∷ [] else lows

    abbrev pub add_high : T → Option Date → List (Date × Bool) → List (Date × Bool)
    add_high p none highs = highs
    add_high p (some d) highs =
        if g.is_lte p || g.is_lt p then highs ++ (d, g.is_lt p) ∷ [] else highs

    unfoldable pub by_date : T → List Date → List (Date × Bool) → Search
    unfolding date_value
    by_date p lows highs =
        if g.is_between p
          && requested_day m y (date_value (g.arg "low" p))
          && requested_day m y (date_value (g.arg "high" p))
        then met
        else if g.is_eq p && requested_day m y (date_value (g.expression p))
        then met
        else seeking (add_low p (date_value (g.expression p)) lows)
            (add_high p (date_value (g.expression p)) highs)

    -- The body of the loop over the predicates.
    unfoldable pub search_step : T → List Date → List (Date × Bool) → Result Search
    unfolding month_test on_date by_date
    search_step p lows highs =
        if (g.is_eq p || g.is_in p) && month_test m p
        then ok met
        else and_then (on_date (g.this p))
            λ dated. ok (if dated then by_date p lows highs else seeking lows highs)

    unfoldable pub search : List T → List Date → List (Date × Bool) → Result Search
    unfolding search_step
    search [] lows highs = ok (seeking lows highs)
    search (p ∷ ps) lows highs =
        and_then (search_step p lows highs)
          λ r. elim r [ met ↦ ok met | seeking lows' highs' ↦ search ps lows' highs' ]

    abbrev pub closed_search : Search → Result Bool
    closed_search met = ok true
    closed_search (seeking lows highs) = bounds_month m lows highs

    unfoldable pub where_keeps_month : T → Result Bool
    unfolding search bounds_month find_all
    where_keeps_month w = and_then (search (find_all g g.is_predicate w) [] []) closed_search

    pub wrong_month : Exc
    unfolding show
    wrong_month =
        value_error
          ("问题指定了 " <> show m <> " 月，SQL 必须保留 month=" <> show m <> " 或该月 date_id 的上下界，不能只按年份查询。")

    unfoldable pub tree_keeps_month : T → Result (Unit {0})
    unfolding where_keeps_month any_result find_all wrong_month
    tree_keeps_month tree =
        and_then (any_result where_keeps_month (find_all g g.is_where tree))
          (λ kept. if kept then ok tt else err wrong_month)

  unfoldable pub validate_period : String → String → Result (Unit {0})
  unfolding validate_year month_asked month_year tree_keeps_month
  validate_period q sql = and_then (validate_year q sql) λ _. elim (month_asked digit today q) [
    | none ↦ ok tt
    | some m ↦ and_then (g.parse_one sql) (tree_keeps_month m (month_year digit today q))
  ]
