-- ===== src/Query/Samples/Spans.antt =====
-- A query of one month: a WHERE with `date_id >= '2025-03-01' AND date_id < '2025-04-01'`. A node is its
-- name.
use incident_desk.Prelude.{
  All, AnyOf, Option, Result, String, [], err, if◌then◌else◌, nat_eq, none, ok, refl, some,
  string_eq, ℕ, ◌-◌, ◌==◌, ◌||◌, ◌∷◌, ◌≡◌,
}
use incident_desk.Json.Text.{in_range}
use incident_desk.Query.Agent.Graph.{answer_query}
use incident_desk.Query.Agent.Warehouse.{RunsSound, answer_query-RunsSound, warehouse_checks}
use incident_desk.Query.Samples.{one_query, one_query-LimitLaws}
use incident_desk.Query.Samples.Joins.{is_letter, toy}
use incident_desk.Query.Samples.Runs.{plain_services}
use incident_desk.Query.Sql.{SqlTree, find_all}
use incident_desk.Query.Sql.Calendar.{Date}
use incident_desk.Query.Sql.Periods.{month_asked, month_number, month_year, sole_month, year_asked}
use incident_desk.Query.Sql.Periods.Kept.{KeepsMonth}
use incident_desk.Query.Sql.Periods.Months.{validate_period-KeepsMonth}
use incident_desk.Query.Sql.Periods.Searches.{
  tree_keeps_month, validate_period, validate_year, where_keeps_month, wrong_month,
}
use incident_desk.Query.Sql.Periods.Years.{KeepsYear, validate_period-KeepsYear}
use incident_desk.Worker.Contracts.{object_eq, source_eq}

abbrev decimal : ℕ → Option ℕ
decimal n = if in_range 48 57 n then some (n - 48) else none

abbrev new_year : Date
new_year = record { year = 2026; month = 1; day = 2 }

abbrev span : SqlTree String
span = record toy {
  walk = λ n.
      if n == "root"
      then "root" ∷ "where" ∷ []
      else if n == "where"
      then "where" ∷ "from" ∷ "to" ∷ []
      else if n == "from"
      then "from" ∷ "date" ∷ "2025-03-01" ∷ []
      else if n == "to"
      then "to" ∷ "date" ∷ "2025-04-01" ∷ []
      else n ∷ [];
  this = λ n. if n == "from" || n == "to" then some "date" else none;
  expression = λ n. some (if n == "from" then "2025-03-01" else "2025-04-01");
  name = λ n. "date_id";
  is_column = λ n. n == "date";
  is_where = λ n. n == "where";
  is_predicate = λ n. n == "from" || n == "to";
  is_gte = λ n. n == "from";
  is_lt = λ n. n == "to";
  is_literal = λ n. n == "2025-03-01" || n == "2025-04-01";
}

month_asked_runs : month_asked decimal new_year "2025年12月和12 月的订单" ≡ some 12
unfolding month_asked month_number sole_month
month_asked_runs = refl

year_asked_runs : year_asked decimal new_year "去年的订单" ≡ some 2025
unfolding year_asked
year_asked_runs = refl

-- A WHERE that ends with the month is accepted, and one of the next month is not.
period_accepted : validate_period span decimal new_year "2025年3月的订单" "root" ≡ ok tt
unfolding validate_period validate_year tree_keeps_month where_keeps_month year_asked month_asked
    month_year month_number sole_month
period_accepted = refl

period_refused :
    validate_period span decimal new_year "2025年4月的订单" "root"
    ≡ err (wrong_month span decimal new_year 4 (some 2025))
unfolding validate_period validate_year tree_keeps_month where_keeps_month year_asked month_asked
    month_year month_number sole_month
period_refused = refl

validate_period-KeepsYear_example :
    (tree : String) × (◌≡◌ {A = Result String} (ok "root") (ok tree))
    × AnyOf (KeepsYear span decimal new_year 2025) (find_all span (λ n. n == "where") tree)
unfolding validate_period validate_year tree_keeps_month where_keeps_month year_asked month_asked
    month_year month_number sole_month
validate_period-KeepsYear_example =
    validate_period-KeepsYear span decimal new_year 2025 "2025年3月的订单" "root" refl refl

validate_period-KeepsMonth_example :
    (tree : String) × (◌≡◌ {A = Result String} (ok "root") (ok tree))
    × AnyOf (KeepsMonth span decimal new_year 3 2025) (find_all span (λ n. n == "where") tree)
unfolding validate_period validate_year tree_keeps_month where_keeps_month year_asked month_asked
    month_year month_number sole_month
validate_period-KeepsMonth_example =
    validate_period-KeepsMonth span decimal new_year 3 2025 "2025年3月的订单" "root" refl refl refl

answer_query-RunsSound_example :
    All
      (RunsSound one_query span is_letter decimal new_year "How many orders?")
      (answer_query plain_services
        (warehouse_checks one_query span is_letter decimal new_year)
        "How many orders?"
        (record { events = []; calls = [] })).calls
answer_query-RunsSound_example =
    answer_query-RunsSound one_query span is_letter decimal new_year plain_services
      one_query-LimitLaws "How many orders?"
