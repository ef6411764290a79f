-- ===== src/Query/Agent/Warehouse.antt =====
-- The checks of query/app/core that the nodes of the agent call, and what the SQL is like that they
-- let through to the warehouse.
use incident_desk.Prelude.{All, All-map, AnyOf, Bool, Option, String, [], ok, some, true, ℕ, ◌≡◌}
use incident_desk.Query.Agent.{DbCall, Services, SqlChecks, executed, explained, time_limited}
use incident_desk.Query.Agent.Graph.{answer_query}
use incident_desk.Query.Agent.Graph.Checked.{IsAllowed, answer_query-OnlyAllowed}
use incident_desk.Query.Guard.{Sqlglot, safe_sql}
use incident_desk.Query.Guard.Admission.{Admits, LimitLaws, safe_sql-Admits}
use incident_desk.Query.Sql.{SqlTree, find_all, validate_relations}
use incident_desk.Query.Sql.Calendar.{Date}
use incident_desk.Query.Sql.Metrics.{mentions_average, named_targets, targets_or, validate_metrics}
use incident_desk.Query.Sql.Metrics.Average.{IsAverage, validate_metrics-IsAverage}
use incident_desk.Query.Sql.Periods.{month_asked, month_year, year_asked}
use incident_desk.Query.Sql.Periods.Kept.{KeepsMonth}
use incident_desk.Query.Sql.Periods.Months.{validate_period-KeepsMonth}
use incident_desk.Query.Sql.Periods.Searches.{validate_period}
use incident_desk.Query.Sql.Periods.Years.{KeepsYear, validate_period-KeepsYear}
use incident_desk.Query.Sql.Relations.{IsKeyed, validate_relations_iff}

module _ {T U : Type 0} (g : Sqlglot T) (trees : SqlTree U) (is_word : ℕ → Bool)
    (digit : ℕ → Option ℕ) (today : Date) where
  abbrev pub warehouse_checks : SqlChecks
  warehouse_checks = record {
    safe = safe_sql g;
    relations = validate_relations trees;
    metrics = validate_metrics trees is_word;
    period = validate_period trees digit today;
  }

  -- The SQL has been through the guard twice, and what it was between is keyed, computes an average
  -- order order value as defined if the question asks for one, and keeps the year and the month that
  -- the question names.
  pub record IsSound (question sql : String) : Type 0 where
    pub raw : String
    pub given : String
    pub once : Admits g raw given
    pub twice : Admits g given sql
    pub has_keys :
        (tree : U) × (trees.parse_one given ≡ ok tree)
        × All (IsKeyed trees) (find_all trees trees.is_select tree)
    pub average :
        mentions_average is_word question ≡ true
        → (tree : U) × (trees.parse_one given ≡ ok tree)
          × All (IsAverage trees) (targets_or trees tree (named_targets trees is_word tree))
    pub year :
        (y : ℕ)
        → year_asked digit today question ≡ some y
        → (tree : U) × (trees.parse_one given ≡ ok tree)
          × AnyOf (KeepsYear trees digit today y) (find_all trees trees.is_where tree)
    pub month :
        (m y : ℕ)
        → month_asked digit today question ≡ some m
        → month_year digit today question ≡ some y
        → (tree : U) × (trees.parse_one given ≡ ok tree)
          × AnyOf (KeepsMonth trees digit today m y) (find_all trees trees.is_where tree)

  abbrev pub RunsSound : String → DbCall → Type 0
  RunsSound question (explained sql) = Unit
  RunsSound question (executed sql) = IsSound question sql
  RunsSound question time_limited = Unit

  allowed-RunsSound :
      (laws : LimitLaws g) (question : String) (c : DbCall)
      → IsAllowed warehouse_checks question c
      → RunsSound question c
  allowed-RunsSound laws question (explained sql) a = tt
  allowed-RunsSound laws question time_limited a = tt
  allowed-RunsSound laws question (executed sql) a = record {
    raw = a.raw;
    given = a.given;
    once = safe_sql-Admits g laws a.raw a.given a.passed;
    twice = safe_sql-Admits g laws a.given sql a.passed_again;
    has_keys = (validate_relations_iff trees a.given).0 a.relations;
    average = λ h. validate_metrics-IsAverage trees is_word question a.given h a.metrics;
    year = λ y h. validate_period-KeepsYear trees digit today y question a.given h a.period;
    month =
        λ m y h k. validate_period-KeepsMonth trees digit today m y question a.given h k a.period;
  }

  pub answer_query-RunsSound :
      {V F : Type 0} (o : Services V F) (laws : LimitLaws g) (question : String)
      → All
          (RunsSound question)
          (answer_query o warehouse_checks question (record { events = []; calls = [] })).calls
  answer_query-RunsSound o laws question =
      All-map (IsAllowed warehouse_checks question) (RunsSound question)
        (answer_query o warehouse_checks question (record { events = []; calls = [] })).calls
        (allowed-RunsSound laws question)
        (answer_query-OnlyAllowed o warehouse_checks question (record { events = []; calls = [] })
          tt)
