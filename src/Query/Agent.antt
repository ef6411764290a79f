-- ===== src/Query/Agent.antt =====
-- query/app/agent: the state of the graph that answers a question, and its nodes. The language model,
-- the searches and the warehouse are outside; the checks of the SQL are an interface, which
-- Query/Guard and Query/Sql fill. The prompts and the logs are left out.
pub mod Nodes
pub mod Graph
pub mod Warehouse
use incident_desk.Prelude.{
  Exc, Exec, List, Option, Result, String, err, none, ok, other_error, some, ℕ, ◌∷◌,
}
use incident_desk.Json.Defs.{Value}
use incident_desk.Query.Merge.{ColumnInfo, MetricInfo, Repository, TableState, ValueInfo}
use incident_desk.Query.Retrieval.{Scores}

pub record DateInfo : Type 0 where
  pub date : String
  pub weekday : String
  pub quarter : String

pub record DbInfo : Type 0 where
  pub dialect : String
  pub version : String

-- DataAgentState; a key that is not set is none.
pub record AgentState : Type 0 where
  pub query : String
  pub keywords : Option (List String)
  pub column_infos : Option (List ColumnInfo)
  pub metric_candidates : Option (List MetricInfo)
  pub value_infos : Option (List ValueInfo)
  pub table_infos : Option (List TableState)
  pub metric_infos : Option (List MetricInfo)
  pub date_info : Option DateInfo
  pub db_info : Option DbInfo
  pub sql : Option String
  pub error : Option (Option String)

-- What a node returns: the keys that it sets.
pub record Update : Type 0 where
  pub keywords : Option (List String)
  pub column_infos : Option (List ColumnInfo)
  pub metric_candidates : Option (List MetricInfo)
  pub value_infos : Option (List ValueInfo)
  pub table_infos : Option (List TableState)
  pub metric_infos : Option (List MetricInfo)
  pub date_info : Option DateInfo
  pub db_info : Option DbInfo
  pub sql : Option String
  pub error : Option (Option String)

abbrev pub no_update : Update
no_update = record {
  keywords = none;
  column_infos = none;
  metric_candidates = none;
  value_infos = none;
  table_infos = none;
  metric_infos = none;
  date_info = none;
  db_info = none;
  sql = none;
  error = none;
}

abbrev pub newer {ℓ} : {A : Type ℓ} → Option A → Option A → Option A
newer none old = old
newer (some a) old = some a

unfoldable pub apply_update : Update → AgentState → AgentState
apply_update u s = record s {
  keywords = newer u.keywords s.keywords;
  column_infos = newer u.column_infos s.column_infos;
  metric_candidates = newer u.metric_candidates s.metric_candidates;
  value_infos = newer u.value_infos s.value_infos;
  table_infos = newer u.table_infos s.table_infos;
  metric_infos = newer u.metric_infos s.metric_infos;
  date_info = newer u.date_info s.date_info;
  db_info = newer u.db_info s.db_info;
  sql = newer u.sql s.sql;
  error = newer u.error s.error;
}

pub data Status : Type 0 where
  running succeeded failed : Status

-- The messages of the stream.
pub data Message : Type 0 where
  progress : String → Status → Message
  answered : List Value → (sql : String) → (row_limit : ℕ) → Message
  gave_up : String → Message

-- The requests to the warehouse.
pub data DbCall : Type 0 where
  explained executed : String → DbCall
  -- SET SESSION MAX_EXECUTION_TIME=5000
  time_limited : DbCall

-- What has been sent to the stream and to the warehouse, the newest first.
pub record Trace : Type 0 where
  pub events : List Message
  pub calls : List DbCall

-- safe_sql, validate_relations, validate_metrics and validate_period
pub record SqlChecks : Type 0 where
  pub safe : String → Result String
  pub relations : String → Result (Unit {0})
  pub metrics : String → String → Result (Unit {0})
  pub period : String → String → Result (Unit {0})

-- The outside. `explain`, `limit_time` and `execute` get the number of requests made before.
pub record Services (V F : Type 0) : Type 0 where
  pub tags : String → Result (List String)
  pub extend_columns : String → Result Value
  pub extend_metrics : String → Result Value
  pub extend_values : String → Result Value
  pub embed : List String → Result (List V)
  pub search_columns : V → Result (List ColumnInfo)
  pub search_metrics : V → Result (List MetricInfo)
  pub search_values : String → Result (List ValueInfo)
  pub scores : Scores F
  pub repository : Repository
  pub select_tables : String → List TableState → Result Value
  pub select_metrics : String → List MetricInfo → Result Value
  pub today : String
  pub weekday : String
  pub month : ℕ
  pub db : Result DbInfo
  pub write_sql : AgentState → Result String
  pub fix_sql : AgentState → String → Option String → Result String
  pub explain : ℕ → String → Result (Unit {0})
  pub limit_time : ℕ → Result (Unit {0})
  pub execute : ℕ → String → Result (List Value)
  pub message : Exc → String
  -- Which node of a round is resumed, turn by turn.
  pub turns : Trace → List ℕ

abbrev pub emit : Message → Trace → Trace
emit e t = record t { events = e ∷ t.events }

abbrev pub tell : Message → Exec Trace (Unit {0})
tell e t = (ok tt, emit e t)

-- state[key]
abbrev pub need {ℓ} : {A : Type ℓ} → Option A → Result A
need none = err (other_error "KeyError")
need (some a) = ok a

abbrev pub ended : {A : Type 0} → String → Result A → Exec Trace A
ended step (ok a) t = (ok a, t)
ended step (err e) t = (err e, emit (progress step failed) t)

-- writer(running); try: ... except Exception: writer(error); raise
unfoldable pub in_step : {A : Type 0} → String → Exec Trace A → Exec Trace A
in_step step body t = let (r, t') = body (emit (progress step running) t) in ended step r t'
