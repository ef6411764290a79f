-- ===== src/Worker/Contracts.antt =====
-- worker/incident_worker/contracts.py: the data that the parts of the worker exchange, and the
-- constraints that pydantic checks when such a value is built. Times are microseconds on one clock.
use incident_desk.Prelude.{
  Bool, Eq, List, Option, String, [], all, arith, false, included, leb, length, nat_eq, string_eq,
  true, ℕ, ◌&&◌, ◌==◌, ◌↔◌, ◌∷◌, ◌≡◌,
}
use incident_desk.Json.Defs.{Fields, Value, array, dict, field, int, no_fields, string, texts}

pub data Source : Type 0 where
  logs deployments git runbook cluster : Source

-- The string that names the source.
abbrev pub source_name : Source → String
source_name logs = "logs"
source_name deployments = "deployments"
source_name git = "git"
source_name runbook = "runbook"
source_name cluster = "cluster"

abbrev pub same_source : Source → Source → Bool
same_source logs logs = true
same_source deployments deployments = true
same_source git git = true
same_source runbook runbook = true
same_source cluster cluster = true
same_source _ _ = false

pub same_source_iff : (a b : Source) → (same_source a b ≡ true) ↔ (a ≡ b)
same_source_iff logs b = ground arith
same_source_iff deployments b = ground arith
same_source_iff git b = ground arith
same_source_iff runbook b = ground arith
same_source_iff cluster b = ground arith

instance abbrev pub source_eq : Eq Source
source_eq = record { beq = same_source; beq_iff = same_source_iff }

pub data ObjectType : Type 0 where
  service deployment commit runbook_entry incident team : ObjectType

abbrev pub same_object : ObjectType → ObjectType → Bool
same_object service service = true
same_object deployment deployment = true
same_object commit commit = true
same_object runbook_entry runbook_entry = true
same_object incident incident = true
same_object team team = true
same_object _ _ = false

pub same_object_iff : (a b : ObjectType) → (same_object a b ≡ true) ↔ (a ≡ b)
same_object_iff service b = ground arith
same_object_iff deployment b = ground arith
same_object_iff commit b = ground arith
same_object_iff runbook_entry b = ground arith
same_object_iff incident b = ground arith
same_object_iff team b = ground arith

-- The string that names the type.
abbrev pub object_name : ObjectType → String
object_name service = "Service"
object_name deployment = "Deployment"
object_name commit = "Commit"
object_name runbook_entry = "Runbook"
object_name incident = "Incident"
object_name team = "Team"

instance abbrev pub object_eq : Eq ObjectType
object_eq = record { beq = same_object; beq_iff = same_object_iff }

pub record Budget : Type 0 where
  pub steps : ℕ
  pub seconds : ℕ
  pub output_bytes : ℕ
  pub model_calls : ℕ
  pub tokens : ℕ

abbrev between : ℕ → ℕ → ℕ → Bool
between low high n = leb low n && leb n high

unfoldable pub budget_ok : Budget → Bool
budget_ok b =
    between 1 32 b.steps
    && between 1 300 b.seconds
    && between 100 1048576 b.output_bytes
    && between 0 5 b.model_calls
    && between 1 32000 b.tokens

pub data Mode : Type 0 where
  anomalies search_terms all_logs : Mode

abbrev pub known_levels : List String
known_levels =
    "ERROR" ∷ "FATAL" ∷ "SEVERE" ∷ "FAILURE" ∷ "WARN" ∷ "WARNING" ∷ "CRITICAL" ∷ "ALERT" ∷ "EMERG"
    ∷ "INFO" ∷ "DEBUG" ∷ "TRACE" ∷ "UNKNOWN" ∷ []

pub record LogQuery : Type 0 where
  pub mode : Mode
  pub terms : List String
  pub levels : List String

unfoldable pub log_query_ok : LogQuery → Bool
log_query_ok q =
    leb (length q.terms) 6 && included q.levels known_levels && leb (length q.levels) 12

pub record RunContext : Type 0 where
  pub protocol_version : ℕ
  pub id : String
  pub subject : String
  pub team : String
  pub service : String
  pub symptom : String
  pub start : ℕ
  pub end : ℕ
  pub source_version : ℕ
  pub generation : ℕ
  pub attempt : ℕ
  pub owner : String
  pub lease_seconds : ℕ
  pub query : LogQuery
  pub budget : Budget

unfoldable pub run_ok : RunContext → Bool
unfolding budget_ok log_query_ok
run_ok r = r.protocol_version == 1 && log_query_ok r.query && budget_ok r.budget

pub record PlanStep : Type 0 where
  pub source : Source
  pub object : ObjectType
  pub path : List String
  pub limit : ℕ

unfoldable pub step_ok : PlanStep → Bool
step_ok s = between 1 100 s.limit

-- step.model_dump()
unfoldable pub step_json : PlanStep → Value
unfolding texts
step_json s = dict (
    field "source" (string (source_name s.source)) (
      field "object" (string (object_name s.object))
        (field "path" (array (texts s.path)) (field "limit" (int s.limit) no_fields))))

pub record QueryPlan : Type 0 where
  pub service : String
  pub start : ℕ
  pub end : ℕ
  pub steps : List PlanStep

unfoldable pub plan_ok : QueryPlan → Bool
unfolding step_ok
plan_ok p = leb (length p.steps) 12 && all step_ok p.steps

pub record Evidence : Type 0 where
  pub id : String
  pub source : Source
  pub locator : String
  pub collected_at : String
  pub event_time : String
  pub version : String
  pub sha256 : String
  pub snippet : Value
  pub team : String
  pub source_record : String
  pub available : Bool

-- The dictionaries that the bundle holds, with the keys that `assemble` writes.
pub record Fact : Type 0 where
  pub id : String
  pub kind : String
  pub text : String
  pub evidence : List String
  pub transform : String
  pub query_step : Value

pub record Conflict : Type 0 where
  pub text : String
  pub evidence : List String

pub record Freshness : Type 0 where
  pub source : Source
  pub observed_at : String
  pub watermark : String

pub data Object : Type 0 where
  service_object : (id team : String) → Object
  deployment_object : (id service : String) (evidence : List String) (valid_time : String) → Object
  commit_object : (id : Value) (deployment : String) (evidence : List String) → Object

-- The `retrieval` dictionary: the summary of the log source, then the counts of `assemble`.
pub record Retrieval : Type 0 where
  pub summary : Fields
  pub pages : ℕ
  pub evidence_count : ℕ
  pub sampled : Bool
  pub provenance : String

pub record Scope : Type 0 where
  pub team : String
  pub subject : String
  pub service : String

pub record ContextBundle : Type 0 where
  pub scope : Scope
  pub objects : List Object
  pub facts : List Fact
  pub evidence : List Evidence
  pub missing : List String
  pub conflicts : List Conflict
  pub freshness : List Freshness
  pub plan : QueryPlan
  pub token_budget : ℕ
  pub memories : Value
  pub retrieval : Option Retrieval
