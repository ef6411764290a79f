-- ===== src/Worker/Investigation.antt =====
-- worker/incident_worker/mistral.py, `complete` and the part of `investigate` before it: the evidence
-- that the model is shown, and how much of it. The texts of the prompt are left out.
pub mod Publishing
pub mod Fitting
use incident_desk.Prelude.{
  Bool, List, Option, Result, String, and_then, dedup, err, false, if◌then◌else◌, length, ltb, map,
  min, nat_eq, none, not, ok, runtime_error, select, some, string_eq, suc, take, true, zero, ℕ,
  ◌++◌, ◌+◌, ◌/◌, ◌<>◌, ◌==◌, ◌||◌,
}
use incident_desk.Json.Defs.{Fields, Value, dict, field, no_fields, string}
use incident_desk.Json.Text.{show, take_chars}
use incident_desk.Worker.Assemble.Relations.{ids_of, of_source}
use incident_desk.Worker.Contracts.{
  ContextBundle, Evidence, Retrieval, RunContext, Scope, Source, logs, object_eq, source_eq,
}
use incident_desk.Worker.Gather.Base.{format}

pub record View : Type 0 where
  pub id : String
  pub source : Source
  pub time : String
  pub service : String
  pub locator : String
  pub content : Value

-- The `data` of the second message.
pub record Prompt : Type 0 where
  pub question : String
  pub scope : Scope
  pub start : ℕ
  pub end : ℕ
  pub retrieval : Option Retrieval
  pub missing : List String
  pub by_source : List (Source × ℕ)
  pub shown : ℕ
  pub evidence : List View

-- What `constrain_references` has put into the JSON schema: the ids of an enum, and whether the lists
-- of references must be empty.
pub record Schema : Type 0 where
  pub enum : List String
  pub none_left : Bool

pub record ChatRequest : Type 0 where
  pub prompt : Prompt
  pub schema : Schema
  pub name : String
  pub max_tokens : ℕ

-- choices[0] of the payload: `content` is what json.loads makes of the message, and `usage` the
-- dictionary that `complete` returns besides.
pub record Choice : Type 0 where
  pub finish_reason : String
  pub content : Result Value
  pub usage : Value

pub record ChatResponse : Type 0 where
  pub status_code : ℕ
  pub choice : Result Choice

pub record Claim : Type 0 where
  pub text : String
  pub evidence : List String

-- The class `Answer` of investigate.
pub record ModelAnswer : Type 0 where
  pub answer : String
  pub answer_evidence : List String
  pub claims : List Claim
  pub next_steps : List String

-- The outside: the key of the environment, the service, the sizes of the JSON texts in bytes, and
-- pydantic's reading of the fields and their types.
pub record Model : Type 0 where
  pub key : Option String
  pub post : ChatRequest → Result ChatResponse
  pub message_bytes : Prompt → ℕ
  pub schema_bytes : Schema → ℕ
  pub decode : Value → Result ModelAnswer

finished : Choice → Result (Value × Value)
finished c =
    if c.finish_reason == "length"
    then err (runtime_error "mistral_output_truncated")
    else and_then c.content (λ v. ok (v, c.usage))

received : ChatResponse → Result (Value × Value)
unfolding finished show
received r =
    if not (r.status_code == 200)
    then err (runtime_error ("mistral_http_" <> show r.status_code))
    else and_then r.choice finished

unfoldable pub complete : Model → ChatRequest → Result (Value × Value)
unfolding received
complete m request = elim m.key [
  | none ↦ err (runtime_error "mistral_not_configured")
  | some key ↦ and_then (m.post request) received
]

-- At most ten of the other sources, then at most thirty of the logs.
unfoldable pub allowed : ContextBundle → List Evidence
allowed b =
    take 10 (select (λ (e : Evidence). not (e.source == logs)) b.evidence)
    ++ take 30 (of_source logs b.evidence)

field_limit : String → ℕ
field_limit k =
    if k == "message" || k == "diff"
    then 500
    else if k == "config"
    then 1200
    else if k == "markdown"
    then 1500
    else 400

trimmed_value : String → Value → Value
unfolding field_limit take_chars
trimmed_value k (string s) = string (take_chars (field_limit k) s)
trimmed_value k v = v

trimmed : Fields → Fields
unfolding trimmed_value
trimmed no_fields = no_fields
trimmed (field k v fs) =
    let rest = trimmed fs in
    if k == "service_name" || k == "original_line" then rest else field k (trimmed_value k v) rest

content_of : (Value → String) → Value → Value
unfolding trimmed format take_chars
content_of repr (dict fs) = dict (trimmed fs)
content_of repr v = string (take_chars 1500 (format repr v))

view_of : (Value → String) → ContextBundle → Evidence → View
unfolding content_of
view_of repr b e = record {
  id = e.id;
  source = e.source;
  time = e.event_time;
  service = b.scope.service;
  locator = e.locator;
  content = content_of repr e.snippet;
}

-- The number of pieces of evidence of each source; the order is that of a set.
source_counts : List Evidence → List (Source × ℕ)
source_counts es =
    map (λ src. (src, length (of_source src es))) (dedup (map (λ (e : Evidence). e.source) es))

unfoldable pub prompt_of : (Value → String) → RunContext → ContextBundle → List Evidence → Prompt
unfolding view_of source_counts
prompt_of repr run b es = record {
  question = run.symptom;
  scope = b.scope;
  start = b.plan.start;
  end = b.plan.end;
  retrieval = b.retrieval;
  missing = b.missing;
  by_source = source_counts b.evidence;
  shown = length es;
  evidence = map (view_of repr b) es;
}

-- The schema when n of the allowed pieces are left. The enum of the last one stays when it goes.
unfoldable pub schema_of : List Evidence → ℕ → Schema
schema_of es zero = record { enum = ids_of (take 1 es); none_left = true }
schema_of es (suc n) = record { enum = ids_of (take (suc n) es); none_left = false }

abbrev pub output_budget : RunContext → ℕ
output_budget run = min 2200 (run.budget.tokens / 3)

module _ (repr : Value → String) (m : Model) (run : RunContext) (b : ContextBundle) where
  -- The size of the request with n of the allowed pieces.
  unfoldable pub request_size : ℕ → ℕ
  unfolding prompt_of schema_of allowed
  request_size n =
      m.message_bytes (prompt_of repr run b (take n (allowed b)))
      + m.schema_bytes (schema_of (allowed b) n)
      + output_budget run
      + 1000

  -- The loop that takes the last piece away while the request is too large, with n pieces left; the
  -- lists `evidence` and `allowed` of the code have the same length. It returns how many stay.
  unfoldable pub fit : ℕ → Result ℕ
  unfolding request_size
  fit zero =
      if ltb run.budget.tokens (request_size 0)
      then err (runtime_error "model_input_budget_exhausted")
      else ok 0
  fit (suc n) =
      let rest = fit n in if ltb run.budget.tokens (request_size (suc n)) then rest else ok (suc n)

  unfoldable pub chat_request : ℕ → ChatRequest
  unfolding prompt_of schema_of
  chat_request n = record {
    prompt = prompt_of repr run b (take n (allowed b));
    schema = schema_of (allowed b) n;
    name = "incident_answer";
    max_tokens = output_budget run;
  }
