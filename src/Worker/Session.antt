-- ===== src/Worker/Session.antt =====
-- worker/incident_worker/runtime.py: the application interface that a task is given. The control
-- plane, the sources and the clock are outside; `World` holds what they answer. Times are
-- milliseconds of the monotonic clock.
pub mod Allowance
pub mod Delivery
use incident_desk.Prelude.{
  Bool, Exec, List, Option, Result, String, [], contains, err, if◌then◌else◌, leb, length, ltb,
  nat_eq, not, ok, permission_error, raise, runtime_error, string_eq, suc, transport_error,
  value_error, zero, ℕ, ◌*◌, ◌+◌, ◌-◌, ◌∷◌,
}
use incident_desk.Json.Defs.{Fields, Value, dict, field, no_fields, string}
use incident_desk.Worker.Circuit.{Circuit}
use incident_desk.Worker.Contracts.{
  ContextBundle, Retrieval, RunContext, Source, object_eq, source_eq,
}

-- The requests that the worker makes.
pub data Request : Type 0 where
  authorize_tool : (tool : String) → Request
  report_event : (kind : String) (payload : Value) → Request
  report_result : (status : String) (report manifest : Value) (callback_id : String) → Request
  report_failure : (kind : String) → Request
  heartbeat : Request
  fetch_page : Source → (cursor : Option String) (limit : ℕ) → Request

-- A request as it is sent: with the identity of the task.
pub record Call : Type 0 where
  pub task : String
  pub owner : String
  pub generation : ℕ
  pub request : Request

-- What the worker reads from the JSON that the control plane answers.
pub record Answer : Type 0 where
  pub team : String
  pub subject : String
  pub service : String
  pub start : ℕ
  pub end : ℕ
  pub watermark : ℕ
  pub memories : Value

pub record SourceRow : Type 0 where
  pub id : String
  pub event_time : String
  pub content : Value
  pub locator : String
  pub version : String
  pub deleted : Bool

-- What a source answers; `retrieval` is added by the worker.
pub record Page : Type 0 where
  pub records : List SourceRow
  pub next_cursor : Option String
  pub watermark : String
  pub observed_at : String
  pub summary : Fields
  pub provenance : Option String
  pub retrieval : Option Retrieval

pub record DeploymentRow : Type 0 where
  pub id : String
  pub service : String
  pub app_id : String
  pub version : String
  pub commit_sha : String
  pub event_time : ℕ
  pub watermark : ℕ
  pub deleted : Bool

-- The outside: the k-th reading of the clock, the answer to the k-th request, the rows of the
-- deployments table at that moment, the date functions, the digest, Python's `repr` of a list or a
-- dict, the milliseconds that a tool took, pydantic's JSON text of a bundle, and whether
-- OBSERVE_NAMESPACE is set. An `err` is what `httpx` or `psycopg` raises, the statuses that
-- `raise_for_status` refuses included.
pub record World : Type 0 where
  pub clock : ℕ → ℕ
  pub answer : ℕ → Call → Result Answer
  pub page : ℕ → Call → Result Page
  pub rows : ℕ → Result (List DeploymentRow)
  pub utc_now : ℕ → String
  pub isoformat : ℕ → String
  pub sha256 : String → String
  pub repr : Value → String
  pub elapsed : ℕ → Value
  pub dump_json : ContextBundle → String
  pub observed : Bool

pub record Session : Type 0 where
  pub run : RunContext
  pub started : ℕ
  pub calls : ℕ
  pub ticks : ℕ
  pub sent : List Call
  pub circuits : Source → Circuit

abbrev pub hook_names : List String
hook_names =
    "plan_validated" ∷ "retrieval_returned" ∷ "context_assembled" ∷ "tool_before" ∷ "tool_after"
    ∷ "run_finished" ∷ []

abbrev pub hook_payload : String → Value → Value
hook_payload name summary = dict (
    field "name" (string name) (field "status" (string "pass") (field "summary" summary no_fields)))

-- What follows an attempt to send a result: only a transport error is tried again.
after_attempt : Result Answer → Session → Result Answer × Session → Result Answer × Session
after_attempt (err (transport_error name)) s again = again
after_attempt (ok a) s again = (ok a, s)
after_attempt (err e) s again = (err e, s)

module _ (w : World) where
  -- Runtime.__init__; the circuits belong to the process, and are passed on from task to task.
  unfoldable pub new_session : RunContext → (Source → Circuit) → ℕ → Session
  new_session run circuits ticks = record {
    run = run;
    started = w.clock ticks;
    calls = 0;
    ticks = ticks + 1;
    sent = [];
    circuits = circuits;
  }

  unfoldable pub read_clock : Session → ℕ × Session
  read_clock s = (w.clock s.ticks, record s { ticks = s.ticks + 1 })

  abbrev pub stamp : Request → Session → Call
  stamp request s = record {
    task = s.run.id;
    owner = s.run.owner;
    generation = s.run.generation;
    request = request;
  }

  abbrev send : Call → Session → Session
  send c s = record s { sent = c ∷ s.sent }

  -- Runtime.call
  unfoldable pub call_task : Request → Exec Session Answer
  call_task request s = (w.answer (length s.sent) (stamp request s), send (stamp request s) s)

  -- The POST to a source.
  unfoldable pub fetch : Source → Option String → ℕ → Exec Session Page
  fetch src cursor limit s =
      let c = stamp (fetch_page src cursor limit) s in (w.page (length s.sent) c, send c s)

  grant : String → Exec Session Answer
  unfolding call_task
  grant tool s = call_task (authorize_tool tool) (record s { calls = s.calls + 1 })

  -- Runtime.authorize; the clock is not read once the steps are used up.
  unfoldable pub authorize : String → Exec Session Answer
  unfolding grant read_clock
  authorize tool s =
      if leb s.run.budget.steps s.calls
      then raise (runtime_error "budget_exhausted") s
      else let (now, s') = read_clock s in
        if ltb (s.run.budget.seconds * 1000) (now - s.started)
        then raise (runtime_error "budget_exhausted") s'
        else grant tool s'

  unfoldable pub event : String → Value → Exec Session Answer
  unfolding call_task
  event kind payload = call_task (report_event kind payload)

  -- The loop of Runtime.result; `left` is the number of attempts after this one.
  result_loop : ℕ → Request → Exec Session Answer
  result_loop zero request s = call_task request s
  result_loop (suc left) request s =
      let (r, s') = call_task request s in after_attempt r s' (result_loop left request s')

  -- Runtime.result; `callback_id` is the fresh uuid.
  unfoldable pub send_result : String → Value → Value → String → Exec Session Answer
  unfolding result_loop after_attempt
  send_result status report manifest callback_id =
      result_loop 2 (report_result status report manifest callback_id)

  -- Runtime.hook
  unfoldable pub hook : String → Value → Bool → Exec Session Answer
  hook name summary policy s =
      if not (contains name hook_names)
      then raise (value_error "unknown_hook") s
      else if not policy
      then raise (permission_error "policy_hook_denied") s
      else event "hook" (hook_payload name summary) s
