-- ===== src/Worker/Process.antt =====
-- worker/incident_worker/main.py, `process`, and worker/incident_worker/harness.py, `gather`: a task
-- from its claim to its result. The delays for tests, the agent of a framework and the MCP server are
-- left out; the heartbeats are another thread, which only says that the lease is lost.
pub mod Ending
use incident_desk.Prelude.{
  Bool, Exec, List, Option, Result, String, [], class_name, err, false, if◌then◌else◌, length, lift,
  ltb, map, nat_eq, none, not, ok, permission_error, pure, runtime_error, some, string_eq, true, ℕ,
  ◌&&◌, ◌-◌, ◌==◌, ◌>>=◌, ◌>>◌,
}
use incident_desk.Json.Defs.{Value, dict, field, int, no_fields, string}
use incident_desk.Worker.Assemble.{assemble}
use incident_desk.Worker.Assemble.Relations.{of_source}
use incident_desk.Worker.Contracts.{
  ContextBundle, Evidence, RunContext, Source, logs, object_eq, source_eq,
}
use incident_desk.Worker.Investigation.{Model}
use incident_desk.Worker.Investigation.Publishing.{Investigation, investigate}
use incident_desk.Worker.Live.{live}
use incident_desk.Worker.Report.{ReportData, report, report_status}
use incident_desk.Worker.Session.{
  Answer, Page, Session, World, authorize, authorize_tool, call_task, event, hook, report_failure,
  send_result,
}

abbrev pub Recording : Type 0
Recording = List (Source × Page)

-- HARNESS, but for "deepagents"
pub data Harness : Type 0 where
  baseline langgraph mistral : Harness

-- What a checkpoint holds: the values of the graph, if its node has run.
pub record Saved : Type 0 where
  pub values : Option (ContextBundle × Recording)
  pub source_version : Option ℕ

pub data Outcome : Type 0 where
  by_rules : ReportData → Outcome
  by_language_model : Investigation → Outcome

-- The outside: the environment, the checkpoints of a generation, the transactions of the context cache
-- after their authorization, the sandbox, and the JSON texts. `archived` is what storing the recording
-- comes to, where there is an object store.
pub record Host : Type 0 where
  pub harness : Harness
  pub connect : Result (Unit {0})
  pub get_tuple : ℕ → Result (Option Saved)
  pub put_tuple : Saved → Result (Unit {0})
  pub known_bundle : Answer → Result (Option (ContextBundle × Recording))
  pub store_cached : Answer → ContextBundle → Recording → Result (Unit {0})
  pub sandbox : Option (List Value → Exec Session Value)
  pub archived : Option (Recording → Exec Session Value)
  pub lost : Bool
  pub outcome_json : Outcome → Value
  pub manifest : Recording → Outcome → Value
  pub callback_id : String

base_of : Outcome → ReportData
base_of (by_rules r) = r
base_of (by_language_model i) = i.base

mode_of : Outcome → String
mode_of (by_rules r) = r.mode
mode_of (by_language_model i) = "mistral"

-- result.get("answer_evidence", [])
answer_evidence_of : Outcome → List String
answer_evidence_of (by_rules r) = []
answer_evidence_of (by_language_model i) = i.answer_evidence

status_of : Outcome → String
unfolding base_of answer_evidence_of
status_of r = report_status (base_of r).evidence (answer_evidence_of r) (base_of r).missing

abbrev finish_summary : Outcome → Value
finish_summary r =
    dict
      (field "mode" (string (mode_of r)) (field "facts" (int (length (base_of r).facts)) no_fields))

abbrev saved_summary : RunContext → Value
saved_summary run = dict (field "generation" (int run.generation) no_fields)

abbrev lease_check : Host → Result (Unit {0})
lease_check h = if h.lost then err (runtime_error "lease_lost") else ok tt

-- A checkpoint with a report.
has_report : Option Saved → Option (Saved × (ContextBundle × Recording))
has_report none = none
has_report (some c) = elim c.values [ none ↦ none | some v ↦ some (c, v) ]

same_version : Option ℕ → ℕ → Bool
same_version none n = false
same_version (some m) n = m == n

module _ (w : World) (m : Model) (h : Host) (run : RunContext) where
  -- ContextCache.put
  put_in_cache : ContextBundle → Recording → Exec Session (Unit {0})
  unfolding authorize
  put_in_cache b recording = do
    scope ← authorize w "context"
    lift (
        if not (scope.watermark == run.source_version)
        then err (permission_error "source_changed")
        else h.store_cached scope b recording)

  gather_anew : Exec Session (ContextBundle × Recording)
  unfolding assemble live put_in_cache
  gather_anew = do made ← assemble (live w run) none none; put_in_cache made.0 made.1; pure made

  from_cache : Option (ContextBundle × Recording) → Exec Session (ContextBundle × Recording)
  unfolding gather_anew authorize event
  from_cache none = gather_anew
  from_cache (some (b, recording)) = do
    scope ← authorize w "memory"
    event w "cache_hit"
        (dict (field "scope" (string "reauthorized") (field "version" (string "1") no_fields)))
    pure (record b { memories = scope.memories }, recording)

  -- The node of the graph.
  gather_context : Exec Session (ContextBundle × Recording)
  unfolding from_cache authorize
  gather_context = do
    scope ← authorize w "context"
    known ← lift (h.known_bundle scope)
    from_cache known

  -- The report of the generation before, if the source is as it was.
  reuse_if : Answer → Saved → Exec Session (Option Saved)
  unfolding same_version
  reuse_if scope c =
      if scope.watermark == run.source_version && same_version c.source_version scope.watermark
      then (do lift (h.put_tuple c); pure (some c))
      else pure none

  reuse : Option (Saved × (ContextBundle × Recording)) → Exec Session (Option Saved)
  unfolding reuse_if authorize call_task
  reuse none = pure none
  reuse (some (c, v)) = do
    authorize w "context"
    scope ← call_task w (authorize_tool "context")
    reuse_if scope c

  -- The checkpoint that the graph starts from.
  checkpoint : Option Saved → Exec Session (Option Saved)
  unfolding reuse has_report
  checkpoint (some c) = pure (some c)
  checkpoint none =
      if ltb 1 run.generation && ltb 1 run.attempt
      then (do previous ← lift (h.get_tuple (run.generation - 1)); reuse (has_report previous))
      else pure none

  -- g.invoke: a graph that has values is not run again.
  run_context_graph : Option Saved → Exec Session (ContextBundle × Recording)
  unfolding gather_context has_report
  run_context_graph c = elim (has_report c) [ none ↦ gather_context | some (c, v) ↦ pure v ]

  by_harness : Harness → Option Saved → Exec Session (Outcome × Recording)
  unfolding assemble live report run_context_graph investigate
  by_harness baseline c = do
    made ← assemble (live w run) none none
    pure (by_rules (report w.repr made.0), made.1)
  by_harness langgraph c = do
    made ← run_context_graph c
    pure (by_rules (report w.repr made.0), made.1)
  by_harness mistral c = do
    made ← run_context_graph c
    answer ← investigate w m made.0
    pure (by_language_model answer, made.1)

  -- [e["snippet"] for e in result["evidence"] if e["source"] == "logs"]
  analyse : Option (List Value → Exec Session Value) → Outcome → Exec Session (Unit {0})
  unfolding base_of event
  analyse none r = pure tt
  analyse (some box) r = do
    found ← box (map (λ (e : Evidence). e.snippet) (of_source logs (base_of r).evidence))
    event w "sandbox_analysis" found
    pure tt

  archive : Option (Recording → Exec Session Value) → Recording → Exec Session (Unit {0})
  unfolding event
  archive none recording = pure tt
  archive (some put) recording = do
    pointer ← put recording
    event w "artifact_saved" pointer
    pure tt

  finish_task : Outcome → Recording → Exec Session Answer
  unfolding base_of mode_of status_of hook send_result
  finish_task r recording = do
    hook w "run_finished" (finish_summary r) true
    send_result w (status_of r) (h.outcome_json r) (h.manifest recording r) h.callback_id

  -- The body of the `try`.
  unfoldable pub process_body : Exec Session Answer
  unfolding checkpoint by_harness analyse archive finish_task event
  process_body = do
    lift h.connect
    current ← lift (h.get_tuple run.generation)
    start ← checkpoint current
    made ← by_harness h.harness start
    event w "checkpoint_saved" (saved_summary run)
    analyse h.sandbox made.0
    archive h.archived made.1
    lift (lease_check h)
    finish_task made.0 made.1

  -- The `except`: what the report of the failure comes to is ignored.
  failed_if : Result Answer → Session → Session
  unfolding call_task
  failed_if (ok a) s = s
  failed_if (err e) s = (call_task w (report_failure (class_name e)) s).1

  unfoldable pub process : Session → Session
  unfolding process_body failed_if
  process s = let (r, s') = process_body s in failed_if r s'
