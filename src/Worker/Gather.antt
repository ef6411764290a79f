-- ===== src/Worker/Gather.antt =====
-- worker/incident_worker/context.py, `assemble`: the loop over the steps of a plan. The runtime is
-- an interface, since the worker runs it live and the evaluation runs it offline; what the loop
-- accumulates is the state `Gather`, which outlives an exception that a step catches.
pub mod Base
pub mod Row
pub mod Ledger
pub mod Steps
pub mod Outcomes
pub mod Pages
pub mod Sessions
use incident_desk.Prelude.{
  Bool, Exc, Exec, List, Option, Result, String, [], class_name, contains, err, false, http_status,
  if◌then◌else◌, length, map, nat_eq, none, not, ok, permission_error, pure, raise, runtime_error,
  select, some, string_eq, suc, true, zero, ℕ, ◌++◌, ◌+◌, ◌<>◌, ◌==◌, ◌>>=◌, ◌>>◌, ◌||◌, ◌∷◌,
}
use incident_desk.Json.Defs.{Fields, Value, dict, field, int, no_fields, string}
use incident_desk.Worker.Contracts.{
  PlanStep, Retrieval, Source, logs, object_eq, source_eq, source_name,
}
use incident_desk.Worker.Gather.Base.{
  Gather, Tools, add_missing, find_record, has_next, on_session, set_record, when_true,
}
use incident_desk.Worker.Gather.Row.{add_rows}
use incident_desk.Worker.Redaction.{redact, redact_fields, redact_text}
use incident_desk.Worker.Session.{Page, SourceRow, authorize, hook}

-- The records of a further page that are not known yet.
unfoldable pub fresh : List SourceRow → List SourceRow → List SourceRow
fresh known more = select (λ r. not (contains r.id (map (λ (k : SourceRow). k.id) known))) more

abbrev extended : Page → Page → Page
extended out more = record out {
  records = out.records ++ fresh out.records more.records;
  next_cursor = more.next_cursor;
}

-- redact(out), over the texts of a page
redact_row : SourceRow → SourceRow
redact_row r = record {
  id = redact_text r.id;
  event_time = redact_text r.event_time;
  content = redact r.content;
  locator = redact_text r.locator;
  version = redact_text r.version;
  deleted = r.deleted;
}

abbrev redact_option : Option String → Option String
redact_option none = none
redact_option (some s) = some (redact_text s)

abbrev redact_retrieval : Option Retrieval → Option Retrieval
redact_retrieval none = none
redact_retrieval (some r) =
    some (record r { summary = redact_fields r.summary; provenance = redact_text r.provenance })

unfoldable pub redact_page : Page → Page
unfolding redact_row
redact_page p = record {
  records = map redact_row p.records;
  next_cursor = redact_option p.next_cursor;
  watermark = redact_text p.watermark;
  observed_at = redact_text p.observed_at;
  summary = redact_fields p.summary;
  provenance = redact_option p.provenance;
  retrieval = redact_retrieval p.retrieval;
}

-- out.get("provenance", "unknown")
abbrev provenance_of : Page → String
provenance_of p = elim p.provenance [ none ↦ "unknown" | some s ↦ s ]

abbrev retrieval_of : Page → ℕ → Retrieval
retrieval_of p pages = record {
  summary = p.summary;
  pages = pages;
  evidence_count = length p.records;
  sampled = has_next p.next_cursor;
  provenance = provenance_of p;
}

abbrev or_kept : Option Retrieval → Option Retrieval → Option Retrieval
or_kept none kept = kept
or_kept (some r) kept = some r

-- A status that ends the investigation: the lease or the permission is gone.
unfoldable pub is_fatal : Exc → Bool
is_fatal (permission_error _) = true
is_fatal (http_status status) = status == 401 || status == 403 || status == 409
is_fatal _ = false

abbrev source_payload : Source → Fields → Value
source_payload src more = dict (field "source" (string (source_name src)) more)

abbrev truncation_note : Source → String
truncation_note src = source_name src <> ": truncated; 已按查询条件检索并分层取样；证据预算内分页结束，仍有更多记录（truncated）"

abbrev no_records_note : Source → String
no_records_note src = source_name src <> ": no accessible records in scope"

abbrev failure_note : Source → Exc → String
failure_note src e = source_name src <> ": " <> class_name e

unfoldable pub available_rows : Page → List SourceRow
available_rows p = select (λ r. not r.deleted) p.records

module _ {S : Type 0} (t : Tools S) where
  -- if next_cursor: ...
  abbrev on_cursor : {A : Type 0} → Option String → Exec S A → (String → Exec S A) → Exec S A
  on_cursor none done go = done
  on_cursor (some cursor) done go = if cursor == "" then done else go cursor

  -- The `while` loop over the pages of the logs; `left` is the number of pages that may follow.
  unfoldable pub more_pages : ℕ → PlanStep → Page → ℕ → Exec S (Page × ℕ)
  more_pages zero step out pages = pure (out, pages)
  more_pages (suc left) step out pages = on_cursor out.next_cursor (pure (out, pages)) λ cursor. do
    more ← t.query step.source step (some cursor)
    more_pages left step (extended out more) (pages + 1)

  pub keep_retrieval : Page → ℕ → Exec (Gather S) Page
  keep_retrieval out pages g =
      let found = retrieval_of out pages in
      (ok (record out { retrieval = some found }), record g { retrieval = some found })

  all_pages : PlanStep → Page → Exec (Gather S) Page
  unfolding keep_retrieval
  all_pages step first = do
    (out, pages) ← on_session (more_pages 2 step first 1)
    keep_retrieval out pages

  query_live : PlanStep → Exec (Gather S) Page
  unfolding all_pages
  query_live step = do
    first ← on_session (t.query step.source step none)
    (if step.source == logs then all_pages step first else pure first)

  query_recorded : PlanStep → List (Source × Page) → Exec (Gather S) Page
  query_recorded step recorded = elim (find_record step.source recorded) [
    | none ↦ raise (runtime_error ("unreplayable_missing_recording:" <> source_name step.source))
    | some out ↦ do on_session (t.authorize (source_name step.source)); pure out
  ]

  query_step : Option (List (Source × Page)) → PlanStep → Exec (Gather S) Page
  unfolding query_live query_recorded
  query_step none step = query_live step
  query_step (some recorded) step = query_recorded step recorded

  -- `retrieval` and `records[source]` after redaction
  store_page : PlanStep → Page → Exec (Gather S) (Unit {0})
  store_page step out g = (
    ok tt,
    record g {
      retrieval = if step.source == logs then or_kept out.retrieval g.retrieval else g.retrieval;
      records = set_record step.source out g.records;
    },
  )

  add_freshness : PlanStep → Page → Exec (Gather S) (Unit {0})
  add_freshness step out g = (
    ok tt,
    record g {
      freshness =
          g.freshness
          ++ record {
            source = step.source;
            observed_at = out.observed_at;
            watermark = out.watermark;
          }
            ∷ [];
    },
  )

  ok_payload : PlanStep → Gather S → Value
  ok_payload step g =
      source_payload step.source
        (field "status" (string "ok") (field "milliseconds" (t.elapsed g.session) no_fields))

  hook_after : PlanStep → Exec (Gather S) (Unit {0})
  unfolding ok_payload
  hook_after step g = on_session (t.hook "tool_after" (ok_payload step g)) g

  -- What happens to the page of a step.
  unfoldable pub use_page : PlanStep → Page → Exec (Gather S) (Unit {0})
  unfolding store_page add_freshness hook_after
  use_page step out = do
    store_page step out
    on_session (
        t.hook "retrieval_returned"
          (source_payload step.source (field "count" (int (length out.records)) no_fields)))
    add_freshness step out
    when_true (has_next out.next_cursor) (add_missing (truncation_note step.source))
    when_true (length (available_rows out) == 0) (add_missing (no_records_note step.source))
    add_rows t step out.observed_at (available_rows out)
    hook_after step

  -- The `try` block.
  unfoldable pub attempt_step :
      Option (List (Source × Page)) → PlanStep → Exec (Gather S) (Unit {0})
  unfolding query_step
  attempt_step recorded step = do out ← query_step recorded step; use_page step (redact_page out)

  abbrev is_recorded : Option (List (Source × Page)) → Bool
  is_recorded none = false
  is_recorded (some _) = true

  -- The `except` clauses.
  degrade : Option (List (Source × Page)) → PlanStep → Exc → Exec (Gather S) (Unit {0})
  unfolding is_fatal
  degrade recorded step e = if is_fatal e || is_recorded recorded then raise e else do
    add_missing (failure_note step.source e)
    on_session (
        t.hook "tool_after" (
          source_payload step.source (
            field "status" (string "error")
              (field "error_class" (string (class_name e)) no_fields))))

  pub catch :
      Option (List (Source × Page)) → PlanStep → Result (Unit {0}) → Exec (Gather S) (Unit {0})
  unfolding degrade
  catch recorded step (ok _) g = (ok tt, g)
  catch recorded step (err e) g = degrade recorded step e g

  -- The body of `for step in plan.steps`.
  pub run_step : Option (List (Source × Page)) → PlanStep → Exec (Gather S) (Unit {0})
  unfolding catch attempt_step
  run_step recorded step = do
    on_session (t.hook "tool_before" (source_payload step.source no_fields))
    (λ g. let (r, g') = attempt_step recorded step g in catch recorded step r g')

  unfoldable pub run_steps :
      Option (List (Source × Page)) → List PlanStep → Exec (Gather S) (Unit {0})
  unfolding run_step
  run_steps recorded [] = pure tt
  run_steps recorded (step ∷ rest) = do run_step recorded step; run_steps recorded rest
