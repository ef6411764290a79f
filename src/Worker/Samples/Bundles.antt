-- ===== src/Worker/Samples/Bundles.antt =====
-- The sample task, assembled.
use incident_desk.Prelude.{
  List, Result, String, [], err, false, http_status, none, ok, refl, some, true, ◌∷◌, ◌≡◌,
}
use incident_desk.Json.Defs.{hashable, index, method_get, null, truthy}
use incident_desk.Json.Text.{dumps, has_substring, sort_keys}
use incident_desk.Worker.Assemble.{assemble, requested}
use incident_desk.Worker.Assemble.Extent.{Answers, assemble-Answers}
use incident_desk.Worker.Assemble.Grounding.{IsGrounded, assemble-IsGrounded}
use incident_desk.Worker.Assemble.Relations.{all_links}
use incident_desk.Worker.Circuit.{call}
use incident_desk.Worker.Contracts.{ContextBundle, Source, deployments, git, logs, runbook}
use incident_desk.Worker.Gather.{
  available_rows, fresh, is_fatal, more_pages, redact_page, run_steps, use_page,
}
use incident_desk.Worker.Gather.Base.{
  Gather, Tools, add_missing, find_record, nothing_yet, on_session, when_true,
}
use incident_desk.Worker.Gather.Ledger.{evidence_ids}
use incident_desk.Worker.Gather.Outcomes.{HooksReturn, run_steps_raises}
use incident_desk.Worker.Gather.Row.{
  add_row, add_rows, add_versions, check_owner, describe, evidence_id, evidence_of, fact_of,
  owner_of, record_row,
}
use incident_desk.Worker.Live.{assemble_live, live}
use incident_desk.Worker.Live.Allowance.{assemble_live-WithinBudget}
use incident_desk.Worker.Plan.{default_plan, resolve, validate_plan}
use incident_desk.Worker.Redaction.{redact}
use incident_desk.Worker.Replay.{Case, Checks, current, passes, replay}
use incident_desk.Worker.Replay.Quality.{replay-grounding}
use incident_desk.Worker.Report.{report}
use incident_desk.Worker.Samples.{
  all_closed, log_row, log_step, page_with, sample_plan, sample_run, sample_session, sample_world,
}
use incident_desk.Worker.Session.{
  Page, Session, SourceRow, World, call_task, event, fetch, hook, new_session,
}
use incident_desk.Worker.Session.Allowance.{WithinBudget}

abbrev pub outcome : Result (ContextBundle × List (Source × Page)) × Session
outcome = assemble (live sample_world sample_run) (some sample_plan) none sample_session

abbrev ids_of_outcome : Result (ContextBundle × List (Source × Page)) → List String
ids_of_outcome (ok (b, records)) = evidence_ids b.evidence
ids_of_outcome (err e) = []

outcome_evidence :
    ids_of_outcome outcome.0 ≡ "logs:l1:0123456789ab" ∷ "deployments:d1:0123456789ab" ∷ []
unfolding assemble live validate_plan on_session event run_steps new_session call fetch more_pages
    use_page when_true redact_page available_rows fresh add_rows add_row check_owner owner_of
    method_get redact resolve dumps sort_keys record_row describe add_versions truthy hashable index
    add_missing all_links evidence_of evidence_id
outcome_evidence = refl

abbrev taken_bundle : Result (ContextBundle × List (Source × Page)) → ContextBundle
taken_bundle (ok (b, records)) = b
taken_bundle (err e) = record {
  scope = record { team = ""; subject = ""; service = "" };
  objects = [];
  facts = [];
  evidence = [];
  missing = [];
  conflicts = [];
  freshness = [];
  plan = sample_plan;
  token_budget = 0;
  memories = null;
  retrieval = none;
}

abbrev taken_records : Result (ContextBundle × List (Source × Page)) → List (Source × Page)
taken_records (ok (b, records)) = records
taken_records (err e) = []

abbrev sample_bundle : ContextBundle
sample_bundle = taken_bundle outcome.0

abbrev sample_records : List (Source × Page)
sample_records = taken_records outcome.0

assemble-IsGrounded_example : IsGrounded (live sample_world sample_run) sample_bundle
unfolding assemble live validate_plan on_session event run_steps new_session call fetch more_pages
    use_page when_true redact_page available_rows fresh add_rows add_row check_owner owner_of
    method_get redact resolve dumps sort_keys record_row describe add_versions truthy hashable index
    add_missing all_links evidence_of evidence_id
assemble-IsGrounded_example =
    assemble-IsGrounded (live sample_world sample_run) (some sample_plan) none sample_session
      outcome.1 sample_bundle sample_records refl

assemble-Answers_example :
    (requested (live sample_world sample_run) (some sample_plan) ≡ ok sample_bundle.plan)
    × Answers (live sample_world sample_run) sample_bundle.plan sample_bundle
unfolding assemble live validate_plan on_session event run_steps new_session call fetch more_pages
    use_page when_true redact_page available_rows fresh add_rows add_row check_owner owner_of
    method_get redact resolve dumps sort_keys record_row describe add_versions truthy hashable index
    add_missing all_links evidence_of evidence_id
assemble-Answers_example =
    assemble-Answers (live sample_world sample_run) (some sample_plan) none sample_session outcome.1
      sample_bundle sample_records refl

assemble_live-WithinBudget_example :
    WithinBudget sample_run (assemble_live sample_world sample_run all_closed 0).1
assemble_live-WithinBudget_example = assemble_live-WithinBudget sample_world sample_run all_closed 0

-- The recording of a case: one release, no logs, and nothing else.
abbrev recorded_page : List SourceRow → Page
recorded_page rows = page_with rows none

abbrev sample_case : Case
sample_case = record {
  id = "case-1";
  split = "dev";
  run = sample_run;
  recording =
      (deployments, recorded_page [])
      ∷ (logs, recorded_page (log_row ∷ []))
      ∷ (git, recorded_page [])
      ∷ (runbook, recorded_page [])
      ∷ [];
  expected = record { facts = 1; candidates = 1; conflicts = 0; missing = 3 };
}

abbrev taken_checks : Result Checks → Checks
taken_checks (ok c) = c
taken_checks (err e) = record {
  fact_count = false;
  candidate_count = false;
  conflicts = false;
  missing = false;
  grounding = false;
  no_writes = false;
}

abbrev sample_checks : Checks
sample_checks = taken_checks (replay sample_world sample_case current)

sample_case_passes : passes sample_checks ≡ true
unfolding replay passes validate_plan default_plan on_session run_steps find_record use_page
    when_true redact_page available_rows add_missing add_rows add_row check_owner owner_of
    method_get redact hashable index truthy dumps sort_keys assemble add_versions describe
    evidence_id evidence_of record_row resolve report all_links has_substring fact_of
sample_case_passes = refl

replay-grounding_example : sample_checks.grounding ≡ true
unfolding replay validate_plan default_plan on_session run_steps find_record use_page when_true
    redact_page available_rows add_missing add_rows add_row check_owner owner_of method_get redact
    hashable index truthy dumps sort_keys assemble add_versions describe evidence_id evidence_of
    record_row resolve report all_links has_substring
replay-grounding_example = replay-grounding sample_world sample_case current sample_checks refl

-- A world whose control plane answers, and whose sources are forbidden.
abbrev forbidden_world : World
forbidden_world = record sample_world { page = λ k c. err (http_status 403) }

abbrev forbidden : Tools Session
forbidden = live forbidden_world sample_run

live-HooksReturn : HooksReturn forbidden
unfolding HooksReturn live hook event call_task
live-HooksReturn name payload s known = rw known refl

abbrev fresh_start : Gather Session
fresh_start = nothing_yet (new_session forbidden_world sample_run all_closed 0)

run_steps_raises_example : is_fatal (http_status 403) ≡ true
unfolding live validate_plan on_session event run_steps new_session call fetch more_pages use_page
    when_true redact_page available_rows fresh add_rows add_row check_owner owner_of method_get
    redact resolve dumps sort_keys record_row describe add_versions truthy hashable index
    add_missing all_links evidence_of evidence_id
run_steps_raises_example =
    run_steps_raises forbidden live-HooksReturn (log_step ∷ []) fresh_start
      (run_steps forbidden none (log_step ∷ []) fresh_start).1 (http_status 403) refl
