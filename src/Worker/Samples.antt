-- ===== src/Worker/Samples.antt =====
-- Concrete runs of the worker: a task, a world that answers it, and what the parts make of it.
pub mod Parts
pub mod Bundles
pub mod Entries
pub mod Snapshots
pub mod Investigations
pub mod Requests
pub mod Tasks
use incident_desk.Prelude.{
  List, Option, Result, String, [], err, false, http_status, none, ok, some, ◌∷◌,
}
use incident_desk.Json.Defs.{array, dict, field, int, no_fields, no_items, string}
use incident_desk.Worker.Circuit.{Circuit, closed}
use incident_desk.Worker.Contracts.{
  PlanStep, QueryPlan, RunContext, Source, anomalies, deployment, deployments, logs, runbook,
  runbook_entry, service, team,
}
use incident_desk.Worker.Session.{
  Answer, DeploymentRow, Page, Request, Session, SourceRow, World, fetch_page, new_session,
}

abbrev pub sample_run : RunContext
sample_run = record {
  protocol_version = 1;
  id = "task-1";
  subject = "user-1";
  team = "payments";
  service = "svc-17";
  symptom = "timeouts";
  start = 100;
  end = 200;
  source_version = 7;
  generation = 1;
  attempt = 1;
  owner = "worker-a";
  lease_seconds = 30;
  query = record { mode = anomalies; terms = []; levels = [] };
  budget = record { steps = 8; seconds = 60; output_bytes = 4096; model_calls = 1; tokens = 1000 };
}

abbrev pub sample_answer : Answer
sample_answer = record {
  team = "payments";
  subject = "user-1";
  service = "svc-17";
  start = 100;
  end = 200;
  watermark = 7;
  memories = array no_items;
}

abbrev pub log_row : SourceRow
log_row = record {
  id = "l1";
  event_time = "t1";
  content = dict (
      field "service_name" (string "checkout-api") (
        field "message" (string "pool is full; token=abc")
          (field "release" (string "v2") no_fields)));
  locator = "logs://l1";
  version = "1";
  deleted = false;
}

abbrev pub page_with : List SourceRow → Option String → Page
page_with rows next = record {
  records = rows;
  next_cursor = next;
  watermark = "7";
  observed_at = "now";
  summary = no_fields;
  provenance = none;
  retrieval = none;
}

-- The logs have two pages; the runbook is out of reach.
abbrev sample_page : Request → Result Page
sample_page (fetch_page logs none limit) = ok (page_with (log_row ∷ []) (some "2"))
sample_page (fetch_page logs (some cursor) limit) = ok (page_with (log_row ∷ []) none)
sample_page (fetch_page runbook cursor limit) = err (http_status 404)
sample_page _ = ok (page_with [] none)

abbrev release_row : DeploymentRow
release_row = record {
  id = "d1";
  service = "svc-17";
  app_id = "svc-17";
  version = "v3";
  commit_sha = "c1";
  event_time = 120;
  watermark = 3;
  deleted = false;
}

abbrev pub sample_world : World
sample_world = record {
  clock = λ k. k;
  answer = λ k c. ok sample_answer;
  page = λ k c. sample_page c.request;
  rows = λ k. ok (release_row ∷ []);
  utc_now = λ k. "now";
  isoformat = λ n. "then";
  sha256 = λ s. "0123456789abcdef";
  repr = λ v. "";
  elapsed = λ k. int 1;
  dump_json = λ b. "{}";
  observed = false;
}

abbrev pub all_closed : Source → Circuit
all_closed src = closed

abbrev pub sample_session : Session
sample_session = new_session sample_world sample_run all_closed 0

abbrev pub log_step : PlanStep
log_step = record { source = logs; object = service; path = "Service" ∷ []; limit = 20 }

abbrev pub release_step : PlanStep
release_step = record {
  source = deployments;
  object = deployment;
  path = "Service" ∷ "deployments" ∷ [];
  limit = 50;
}

abbrev pub runbook_step : PlanStep
runbook_step = record {
  source = runbook;
  object = runbook_entry;
  path = "Service" ∷ "runbook" ∷ [];
  limit = 50;
}

abbrev pub sample_plan : QueryPlan
sample_plan = record {
  service = "svc-17";
  start = 100;
  end = 200;
  steps = log_step ∷ release_step ∷ runbook_step ∷ [];
}
