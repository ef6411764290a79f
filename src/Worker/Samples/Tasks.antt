-- ===== src/Worker/Samples/Tasks.antt =====
-- A task of the second generation that starts from the report of the first.
use incident_desk.Prelude.{
  List, Option, [], false, if◌then◌else◌, nat_eq, none, ok, refl, some, string_eq, ◌==◌, ◌∷◌, ◌≡◌,
}
use incident_desk.Json.Defs.{null}
use incident_desk.Worker.Contracts.{RunContext, object_eq, source_eq}
use incident_desk.Worker.Process.{Host, langgraph, process, process_body}
use incident_desk.Worker.Process.Ending.{EndsWell, process-EndsWell}
use incident_desk.Worker.Report.{report_status}
use incident_desk.Worker.Samples.{all_closed, sample_run, sample_world}
use incident_desk.Worker.Samples.Investigations.{denying, one_log}
use incident_desk.Worker.Session.{
  Call, Request, authorize, call_task, event, hook, new_session, report_result, send_result,
}

abbrev later_run : RunContext
later_run = record sample_run { generation = 2; attempt = 2 }

abbrev sample_host : Host
sample_host = record {
  harness = langgraph;
  connect = ok tt;
  get_tuple = λ generation. ok (
      if generation == 1
      then some (record { values = some (one_log, []); source_version = some 7 })
      else none);
  put_tuple = λ c. ok tt;
  known_bundle = λ scope. ok none;
  store_cached = λ scope b recording. ok tt;
  sandbox = none;
  archived = none;
  lost = false;
  outcome_json = λ r. null;
  manifest = λ recording r. null;
  callback_id = "callback-1";
}

abbrev newest_request : List Call → Option Request
newest_request [] = none
newest_request (c ∷ cs) = some c.request

-- The report of the first generation is delivered.
report_reused :
    newest_request
      (process sample_world denying sample_host later_run
        (new_session sample_world later_run all_closed 0)).sent
    ≡ some (report_result "completed" null null "callback-1")
unfolding process process_body report_status authorize call_task event hook send_result new_session
report_reused = refl

process-EndsWell_example :
    EndsWell
      (process_body sample_world denying sample_host later_run
        (new_session sample_world later_run all_closed 0)).0
      (process sample_world denying sample_host later_run
        (new_session sample_world later_run all_closed 0)).sent
process-EndsWell_example =
    process-EndsWell sample_world denying sample_host later_run
      (new_session sample_world later_run all_closed 0)
