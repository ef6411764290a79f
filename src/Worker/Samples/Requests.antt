-- ===== src/Worker/Samples/Requests.antt =====
-- A request to the context API with the right key.
use incident_desk.Prelude.{Bool, Result, [], false, none, ok, refl, some, true, ◌≡◌}
use incident_desk.Json.Defs.{hashable, index, method_get, truthy}
use incident_desk.Json.Text.{dumps, sort_keys}
use incident_desk.Worker.Api.{
  Reply, bundle_reply, compare_keys, query_context, refused, reply_of, same_scope, scoped_context,
}
use incident_desk.Worker.Api.Scoped.{IsKept, query_context-IsKept}
use incident_desk.Worker.Assemble.{assemble}
use incident_desk.Worker.Assemble.Relations.{all_links}
use incident_desk.Worker.Circuit.{call}
use incident_desk.Worker.Gather.{
  available_rows, fresh, more_pages, redact_page, run_steps, use_page,
}
use incident_desk.Worker.Gather.Base.{add_missing, on_session, when_true}
use incident_desk.Worker.Gather.Row.{
  add_row, add_rows, add_versions, check_owner, describe, evidence_id, evidence_of, owner_of,
  record_row,
}
use incident_desk.Worker.Live.{live}
use incident_desk.Worker.Plan.{resolve, validate_plan}
use incident_desk.Worker.Redaction.{redact}
use incident_desk.Worker.Samples.{all_closed, sample_plan, sample_run, sample_world}
use incident_desk.Worker.Session.{authorize, event, fetch, new_session}

query_context-IsKept_example :
    IsKept sample_world sample_run
      (some sample_plan)
      "k"
      "k"
      (query_context sample_world sample_run (some sample_plan) "k" "k" all_closed 0)
query_context-IsKept_example =
    query_context-IsKept sample_world sample_run (some sample_plan) "k" "k" all_closed 0

abbrev is_bundle : Result Reply → Bool
is_bundle (ok (bundle_reply b)) = true
is_bundle r = false

-- The task's scope is that of the control plane, and the answer is a bundle.
bundle_served :
    is_bundle (query_context sample_world sample_run (some sample_plan) "k" "k" all_closed 0).0
    ≡ true
unfolding assemble live validate_plan on_session event run_steps new_session call fetch more_pages
    use_page when_true redact_page available_rows fresh add_rows add_row check_owner owner_of
    method_get redact resolve dumps sort_keys record_row describe add_versions truthy hashable index
    add_missing all_links evidence_of evidence_id query_context scoped_context same_scope authorize
    reply_of compare_keys
bundle_served = refl

wrong_key_refused :
    (query_context sample_world sample_run none "x" "k" all_closed 0)
    ≡ (ok (refused 401 "service_identity_required"), [])
unfolding query_context compare_keys
wrong_key_refused = refl
