-- ===== src/Worker/Samples/Parts.antt =====
-- The parts of the worker at concrete inputs.
use incident_desk.Prelude.{
  List, Option, Result, String, [], arith, err, false, http_status, length, lift, none, ok, pure,
  refl, some, transport_error, true, ℕ, ◌+◌, ◌↔◌, ◌∷◌, ◌≡◌, ◌≤◌,
}
use incident_desk.Json.Defs.{Value, dict, field, int, no_fields, null, string}
use incident_desk.Worker.Circuit.{Circuit, call, closed}
use incident_desk.Worker.Circuit.Attempts.{Settles, call-Settles}
use incident_desk.Worker.Circuit.History.{
  Event, after, after-streak, failure, reopening, streak, success,
}
use incident_desk.Worker.Connectors.Allowance.{
  Action, asked_directly, asks, authorizations-perform_all, authorizes, beats, hooks, perform_all,
  queries,
}
use incident_desk.Worker.Contracts.{Source, cluster, deployments, git, logs, runbook}
use incident_desk.Worker.Gather.{fresh, more_pages}
use incident_desk.Worker.Gather.Base.{Tools}
use incident_desk.Worker.Gather.Pages.{IsPaged, PagesAreSets, more_pages_bound}
use incident_desk.Worker.Plan.{default_plan, validate_plan}
use incident_desk.Worker.Plan.Admission.{
  AdmissiblePlan, validate_plan-default_plan, validate_plan_iff,
}
use incident_desk.Worker.Redaction.{redact}
use incident_desk.Worker.Redaction.Sealed.{redact_safe, same_shape, sealed}
use incident_desk.Worker.Samples.{
  all_closed, log_row, log_step, page_with, sample_answer, sample_plan, sample_run, sample_session,
  sample_world,
}
use incident_desk.Worker.Session.{Page, World, new_session, report_result, send_result, stamp}
use incident_desk.Worker.Session.Allowance.{authorizations}
use incident_desk.Worker.Session.Delivery.{IsDelivered, send_result-IsDelivered}

validate_plan_iff_example :
    (validate_plan sample_plan sample_run ≡ ok sample_plan) ↔ AdmissiblePlan sample_plan sample_run
validate_plan_iff_example = validate_plan_iff sample_plan sample_run

validate_plan-default_plan_example :
    validate_plan (default_plan true sample_run) sample_run ≡ ok (default_plan true sample_run)
validate_plan-default_plan_example =
    validate_plan-default_plan true sample_run (omega arith) (omega arith)

-- A clock that advances with each reading, and a source that is overloaded.
abbrev next_tick : ℕ → ℕ × ℕ
next_tick s = (s, s + 1)

abbrev overloaded : ℕ → Result String × ℕ
overloaded s = (err (http_status 503), s)

abbrev opened : Circuit
opened = record { failures = 5; until = 10000 }

abbrev counting : ℕ → Result String × ℕ
counting s = (err (transport_error "ConnectError"), s + 1)

abbrev still_clock : ℕ → ℕ × ℕ
still_clock s = (0, s)

call-Settles_example :
    Settles still_clock counting 3 closed
      (call still_clock counting (closed, 7)).0
      (call still_clock counting (closed, 7)).1.0
      (call still_clock counting (closed, 7)).1.1
call-Settles_example = call-Settles still_clock counting closed 7 (omega arith)

abbrev history : List Event
history = failure 50 ∷ failure 40 ∷ failure 30 ∷ failure 20 ∷ failure 10 ∷ success ∷ failure 1 ∷ []

after-streak_example :
    ((after history).failures ≡ length (streak history))
    × ((after history).until ≡ reopening (streak history))
after-streak_example = after-streak history

abbrev secretive : Value
secretive = dict (
    field "password" (dict (field "x" (int 1) no_fields))
      (field "note" (string "token=abc, fine") no_fields))

redact_safe_example :
    (sealed (redact secretive) ≡ true) × (same_shape secretive (redact secretive) ≡ true)
redact_safe_example = redact_safe secretive

redacted_note :
    redact secretive
    ≡ dict (
        field "password"
          (string "[REDACTED]")
          (field "note" (string "token=[REDACTED], fine") no_fields))
unfolding redact
redacted_note = refl

abbrev busy : List Action
busy =
    authorizes "logs"
    ∷ queries logs log_step none
    ∷ hooks "tool_before" null true
    ∷ beats
    ∷ asks "context"
    ∷ []

authorizations-perform_all_example :
    authorizations
      (perform_all sample_world busy (new_session sample_world sample_run all_closed 0)).sent
    ≤ 8 + asked_directly busy
authorizations-perform_all_example =
    authorizations-perform_all sample_world sample_run all_closed 0 busy

abbrev offline_world : World
offline_world = record sample_world { answer = λ k c. err (transport_error "ReadTimeout") }

send_result-IsDelivered_example :
    IsDelivered offline_world 2
      (stamp offline_world (report_result "partial" null null "callback-1") sample_session)
      []
      (send_result offline_world "partial" null null "callback-1" sample_session)
unfolding new_session
send_result-IsDelivered_example =
    send_result-IsDelivered offline_world "partial" null null "callback-1" sample_session

-- A runtime without hooks that fail: the runbook is forbidden, Git is broken, and the logs have a
-- page after the first.
abbrev plain_query : Source → Option String → Result Page
plain_query runbook cursor = err (http_status 403)
plain_query git cursor = err (http_status 500)
plain_query src none = ok (page_with (log_row ∷ []) (some "2"))
plain_query src (some cursor) = ok (page_with (log_row ∷ []) none)

abbrev plain : Tools ℕ
plain = record {
  run = sample_run;
  authorize = λ tool. pure sample_answer;
  hook = λ name payload. pure tt;
  query = λ src step cursor. lift (plain_query src cursor);
  sha256 = λ s. "0123456789abcdef";
  repr = λ v. "";
  elapsed = λ s. int 1;
  dump_json = λ b. "{}";
  observed = false;
}

plain-PagesAreSets : PagesAreSets plain
unfolding PagesAreSets
plain-PagesAreSets runbook step cursor s = tt
plain-PagesAreSets git step cursor s = tt
plain-PagesAreSets logs step none s = (refl, tt)
plain-PagesAreSets logs step (some cursor) s = (refl, tt)
plain-PagesAreSets deployments step none s = (refl, tt)
plain-PagesAreSets deployments step (some cursor) s = (refl, tt)
plain-PagesAreSets cluster step none s = (refl, tt)
plain-PagesAreSets cluster step (some cursor) s = (refl, tt)

abbrev first_page : Page
first_page = page_with (log_row ∷ []) (some "2")

more_pages_bound_example : IsPaged plain 2 1 (record first_page { next_cursor = none }, 2)
unfolding more_pages fresh
more_pages_bound_example =
    more_pages_bound plain plain-PagesAreSets log_step first_page 0 0
      (record first_page { next_cursor = none }) 2 (refl, tt) refl
