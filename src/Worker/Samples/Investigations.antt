-- ===== src/Worker/Samples/Investigations.antt =====
-- An investigation whose model denies what the logs have.
use incident_desk.Prelude.{
  Option, Result, String, Yields, [], err, false, none, ok, refl, some, true, ◌*◌, ◌∷◌, ◌≡◌,
}
use incident_desk.Json.Defs.{dict, field, get, int, no_fields, null, string}
use incident_desk.Worker.Contracts.{ContextBundle, Evidence, RunContext, logs}
use incident_desk.Worker.Investigation.{Model, allowed, complete, fit}
use incident_desk.Worker.Investigation.Fitting.{IsLargest, fit-IsLargest}
use incident_desk.Worker.Investigation.Publishing.{
  Investigation, checked_answer, contradicts, denies_hits, investigate,
}
use incident_desk.Worker.Investigation.Publishing.Honesty.{IsHonest, investigate-IsHonest}
use incident_desk.Worker.Samples.{all_closed, sample_plan, sample_run, sample_world}
use incident_desk.Worker.Session.{Session, authorize, event, new_session}

abbrev log_evidence : Evidence
log_evidence = record {
  id = "logs:l1";
  source = logs;
  locator = "logs://l1";
  collected_at = "now";
  event_time = "t1";
  version = "1";
  sha256 = "0123456789abcdef";
  snippet = dict (field "message" (string "pool is full") no_fields);
  team = "payments";
  source_record = "l1";
  available = true;
}

abbrev pub one_log : ContextBundle
one_log = record {
  scope = record { team = "payments"; subject = "user-1"; service = "svc-17" };
  objects = [];
  facts = [];
  evidence = log_evidence ∷ [];
  missing = [];
  conflicts = [];
  freshness = [];
  plan = sample_plan;
  token_budget = 8000;
  memories = null;
  retrieval = some (record {
    summary = field "matched" (int 4) no_fields;
    pages = 1;
    evidence_count = 1;
    sampled = false;
    provenance = "";
  });
}

abbrev pub denying : Model
denying = record {
  key = some "k";
  post = λ r. ok (record {
    status_code = 200;
    choice = ok (record { finish_reason = "stop"; content = ok null; usage = null });
  });
  message_bytes = λ p. p.shown * 100;
  schema_bytes = λ s. 100;
  decode = λ v. ok (record {
    answer = "没有查到相关日志";
    answer_evidence = "logs:l1" ∷ [];
    claims = [];
    next_steps = [];
  });
}

abbrev roomy_run : RunContext
roomy_run = record sample_run { budget = record sample_run.budget { tokens = 8000 } }

abbrev roomy_session : Session
roomy_session = new_session sample_world roomy_run all_closed 0

denial_found : denies_hits "范围内没有为该服务查到日志" ≡ true
unfolding denies_hits
denial_found = refl

no_denial : denies_hits "没有限制。命中日志四条" ≡ false
unfolding denies_hits
no_denial = refl

abbrev answer_of : Result Investigation → Option String
answer_of (ok r) = r.answer_validation
answer_of (err e) = none

-- The answer of the model is replaced.
answer_replaced :
    answer_of (investigate sample_world denying one_log roomy_session).0
    ≡ some "检索已有命中；模型回答与统计不一致，已改为展示原始证据。"
unfolding investigate checked_answer authorize event complete new_session fit allowed contradicts
    denies_hits get
answer_replaced = refl

investigate-IsHonest_example :
    Yields
      (IsHonest sample_world denying one_log)
      (investigate sample_world denying one_log roomy_session).0
investigate-IsHonest_example = investigate-IsHonest sample_world denying one_log roomy_session

fit-IsLargest_example :
    IsLargest sample_world.repr denying roomy_run one_log 1
      (fit sample_world.repr denying roomy_run one_log 1)
fit-IsLargest_example = fit-IsLargest sample_world.repr denying roomy_run one_log 1
