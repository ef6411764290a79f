-- ===== src/Worker/Replay.antt =====
-- worker/incident_worker/evaluation.py: a recorded case is assembled again without any network, and
-- what the report says is checked.
pub mod Quality
use incident_desk.Prelude.{
  Bool, Exec, List, Result, String, [], all, contains, err, false, if◌then◌else◌, included, leb,
  length, ltb, nat_eq, none, not, ok, permission_error, pure, raise, runtime_error, some, string_eq,
  true, ℕ, ◌&&◌, ◌++◌, ◌+◌, ◌==◌, ◌∷◌,
}
use incident_desk.Json.Defs.{Value, array, no_items}
use incident_desk.Worker.Assemble.{assemble}
use incident_desk.Worker.Assemble.Relations.{ids_of}
use incident_desk.Worker.Contracts.{
  ContextBundle, Fact, RunContext, Source, object_eq, service, source_eq, team,
}
use incident_desk.Worker.Gather.Base.{Tools}
use incident_desk.Worker.Report.{Candidate, ReportData, report}
use incident_desk.Worker.Session.{Answer, Page, World, authorize, hook}

-- OfflineRuntime
pub record Offline : Type 0 where
  pub calls : ℕ
  pub events : List (String × Value)

abbrev offline_tools : List String
offline_tools = "logs" ∷ "deployments" ∷ "git" ∷ "runbook" ∷ "cluster" ∷ "context" ∷ []

-- The JSON that OfflineRuntime.authorize returns; the keys that it leaves out are not read.
abbrev offline_scope : RunContext → Answer
offline_scope run = record {
  team = run.team;
  subject = "";
  service = run.service;
  start = 0;
  end = 0;
  watermark = 0;
  memories = array no_items;
}

abbrev counted : Offline → Offline
counted s = record s { calls = s.calls + 1 }

-- The call is counted before it is compared with the budget.
offline_authorize : RunContext → String → Exec Offline Answer
offline_authorize run tool s =
    if not (contains tool offline_tools)
    then raise (permission_error "offline_write_denied") s
    else if ltb run.budget.steps (s.calls + 1)
    then raise (runtime_error "budget_exhausted") (counted s)
    else pure (offline_scope run) (counted s)

offline_hook : String → Value → Bool → Exec Offline (Unit {0})
offline_hook name payload policy s =
    if not policy
    then raise (permission_error "policy_denied") s
    else pure tt (record s { events = s.events ++ (name, payload) ∷ [] })

-- There is no source to query: a recorded assembly never asks for one.
pub offline : World → RunContext → Tools Offline
unfolding offline_authorize offline_hook
offline w run = record {
  run = run;
  authorize = offline_authorize run;
  hook = λ name payload. offline_hook name payload true;
  query = λ src step cursor. raise (runtime_error "offline");
  sha256 = w.sha256;
  repr = w.repr;
  elapsed = λ s. w.elapsed s.calls;
  dump_json = w.dump_json;
  observed = w.observed;
}

pub record Expected : Type 0 where
  pub facts : ℕ
  pub candidates : ℕ
  pub conflicts : ℕ
  pub missing : ℕ

pub record Case : Type 0 where
  pub id : String
  pub split : String
  pub run : RunContext
  pub recording : List (Source × Page)
  pub expected : Expected

pub data Variant : Type 0 where
  current regressed : Variant

pub record Checks : Type 0 where
  pub fact_count : Bool
  pub candidate_count : Bool
  pub conflicts : Bool
  pub missing : Bool
  pub grounding : Bool
  pub no_writes : Bool

unfoldable pub passes : Checks → Bool
passes c =
    c.fact_count && c.candidate_count && c.conflicts && c.missing && c.grounding && c.no_writes

-- What the regressed variant puts in place of the candidates.
unsupported : Candidate
unsupported = record {
  text = "unsupported definite root cause";
  label = "confirmed";
  rule = "";
  evidence = [];
}

pub varied : Variant → ReportData → ReportData
unfolding unsupported
varied current r = r
varied regressed r = record r { candidates = unsupported ∷ [] }

-- c["evidence"] and set(c["evidence"]) <= ids
pub is_grounded : List String → List String → Bool
is_grounded ids [] = false
is_grounded ids (x ∷ xs) = included (x ∷ xs) ids

pub grounding_check : ReportData → Bool
unfolding is_grounded
grounding_check r =
    let ids = ids_of r.evidence in
    all (λ (f : Fact). is_grounded ids f.evidence) r.facts
    && all (λ (c : Candidate). is_grounded ids c.evidence) r.candidates

checks_of : Case → ReportData → Offline → Checks
unfolding grounding_check
checks_of c r s = record {
  fact_count = length r.facts == c.expected.facts;
  candidate_count = length r.candidates == c.expected.candidates;
  conflicts = length r.conflicts == c.expected.conflicts;
  missing = length r.missing == c.expected.missing;
  grounding = grounding_check r;
  no_writes = leb s.calls (length c.recording);
}

assemble_offline : World → Case → Result (ContextBundle × List (Source × Page)) × Offline
unfolding offline assemble
assemble_offline w c =
    assemble (offline w c.run) none (some c.recording) (record { calls = 0; events = [] })

judged :
    World → Case → Variant → Result (ContextBundle × List (Source × Page)) → Offline → Result Checks
unfolding report varied checks_of
judged w c variant (ok (bundle, records)) s =
    ok (checks_of c (varied variant (report w.repr bundle)) s)
judged w c variant (err e) s = err e

-- replay
unfoldable pub replay : World → Case → Variant → Result Checks
unfolding assemble_offline judged
replay w c variant = let (r, s) = assemble_offline w c in judged w c variant r s
