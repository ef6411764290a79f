-- ===== src/Worker/Plan.antt =====
-- worker/incident_worker/context.py: the ontology, the mapping of source names to services, the
-- default plan, and the check that a plan stays inside the scope of its run.
pub mod Admission
use incident_desk.Prelude.{
  Bool, List, Option, Result, String, [], err, if◌then◌else◌, length, ltb, nat_eq, none, not, ok,
  permission_error, some, string_eq, value_error, ℕ, ◌++◌, ◌==◌, ◌||◌, ◌∷◌,
}
use incident_desk.Worker.Contracts.{
  ObjectType, PlanStep, QueryPlan, RunContext, Source, cluster, commit, deployment, deployments,
  git, incident, logs, object_eq, runbook, runbook_entry, service, source_eq, team,
}

-- ONTOLOGY[obj]: the relations of an object type and where each leads.
abbrev pub ontology : ObjectType → List (String × ObjectType)
ontology service =
    ("team", team)
    ∷ ("deployments", deployment)
    ∷ ("runbook", runbook_entry)
    ∷ ("incidents", incident)
    ∷ []
ontology deployment = ("commit", commit) ∷ []
ontology commit = []
ontology runbook_entry = []
ontology incident = ("service", service) ∷ []
ontology team = []

abbrev pub lookup_in {ℓ} : {V : Type ℓ} → String → List (String × V) → Option V
lookup_in k [] = none
lookup_in k ((j, v) ∷ m) = if j == k then some v else lookup_in k m

-- MAPPINGS[source], for the two sources that it lists.
abbrev pub mappings : Source → Option (List (String × List String))
mappings logs = some (
    ("checkout-api", "svc-17" ∷ [])
    ∷ ("payment-api", "svc-23" ∷ [])
    ∷ ("ambiguous", "svc-17" ∷ "svc-23" ∷ [])
    ∷ [])
mappings deployments = some (("svc-17", "svc-17" ∷ []) ∷ ("svc-23", "svc-23" ∷ []) ∷ [])
mappings _ = none

only : List String → Result String
only (id ∷ []) = ok id
only _ = err (value_error "ambiguous_or_unmapped_service")

-- MAPPINGS.get(source, {}).get(alias, [])
mapped_ids : Source → String → List String
mapped_ids src alias = elim (mappings src) [
  | none ↦ []
  | some m ↦ elim (lookup_in alias m) [ none ↦ [] | some ids ↦ ids ]
]

unfoldable pub resolve : Source → String → Result String
unfolding only mapped_ids
resolve src alias = only (mapped_ids src alias)

abbrev plan_step : Source → ObjectType → List String → ℕ → PlanStep
plan_step src obj path limit = record { source = src; object = obj; path = path; limit = limit }

-- `observed` is whether OBSERVE_NAMESPACE is set.
unfoldable pub default_plan : Bool → RunContext → QueryPlan
default_plan observed run = record {
  service = run.service;
  start = run.start;
  end = run.end;
  steps =
      (plan_step deployments deployment ("Service" ∷ "deployments" ∷ []) 50
        ∷ plan_step logs service ("Service" ∷ []) 20
        ∷ plan_step git commit ("Service" ∷ "deployments" ∷ "commit" ∷ []) 50
        ∷ plan_step runbook runbook_entry ("Service" ∷ "runbook" ∷ []) 50
        ∷ [])
      ++ (if observed
          then plan_step cluster incident ("Service" ∷ "incidents" ∷ []) 50 ∷ []
          else []);
}

-- The type of object that each source holds.
abbrev pub expected : Source → ObjectType
expected logs = service
expected deployments = deployment
expected git = commit
expected runbook = runbook_entry
expected cluster = incident

-- The loop over `s.path[1:]`.
follow : ObjectType → List String → Result ObjectType
follow obj [] = ok obj
follow obj (relation ∷ rest) = elim (lookup_in relation (ontology obj)) [
  | none ↦ err (value_error "invalid_relation")
  | some next ↦ follow next rest
]

check_object : PlanStep → Result ObjectType → Result (Unit {0})
check_object s (err e) = err e
check_object s (ok obj) =
    if not (obj == s.object)
    then err (value_error "object_type_mismatch")
    else if not (s.object == expected s.source)
    then err (value_error "source_object_mismatch")
    else ok tt

from_root : PlanStep → List String → Result (Unit {0})
unfolding follow check_object
from_root s [] = err (value_error "invalid_root")
from_root s (root ∷ rest) =
    if root == "Service"
    then check_object s (follow service rest)
    else err (value_error "invalid_root")

pub check_step : PlanStep → Result (Unit {0})
unfolding from_root
check_step s = from_root s s.path

pub check_steps : List PlanStep → Result (Unit {0})
unfolding check_step
check_steps [] = ok tt
check_steps (s ∷ rest) = elim (check_step s) [ ok _ ↦ check_steps rest | err e ↦ err e ]

outside_scope : QueryPlan → RunContext → Bool
outside_scope plan run =
    not (plan.service == run.service)
    || ltb plan.start run.start
    || ltb run.end plan.end
    || ltb plan.end plan.start

unfoldable pub validate_plan : QueryPlan → RunContext → Result QueryPlan
unfolding outside_scope check_steps
validate_plan plan run =
    if outside_scope plan run
    then err (permission_error "plan_scope")
    else if ltb run.budget.steps (length plan.steps)
    then err (value_error "plan_budget")
    else elim (check_steps plan.steps) [ ok _ ↦ ok plan | err e ↦ err e ]
