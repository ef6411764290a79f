-- ===== src/Worker/Plan/Admission.antt =====
-- Which plans `validate_plan` lets through, against a description of the ontology as a graph.
use incident_desk.Prelude.{
  All, Bool, Bool-cases, List, Option-cases, Result, String, [], arith, err, false, inl, inr,
  length, nat_eq, ok, refl, some, string_eq, true, ◌==◌, ◌↔◌, ◌∷◌, ◌≡◌, ◌≤◌,
}
use incident_desk.Worker.Contracts.{
  ObjectType, PlanStep, QueryPlan, RunContext, commit, deployment, incident, object_eq,
  runbook_entry, same_object_iff, service, source_eq, team,
}
use incident_desk.Worker.Plan.{
  check_object, check_step, check_steps, default_plan, expected, follow, from_root, lookup_in,
  ontology, validate_plan,
}

-- The relations of the ontology, each with the types that it joins.
pub data Edge : ObjectType → String → ObjectType → Type 0 where
  owned_by : {r : String} → r ≡ "team" → Edge service r team
  deployed_as : {r : String} → r ≡ "deployments" → Edge service r deployment
  described_by : {r : String} → r ≡ "runbook" → Edge service r runbook_entry
  suffered : {r : String} → r ≡ "incidents" → Edge service r incident
  built_from : {r : String} → r ≡ "commit" → Edge deployment r commit
  hit : {r : String} → r ≡ "service" → Edge incident r service

pub data Walk : ObjectType → List String → ObjectType → Type 0 where
  stop : {a : ObjectType} → Walk a [] a
  along :
      {a b c : ObjectType} {r : String} {rest : List String}
      → Edge a r b
      → Walk b rest c
      → Walk a (r ∷ rest) c

Edge→lookup : {a b : ObjectType} {r : String} → Edge a r b → lookup_in r (ontology a) ≡ some b
Edge→lookup (owned_by e) = rw e
Edge→lookup (deployed_as e) = rw e
Edge→lookup (described_by e) = rw e
Edge→lookup (suffered e) = rw e
Edge→lookup (built_from e) = rw e
Edge→lookup (hit e) = rw e

lookup_in-All {ℓ κ} :
    {V : Type ℓ} (P : String → V → Type κ) (r : String) (b : V) (m : List (String × V))
    → All (λ e. P e.0 e.1) m
    → lookup_in r m ≡ some b
    → P r b
lookup_in-All P r b [] a h = cc
lookup_in-All P r b ((j, v) ∷ m) a h = elim (Bool-cases (j == r)) [
  | inl same ↦
      let j≡r : j ≡ r = (string_eq.beq_iff j r).0 same in
      let v≡b : v ≡ b = ground arith in rw (← j≡r, ← v≡b) a.0
  | inr other ↦ lookup_in-All P r b m a.1 (ground arith)
]

edges : (a : ObjectType) → All (λ e. Edge a e.0 e.1) (ontology a)
edges service = (owned_by refl, (deployed_as refl, (described_by refl, (suffered refl, tt))))
edges deployment = (built_from refl, tt)
edges commit = tt
edges runbook_entry = tt
edges incident = (hit refl, tt)
edges team = tt

lookup→Edge :
    (a : ObjectType) (r : String) (b : ObjectType) → lookup_in r (ontology a) ≡ some b → Edge a r b
lookup→Edge a r b h = lookup_in-All (Edge a) r b (ontology a) (edges a) h

follow→Walk :
    (a : ObjectType) (path : List String) (b : ObjectType) → follow a path ≡ ok b → Walk a path b
unfolding follow
follow→Walk a [] b h = let e : a ≡ b = cc in rw (← e) stop
follow→Walk a (r ∷ rest) b h = elim (Option-cases (lookup_in r (ontology a))) [
  | inl gone ↦ ground arith
  | inr (c, found) ↦ along (lookup→Edge a r c found) (follow→Walk c rest b (ground arith))
]

Walk→follow :
    {a : ObjectType} {path : List String} {b : ObjectType} → Walk a path b → follow a path ≡ ok b
unfolding follow
Walk→follow stop = refl
Walk→follow (along {a = a} {b = b} {r = r} {rest = rest} edge walk) =
    ground (arith, Edge→lookup edge, Walk→follow walk)

-- A step reads its own source, along a path of the ontology from the service of the run.
pub record AdmissibleStep (s : PlanStep) : Type 0 where
  pub rest : List String
  pub rooted : s.path ≡ "Service" ∷ rest
  pub walk : Walk service rest s.object
  pub own_object : s.object ≡ expected s.source

check_object-ok :
    (s : PlanStep) (r : Result ObjectType)
    → check_object s r ≡ ok tt
    → (r ≡ ok s.object) × (s.object ≡ expected s.source)
unfolding check_object
check_object-ok s (err e) h = cc
check_object-ok s (ok o) h =
    ground (arith, same_object_iff o s.object, same_object_iff s.object (expected s.source))

from_root→Admissible :
    (s : PlanStep) (path : List String)
    → s.path ≡ path
    → from_root s path ≡ ok tt
    → AdmissibleStep s
unfolding from_root
from_root→Admissible s [] e h = cc
from_root→Admissible s (root ∷ rest) e h = elim (Bool-cases (root == "Service")) [
  | inr other ↦ ground arith
  | inl named ↦
      let (walks, own) = check_object-ok s (follow service rest) (ground arith) in
      record {
        rest = rest;
        rooted = ground (arith, string_eq.beq_iff root "Service");
        walk = follow→Walk service rest s.object walks;
        own_object = own;
      }
]

check_step→Admissible : (s : PlanStep) → check_step s ≡ ok tt → AdmissibleStep s
unfolding check_step
check_step→Admissible s h = from_root→Admissible s s.path refl h

Admissible→check_step : (s : PlanStep) → AdmissibleStep s → check_step s ≡ ok tt
unfolding check_step
Admissible→check_step s a =
    rw (a.rooted, check_step, from_root)
      (rw (Walk→follow a.walk) (
        ground
          (arith, same_object_iff s.object s.object, same_object_iff s.object (expected s.source))))

check_steps→Admissible :
    (steps : List PlanStep) → check_steps steps ≡ ok tt → All AdmissibleStep steps
unfolding check_steps
check_steps→Admissible [] h = tt
check_steps→Admissible (s ∷ rest) h =
    (check_step→Admissible s (ground arith), check_steps→Admissible rest (ground arith))

Admissible→check_steps :
    (steps : List PlanStep) → All AdmissibleStep steps → check_steps steps ≡ ok tt
unfolding check_steps
Admissible→check_steps [] h = refl
Admissible→check_steps (s ∷ rest) h =
    ground (arith, Admissible→check_step s h.0, Admissible→check_steps rest h.1)

-- A plan stays in the service and the time of its run and within the number of steps that its
-- budget allows, and each of its steps is admissible.
pub record AdmissiblePlan (plan : QueryPlan) (run : RunContext) : Type 0 where
  pub same_service : plan.service ≡ run.service
  pub starts_inside : run.start ≤ plan.start
  pub ends_inside : plan.end ≤ run.end
  pub ordered : plan.start ≤ plan.end
  pub fits_budget : length plan.steps ≤ run.budget.steps
  pub steps : All AdmissibleStep plan.steps

-- `validate_plan` returns the plan exactly when the plan is admissible: it names the service of the
-- run, lies in the interval of the run, is not reversed, has at most as many steps as the budget
-- allows, and every step follows relations of the ontology from the service to an object of the
-- type that the step declares and that its source holds.
pub validate_plan_iff :
    (plan : QueryPlan) (run : RunContext)
    → (validate_plan plan run ≡ ok plan) ↔ AdmissiblePlan plan run
unfolding validate_plan
validate_plan_iff plan run = (
  λ h. record {
    same_service = ground (arith, string_eq.beq_iff plan.service run.service);
    starts_inside = ground arith;
    ends_inside = ground arith;
    ordered = ground arith;
    fits_budget = ground arith;
    steps = check_steps→Admissible plan.steps (ground arith);
  },
  λ a. ground (
    arith,
    string_eq.beq_iff plan.service run.service,
    Admissible→check_steps plan.steps a.steps,
  ),
)

-- The default plan of a run whose interval is not reversed and whose budget has room for five
-- steps is accepted as it is, with and without the cluster observer.
pub validate_plan-default_plan :
    (observed : Bool) (run : RunContext)
    → run.start ≤ run.end
    → 5 ≤ run.budget.steps
    → validate_plan (default_plan observed run) run ≡ ok (default_plan observed run)
unfolding validate_plan default_plan
validate_plan-default_plan true run h k = ground (arith, string_eq.beq_iff run.service run.service)
validate_plan-default_plan false run h k = ground (arith, string_eq.beq_iff run.service run.service)
