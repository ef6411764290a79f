-- ===== src/Worker/Assemble.antt =====
-- worker/incident_worker/context.py, `assemble`: the plan is checked, its steps are run, the
-- evidence is related, and the bundle is built and measured.
pub mod Relations
pub mod Finish
pub mod Grounding
pub mod Extent
pub mod Sessions
use Prim.Native.String.{len}
use incident_desk.Prelude.{
  Bool, Exec, List, Option, Result, String, [], err, false, if◌then◌else◌, included, length, lift,
  ltb, nat_eq, none, not, ok, pure, runtime_error, select, some, string_eq, ◌&&◌, ◌++◌, ◌==◌, ◌>>=◌,
  ◌>>◌, ◌||◌, ◌∷◌,
}
use incident_desk.Json.Defs.{Value, array, dict, field, int, no_fields, no_items}
use incident_desk.Worker.Assemble.Relations.{Links, all_links, ids_of}
use incident_desk.Worker.Contracts.{
  Conflict, ContextBundle, Evidence, QueryPlan, Source, deployments, logs, object_eq, service,
  service_object, source_eq, team,
}
use incident_desk.Worker.Gather.{run_steps}
use incident_desk.Worker.Gather.Base.{Gather, Tools, nothing_yet, on_session}
use incident_desk.Worker.Plan.{default_plan, validate_plan}
use incident_desk.Worker.Session.{Page, authorize, hook}

-- plan or default_plan(runtime.run)
abbrev chosen_plan {ℓ} : {A : Type ℓ} → Option A → A → A
chosen_plan none d = d
chosen_plan (some p) d = p

abbrev version_conflict : List Evidence → Conflict
version_conflict evidence = record {
  text = "日志与发布表的版本记录不一致；需要核对实例与发布时间。";
  evidence =
      ids_of (select (λ (e : Evidence). e.source == logs || e.source == deployments) evidence);
}

-- Both sets are there and differ.
abbrev versions_differ : List String → List String → Bool
versions_differ [] b = false
versions_differ (x ∷ xs) [] = false
versions_differ (x ∷ xs) (y ∷ ys) = not (included (x ∷ xs) (y ∷ ys) && included (y ∷ ys) (x ∷ xs))

pub version_conflicts : List String → List String → List Evidence → List Conflict
version_conflicts a b evidence = if versions_differ a b then version_conflict evidence ∷ [] else []

module _ {S : Type 0} (t : Tools S) where
  pub bundle_of : QueryPlan → Gather S → Links → ContextBundle
  unfolding version_conflicts
  bundle_of plan g links = record {
    scope = record { team = t.run.team; subject = t.run.subject; service = t.run.service };
    objects = service_object t.run.service t.run.team ∷ links.objects;
    facts = g.facts ++ links.facts;
    evidence = g.evidence;
    missing = g.missing;
    conflicts =
        version_conflicts g.log_versions g.deployment_versions g.evidence ++ links.conflicts;
    freshness = g.freshness;
    plan = plan;
    token_budget = t.run.budget.tokens;
    memories = array no_items;
    retrieval = g.retrieval;
  }

  -- The bundle, if its JSON text fits the output budget.
  pub measured : ContextBundle → Result ContextBundle
  measured b =
      if ltb t.run.budget.output_bytes (len (t.dump_json b))
      then err (runtime_error "output_budget_exhausted")
      else ok b

  pub build : QueryPlan → Gather S → Result ContextBundle
  unfolding bundle_of measured
  build plan g = elim (all_links t.run g.evidence) [
    | err e ↦ err e
    | ok links ↦ measured (bundle_of plan g links)
  ]

  with_memories : Option (List (Source × Page)) → ContextBundle → Exec (Gather S) ContextBundle
  with_memories (some _) b = pure b
  with_memories none b = do
    historical ← on_session (t.authorize "memory")
    pure (record b { memories = historical.memories })

  assembled_payload : ContextBundle → Value
  assembled_payload b = dict (
      field "facts" (int (length b.facts)) (
        field "evidence" (int (length b.evidence))
          (field "conflicts" (int (length b.conflicts)) no_fields)))

  finish :
      Option (List (Source × Page))
      → QueryPlan
      → Exec (Gather S) (ContextBundle × List (Source × Page))
  unfolding build with_memories assembled_payload
  finish recorded plan g =
      (do
        b ← lift (build plan g)
        whole ← with_memories recorded b
        on_session (t.hook "context_assembled" (assembled_payload whole))
        pure (whole, g.records))
        g

  pub gather :
      Option (List (Source × Page))
      → QueryPlan
      → Exec (Gather S) (ContextBundle × List (Source × Page))
  unfolding finish
  gather recorded plan = do
    on_session (t.hook "plan_validated" (dict (field "steps" (int (length plan.steps)) no_fields)))
    run_steps t recorded plan.steps
    finish recorded plan

  abbrev pub requested : Option QueryPlan → Result QueryPlan
  requested plan = validate_plan (chosen_plan plan (default_plan t.observed t.run)) t.run

  -- The state that the loop accumulated is local, and ends with the call.
  unfoldable pub assemble :
      Option QueryPlan
      → Option (List (Source × Page))
      → Exec S (ContextBundle × List (Source × Page))
  unfolding gather
  assemble plan recorded s = elim (requested plan) [
    | err e ↦ (err e, s)
    | ok checked ↦ let (r, g) = gather recorded checked (nothing_yet s) in (r, g.session)
  ]
