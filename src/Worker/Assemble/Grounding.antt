-- ===== src/Worker/Assemble/Grounding.antt =====
-- worker/incident_worker/context.py, `assemble`: every evidence of a bundle is a row of the task's
-- own service, and what the bundle says of the incident cites its evidence.
use Prim.Native.String.{len}
use incident_desk.Prelude.{
  All, All-append, All-of-select, Bool-cases, List, Option, Result, Result-cases, String, Yields,
  Yields-ok, ap, included, inl, inr, ltb, nat_eq, ok, select, string_eq, true, ◌==◌, ◌||◌, ◌≡◌,
}
use incident_desk.Json.Defs.{Value}
use incident_desk.Worker.Assemble.{
  assemble, build, bundle_of, gather, measured, version_conflicts, versions_differ,
}
use incident_desk.Worker.Assemble.Finish.{OfBundle, announced, assemble-Yields, gather-Yields}
use incident_desk.Worker.Assemble.Relations.{all_links}
use incident_desk.Worker.Assemble.Relations.Citations.{
  Known, Known-self, all_links-AreGrounded, ids_of-included,
}
use incident_desk.Worker.Contracts.{
  Conflict, ContextBundle, Evidence, Fact, QueryPlan, Source, deployments, logs, object_eq,
  source_eq,
}
use incident_desk.Worker.Gather.{run_steps}
use incident_desk.Worker.Gather.Base.{Gather, Tools, nothing_yet}
use incident_desk.Worker.Gather.Ledger.{Cites, IsBacked, Ledger, evidence_ids, on_session-Ledger}
use incident_desk.Worker.Gather.Steps.{run_steps-Keeps}
use incident_desk.Worker.Session.{Page}

module _ {S : Type 0} (t : Tools S) where
  -- The evidence of the bundle is made of rows that passed the scope check; a fact cites evidence of
  -- the bundle, at least one, and a conflict cites evidence of the bundle.
  pub record IsGrounded (b : ContextBundle) : Type 0 where
    pub evidence : All (IsBacked t) b.evidence
    pub facts : All (λ (f : Fact). Cites (evidence_ids b.evidence) f.evidence) b.facts
    pub conflicts :
        All (λ (c : Conflict). included c.evidence (evidence_ids b.evidence) ≡ true) b.conflicts

  abbrev of_either : List Evidence → List Evidence
  of_either = select (λ (e : Evidence). e.source == logs || e.source == deployments)

  of_either-Known : (es : List Evidence) → Known (evidence_ids es) (of_either es)
  unfolding Known
  of_either-Known es = All-of-select _ _ es (Known-self es)

  version_conflicts-cited :
      (a b : List String) (es : List Evidence)
      → All
          (λ (c : Conflict). included c.evidence (evidence_ids es) ≡ true)
          (version_conflicts a b es)
  unfolding version_conflicts
  version_conflicts-cited a b es = elim (Bool-cases (versions_differ a b)) [
    | inl q ↦ rw q (ids_of-included (evidence_ids es) _ (of_either-Known es), tt)
    | inr q ↦ rw q tt
  ]

  measured-Yields : (P : ContextBundle → Type 0) (b : ContextBundle) → P b → Yields P (measured t b)
  unfolding measured
  measured-Yields P b h = elim (Bool-cases (ltb t.run.budget.output_bytes (len (t.dump_json b)))) [
    | inl q ↦ rw (Yields, q) tt
    | inr q ↦ rw (Yields, q) h
  ]

  build-IsGrounded :
      (plan : QueryPlan) (g : Gather S) → Ledger t g → Yields IsGrounded (build t plan g)
  unfolding build bundle_of
  build-IsGrounded plan g l = elim (Result-cases (all_links t.run g.evidence)) [
    | inr (e, q) ↦ rw (Yields, q) tt
    | inl (links, q) ↦
        let linked = Yields-ok _ (all_links t.run g.evidence) q (
          all_links-AreGrounded (evidence_ids g.evidence) t.run g.evidence
            (Known-self g.evidence)) in
        rw (Yields, q)
          (measured-Yields IsGrounded (bundle_of t plan g links) (record {
            evidence = l.backed;
            facts = All-append _ g.facts links.facts l.cited linked.facts;
            conflicts =
                All-append _ (version_conflicts g.log_versions g.deployment_versions g.evidence)
                  links.conflicts
                  (version_conflicts-cited g.log_versions g.deployment_versions g.evidence)
                  linked.conflicts;
          }))
  ]

  IsGrounded-stable :
      (b : ContextBundle) (m : Value) → IsGrounded b → IsGrounded (record b { memories = m })
  IsGrounded-stable b m h = record {
    evidence = h.evidence;
    facts = h.facts;
    conflicts = h.conflicts;
  }

  abbrev all_steps :
      Option (List (Source × Page)) → QueryPlan → Gather S → Result (Unit {0}) × Gather S
  all_steps recorded plan g = run_steps t recorded plan.steps (announced t plan g).1

  gather-IsGrounded :
      (recorded : Option (List (Source × Page))) (plan : QueryPlan) (g : Gather S)
      → Ledger t g
      → Yields (OfBundle IsGrounded) (gather t recorded plan g).0
  gather-IsGrounded recorded plan g l =
      gather-Yields t IsGrounded IsGrounded-stable recorded plan g (
        build-IsGrounded plan (all_steps recorded plan g).1 (
          (run_steps-Keeps t recorded plan.steps).at (announced t plan g).1
            (on_session-Ledger t _ g l)))

  pub assemble-Yields-IsGrounded :
      (plan : Option QueryPlan) (recorded : Option (List (Source × Page))) (s : S)
      → Yields (OfBundle IsGrounded) (assemble t plan recorded s).0
  assemble-Yields-IsGrounded plan recorded s =
      assemble-Yields t IsGrounded plan recorded s λ checked _.
        gather-IsGrounded recorded checked (nothing_yet s) (record { backed = tt; cited = tt })

  -- A bundle that `assemble` returns, live or from a recording, whatever the runtime answers, holds
  -- only evidence made of rows that passed the scope check of the task; each fact cites evidence of
  -- the bundle, at least one, and each conflict cites evidence of the bundle.
  pub assemble-IsGrounded :
      (plan : Option QueryPlan) (recorded : Option (List (Source × Page))) (s s' : S)
      (bundle : ContextBundle) (records : List (Source × Page))
      → assemble t plan recorded s ≡ (ok (bundle, records), s')
      → IsGrounded bundle
  assemble-IsGrounded plan recorded s s' bundle records h =
      Yields-ok (OfBundle IsGrounded) _ (ap (λ p. p.0) h)
        (assemble-Yields-IsGrounded plan recorded s)
