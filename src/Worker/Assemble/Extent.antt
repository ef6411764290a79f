-- ===== src/Worker/Assemble/Extent.antt =====
-- worker/incident_worker/context.py, `assemble`: what a bundle is about.
use Prim.Native.String.{len}
use incident_desk.Prelude.{
  Bool-cases, List, Option, Result-cases, Yields, Yields-map, Yields-ok, ap, arith, inl, inr, ltb,
  ok, refl, subst, sym, ◌≡◌, ◌≤◌,
}
use incident_desk.Json.Defs.{Value, array, no_items}
use incident_desk.Worker.Assemble.{assemble, build, bundle_of, gather, measured, requested}
use incident_desk.Worker.Assemble.Finish.{OfBundle, assemble-Yields, gather-Yields}
use incident_desk.Worker.Assemble.Relations.{all_links}
use incident_desk.Worker.Contracts.{ContextBundle, QueryPlan, Source}
use incident_desk.Worker.Gather.Base.{Gather, Tools, nothing_yet}
use incident_desk.Worker.Session.{Page}

module _ {S : Type 0} (t : Tools S) where
  -- The bundle answers the checked plan, in the scope of the task, and its JSON text, without the
  -- memories that are added afterwards, is within the output budget of the task.
  pub record Answers (checked : QueryPlan) (b : ContextBundle) : Type 0 where
    pub plan : b.plan ≡ checked
    pub team : b.scope.team ≡ t.run.team
    pub subject : b.scope.subject ≡ t.run.subject
    pub service : b.scope.service ≡ t.run.service
    pub tokens : b.token_budget ≡ t.run.budget.tokens
    pub size :
        len (t.dump_json (record b { memories = array no_items })) ≤ t.run.budget.output_bytes

  Answers-stable :
      (checked : QueryPlan) (b : ContextBundle) (m : Value)
      → Answers checked b
      → Answers checked (record b { memories = m })
  Answers-stable checked b m h = record {
    plan = h.plan;
    team = h.team;
    subject = h.subject;
    service = h.service;
    tokens = h.tokens;
    size = h.size;
  }

  build-Answers : (plan : QueryPlan) (g : Gather S) → Yields (Answers plan) (build t plan g)
  unfolding build bundle_of measured
  build-Answers plan g = elim (Result-cases (all_links t.run g.evidence)) [
    | inr (e, q) ↦ rw (Yields, q) tt
    | inl (links, q) ↦
        elim (Bool-cases
          (ltb t.run.budget.output_bytes (len (t.dump_json (bundle_of t plan g links))))) [
            | inl p ↦ rw (Yields, q, p) tt
            | inr p ↦
                rw (Yields, q, p)
                  (record {
                    plan = refl;
                    team = refl;
                    subject = refl;
                    service = refl;
                    tokens = refl;
                    size = ground arith;
                  })
          ]
  ]

  abbrev Requested : Option QueryPlan → ContextBundle → Type 0
  Requested plan b = (requested t plan ≡ ok b.plan) × Answers b.plan b

  gather-Answers :
      (recorded : Option (List (Source × Page))) (plan : QueryPlan) (g : Gather S)
      → Yields (OfBundle (Answers plan)) (gather t recorded plan g).0
  gather-Answers recorded plan g =
      gather-Yields t (Answers plan) (Answers-stable plan) recorded plan g (build-Answers plan _)

  -- A bundle that `assemble` returns carries the plan that was asked for, or the default one, which
  -- has passed `validate_plan`; its scope and token budget are those of the task; and its JSON text,
  -- measured before the memories are added, is within the output budget.
  pub assemble-Answers :
      (plan : Option QueryPlan) (recorded : Option (List (Source × Page))) (s s' : S)
      (bundle : ContextBundle) (records : List (Source × Page))
      → assemble t plan recorded s ≡ (ok (bundle, records), s')
      → (requested t plan ≡ ok bundle.plan) × Answers bundle.plan bundle
  assemble-Answers plan recorded s s' bundle records h =
      Yields-ok (OfBundle (Requested plan)) _ (ap (λ p. p.0) h) (
        assemble-Yields t (Requested plan) plan recorded s λ checked q.
          Yields-map (OfBundle (Answers checked)) (OfBundle (Requested plan)) _
            (λ p h'. (
              subst (λ x. requested t plan ≡ ok x) (sym h'.plan) q,
              subst (λ x. Answers x p.0) (sym h'.plan) h',
            ))
            (gather-Answers recorded checked (nothing_yet s)))
