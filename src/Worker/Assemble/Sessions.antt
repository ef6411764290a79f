-- ===== src/Worker/Assemble/Sessions.antt =====
-- What every call of the runtime keeps true of its own state, `assemble` keeps.
use incident_desk.Prelude.{
  Keeps, Keeps-bind, Keeps-lift, Keeps-pure, List, Option, Result-cases, inl, inr, none, some,
}
use incident_desk.Worker.Assemble.{
  assemble, assembled_payload, build, finish, gather, requested, with_memories,
}
use incident_desk.Worker.Contracts.{ContextBundle, QueryPlan, Source}
use incident_desk.Worker.Gather.Base.{Tools, nothing_yet}
use incident_desk.Worker.Gather.Sessions.{
  OfSession, RuntimeKeeps, authorize-OfSession, hook-OfSession,
}
use incident_desk.Worker.Gather.Sessions.Loop.{run_steps-OfSession}
use incident_desk.Worker.Session.{Page}

module _ {S : Type 0} (t : Tools S) (P : S → Type 0) (k : RuntimeKeeps t P) where
  with_memories-OfSession :
      (recorded : Option (List (Source × Page))) (b : ContextBundle)
      → Keeps (OfSession t P) (with_memories t recorded b)
  unfolding with_memories
  with_memories-OfSession (some _) b = Keeps-pure b
  with_memories-OfSession none b =
      Keeps-bind _ _ (authorize-OfSession t P k "memory") (λ historical. Keeps-pure _)

  finish-OfSession :
      (recorded : Option (List (Source × Page))) (plan : QueryPlan)
      → Keeps (OfSession t P) (finish t recorded plan)
  unfolding finish
  finish-OfSession recorded plan = record {
    at = λ g p.
        (Keeps-bind _ _ (Keeps-lift (build t plan g)) λ b.
            Keeps-bind _ _ (with_memories-OfSession recorded b) λ whole.
              Keeps-bind _ _ (hook-OfSession t P k "context_assembled" (assembled_payload t whole))
                (λ _. Keeps-pure (whole, g.records))).at
          g p;
  }

  gather-OfSession :
      (recorded : Option (List (Source × Page))) (plan : QueryPlan)
      → Keeps (OfSession t P) (gather t recorded plan)
  unfolding gather
  gather-OfSession recorded plan = Keeps-bind _ _ (hook-OfSession t P k "plan_validated" _) λ _.
      Keeps-bind _ _ (run_steps-OfSession t P k recorded plan.steps)
        λ _. finish-OfSession recorded plan

  pub assemble_keeps :
      (plan : Option QueryPlan) (recorded : Option (List (Source × Page)))
      → Keeps P (assemble t plan recorded)
  unfolding assemble
  assemble_keeps plan recorded = record {
    at = λ s p. elim (Result-cases (requested t plan)) [
      | inr (e, q) ↦ rw (assemble, q) p
      | inl (checked, q) ↦
          rw (assemble, q) ((gather-OfSession recorded checked).at (nothing_yet s) p)
    ];
  }
