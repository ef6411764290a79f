-- ===== src/Worker/Assemble/Finish.antt =====
-- worker/incident_worker/context.py, the end of `assemble`: a property of the built bundle that does
-- not depend on its memories holds of the returned one.
use incident_desk.Prelude.{
  Exec, List, Option, Result-cases, Yields, Yields-ok, continue-Yields, inl, inr, length, none, ok,
  pure, some, ◌>>◌, ◌≡◌,
}
use incident_desk.Json.Defs.{Value, dict, field, int, no_fields}
use incident_desk.Worker.Assemble.{
  assemble, assembled_payload, build, finish, gather, requested, with_memories,
}
use incident_desk.Worker.Contracts.{ContextBundle, QueryPlan, Source}
use incident_desk.Worker.Gather.{run_steps}
use incident_desk.Worker.Gather.Base.{Gather, Tools, nothing_yet, on_session}
use incident_desk.Worker.Session.{Page}

-- A property of the bundle, of the pair that `assemble` returns.
abbrev pub OfBundle : (ContextBundle → Type 0) → ContextBundle × List (Source × Page) → Type 0
OfBundle P p = P p.0

module _ {S : Type 0} (t : Tools S) where
  -- The first hook of the investigation.
  abbrev pub announced : QueryPlan → Exec (Gather S) (Unit {0})
  announced plan =
      on_session
        (t.hook "plan_validated" (dict (field "steps" (int (length plan.steps)) no_fields)))

  module _ (P : ContextBundle → Type 0) where
    returned-Yields :
        (b : ContextBundle) (records : List (Source × Page)) (m : Exec (Gather S) (Unit {0}))
        (g : Gather S)
        → P b
        → Yields (OfBundle P) ((m >> pure (b, records)) g).0
    returned-Yields b records m g h =
        let (r, g') = m g in continue-Yields (OfBundle P) r (λ _. pure (b, records)) g' (λ _ _. h)

    pub assemble-Yields :
        (plan : Option QueryPlan) (recorded : Option (List (Source × Page))) (s : S)
        → ((checked : QueryPlan)
            → requested t plan ≡ ok checked
            → Yields (OfBundle P) (gather t recorded checked (nothing_yet s)).0)
        → Yields (OfBundle P) (assemble t plan recorded s).0
    unfolding assemble
    assemble-Yields plan recorded s k = elim (Result-cases (requested t plan)) [
      | inr (e, q) ↦ rw (Yields, q) tt
      | inl (checked, q) ↦ rw (Yields, q) (k checked q)
    ]

    module _ (stable : (b : ContextBundle) (m : Value) → P b → P (record b { memories = m })) where
      with_memories-Yields :
          (recorded : Option (List (Source × Page))) (b : ContextBundle) (g : Gather S)
          → P b
          → Yields P (with_memories t recorded b g).0
      unfolding with_memories
      with_memories-Yields (some _) b g h = h
      with_memories-Yields none b g h =
          let (r, g') = on_session (t.authorize "memory") g in
          continue-Yields P r (λ historical. pure (record b { memories = historical.memories })) g'
            (λ a _. stable b a.memories h)

      finish-Yields :
          (recorded : Option (List (Source × Page))) (plan : QueryPlan) (g : Gather S)
          → Yields P (build t plan g)
          → Yields (OfBundle P) (finish t recorded plan g).0
      unfolding finish
      finish-Yields recorded plan g h = continue-Yields (OfBundle P) (build t plan g) _ g λ b q.
          continue-Yields (OfBundle P) (with_memories t recorded b g).0 _ _ λ whole p.
            returned-Yields whole g.records
              (on_session (t.hook "context_assembled" (assembled_payload t whole)))
              (with_memories t recorded b g).1
              (Yields-ok P (with_memories t recorded b g).0 p
                (with_memories-Yields recorded b g (Yields-ok P (build t plan g) q h)))

      pub gather-Yields :
          (recorded : Option (List (Source × Page))) (plan : QueryPlan) (g : Gather S)
          → Yields P (build t plan (run_steps t recorded plan.steps (announced plan g).1).1)
          → Yields (OfBundle P) (gather t recorded plan g).0
      unfolding gather
      gather-Yields recorded plan g h =
          continue-Yields (OfBundle P) (announced plan g).0
            (λ _. run_steps t recorded plan.steps >> finish t recorded plan) (announced plan g).1
            λ _ _.
              continue-Yields (OfBundle P) (run_steps t recorded plan.steps (announced plan g).1).0
                (λ _. finish t recorded plan)
                (run_steps t recorded plan.steps (announced plan g).1).1
                λ _ _.
                  finish-Yields recorded plan
                    (run_steps t recorded plan.steps (announced plan g).1).1 h
