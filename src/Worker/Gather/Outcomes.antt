-- ===== src/Worker/Gather/Outcomes.antt =====
-- How a failing step ends: what is raised to the worker, and what only becomes a gap of the bundle.
use incident_desk.Prelude.{
  Bool-cases, Exc, Exec, List, Result, Result-cases, String, [], ap, contains, err, false, inl, inr,
  nat_eq, none, ok, refl, string_eq, subst, sym, true, ◌++◌, ◌∙◌, ◌∷◌, ◌≡◌,
}
use incident_desk.Json.Defs.{Value, no_fields}
use incident_desk.Worker.Contracts.{PlanStep, object_eq, source_eq}
use incident_desk.Worker.Gather.{
  attempt_step, catch, degrade, failure_note, is_fatal, run_step, run_steps, source_payload,
}
use incident_desk.Worker.Gather.Base.{Gather, Tools, add_missing, on_session}
use incident_desk.Worker.Session.{hook_names}

module _ {S : Type 0} (t : Tools S) where
  -- Every hook that the control plane knows returns; with any other name a hook raises a ValueError.
  unfoldable pub HooksReturn : Type 0
  HooksReturn =
      (name : String) (payload : Value) (s : S)
      → contains name hook_names ≡ true
      → (t.hook name payload s).0 ≡ ok tt

  abbrev pub hooked : String → Value → Exec (Gather S) (Unit {0})
  hooked name payload = on_session (t.hook name payload)

  hooked-ok :
      (quiet : HooksReturn) (name : String) (payload : Value) (g : Gather S)
      → contains name hook_names ≡ true
      → (hooked name payload g).0 ≡ ok tt
  unfolding on_session HooksReturn
  hooked-ok quiet name payload g known = quiet name payload g.session known

  -- An exception that leaves the block is one of those that end an investigation.
  OnlyFatal : Result (Unit {0}) → Type 0
  OnlyFatal r = (e : Exc) → r ≡ err e → is_fatal e ≡ true

  abbrev before : PlanStep → Gather S → Gather S
  before step g = (hooked "tool_before" (source_payload step.source no_fields) g).1

  -- The state in which the `try` block of a step leaves off.
  abbrev pub left_at : PlanStep → Gather S → Gather S
  left_at step g = (attempt_step t none step (before step g)).1

  degrade-other :
      (quiet : HooksReturn) (step : PlanStep) (e : Exc) (g : Gather S)
      → is_fatal e ≡ false
      → ((degrade t none step e g).0 ≡ ok tt)
        × ((degrade t none step e g).1.missing ≡ g.missing ++ failure_note step.source e ∷ [])
        × ((degrade t none step e g).1.evidence ≡ g.evidence)
  unfolding degrade add_missing on_session HooksReturn
  degrade-other quiet step e g other = rw (degrade, other) (quiet _ _ _ refl, refl, refl)

  degrade-fatal :
      (step : PlanStep) (e : Exc) (g : Gather S)
      → is_fatal e ≡ true
      → (degrade t none step e g).0 ≡ err e
  unfolding degrade
  degrade-fatal step e g fatal = rw (degrade, fatal) refl

  ok-err : {A : Type 0} {P : Type 0} {a : A} {e : Exc} → ok a ≡ err e → P
  ok-err h = cc

  err-injective : {A : Type 0} {e x : Exc} → ◌≡◌ {A = Result A} (err e) (err x) → e ≡ x
  err-injective h = cc

  run_step-unfold :
      (quiet : HooksReturn) (step : PlanStep) (g : Gather S)
      → run_step t none step g
        ≡ catch t none step (attempt_step t none step (before step g)).0 (left_at step g)
  unfolding run_step
  run_step-unfold quiet step g =
      rw (hooked-ok quiet "tool_before" (source_payload step.source no_fields) g refl) refl

  -- A live step whose `try` block raises an exception that is not fatal returns all the same, if the
  -- known hooks return: the class of the exception is appended to the gaps, with the name of the source,
  -- and the evidence is what the block had collected.
  pub run_step_degrades :
      (quiet : HooksReturn) (step : PlanStep) (g : Gather S) (e : Exc)
      → (attempt_step t none step (before step g)).0 ≡ err e
      → is_fatal e ≡ false
      → ((run_step t none step g).0 ≡ ok tt)
        × ((run_step t none step g).1.missing
            ≡ (left_at step g).missing ++ failure_note step.source e ∷ [])
        × ((run_step t none step g).1.evidence ≡ (left_at step g).evidence)
  unfolding catch
  run_step_degrades quiet step g e failed other =
      rw (run_step-unfold quiet step g, failed) (degrade-other quiet step e (left_at step g) other)

  catch-OnlyFatal :
      (quiet : HooksReturn) (step : PlanStep) (r : Result (Unit {0})) (g : Gather S)
      → OnlyFatal (catch t none step r g).0
  unfolding catch OnlyFatal
  catch-OnlyFatal quiet step (ok _) g e p = cc
  catch-OnlyFatal quiet step (err x) g e p = elim (Bool-cases (is_fatal x)) [
    | inr other ↦ ok-err (sym (degrade-other quiet step x g other).0 ∙ p)
    | inl fatal ↦
        subst (λ y. is_fatal y ≡ true) (err-injective (sym (degrade-fatal step x g fatal) ∙ p))
          fatal
  ]

  run_step-OnlyFatal :
      (quiet : HooksReturn) (step : PlanStep) (g : Gather S) → OnlyFatal (run_step t none step g).0
  run_step-OnlyFatal quiet step g =
      rw (run_step-unfold quiet step g) (catch-OnlyFatal quiet step _ _)

  run_steps-OnlyFatal :
      (quiet : HooksReturn) (steps : List PlanStep) (g : Gather S)
      → OnlyFatal (run_steps t none steps g).0
  unfolding run_steps OnlyFatal
  run_steps-OnlyFatal quiet [] g e p = cc
  run_steps-OnlyFatal quiet (step ∷ rest) g e p = elim (Result-cases (run_step t none step g).0) [
    | inl (a, q) ↦ run_steps-OnlyFatal quiet rest (run_step t none step g).1 e (sym (rw q refl) ∙ p)
    | inr (x, q) ↦ run_step-OnlyFatal quiet step g e (q ∙ sym (rw q refl) ∙ p)
  ]

  pub run_steps_raises :
      (quiet : HooksReturn) (steps : List PlanStep) (g g' : Gather S) (e : Exc)
      → run_steps t none steps g ≡ (err e, g')
      → is_fatal e ≡ true
  unfolding OnlyFatal
  run_steps_raises quiet steps g g' e h = run_steps-OnlyFatal quiet steps g e (ap (λ p. p.0) h)
