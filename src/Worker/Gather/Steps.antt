-- ===== src/Worker/Gather/Steps.antt =====
-- The steps of a plan keep the ledger, whatever the runtime answers and whatever is raised.
use incident_desk.Prelude.{
  Bool, Bool-cases, Exc, Exec, Keeps, Keeps-bind, Keeps-lift, Keeps-pure, Keeps-raise, List, Option,
  Option-cases, Result, String, [], err, inl, inr, nat_eq, none, ok, refl, some, string_eq, ℕ, ◌==◌,
  ◌||◌, ◌∷◌, ◌≡◌,
}
use incident_desk.Worker.Contracts.{PlanStep, Source, logs, object_eq, source_eq}
use incident_desk.Worker.Gather.{
  add_freshness, all_pages, attempt_step, catch, degrade, hook_after, is_fatal, is_recorded,
  keep_retrieval, query_live, query_recorded, query_step, redact_page, run_step, run_steps,
  store_page, use_page,
}
use incident_desk.Worker.Gather.Base.{
  Gather, Tools, add_missing, find_record, on_session, when_true,
}
use incident_desk.Worker.Gather.Ledger.{
  Ledger, Ledger-same, add_missing-Ledger, add_rows-Ledger, on_session-Ledger, when_true_keeps,
}
use incident_desk.Worker.Gather.Row.{add_rows}
use incident_desk.Worker.Session.{Page, SourceRow}

module _ {S : Type 0} (t : Tools S) where
  -- A method that changes neither the evidence nor the facts keeps the ledger.
  quiet :
      {A : Type 0} (m : Exec (Gather S) A)
      → ((g : Gather S) → ((m g).1.evidence ≡ g.evidence) × ((m g).1.facts ≡ g.facts))
      → Keeps (Ledger t) m
  quiet m q = record { at = λ g l. Ledger-same t g (m g).1 (q g).0 (q g).1 l }

  on_session-Keeps : {A : Type 0} (m : Exec S A) → Keeps (Ledger t) (on_session m)
  on_session-Keeps m = record { at = on_session-Ledger t m }

  add_missing-Keeps : (text : String) → Keeps (Ledger t) (add_missing text)
  add_missing-Keeps text = record { at = add_missing-Ledger t text }

  when_true-Keeps :
      (b : Bool) (m : Exec (Gather S) (Unit {0}))
      → Keeps (Ledger t) m
      → Keeps (Ledger t) (when_true b m)
  when_true-Keeps b m k = record { at = λ g l. when_true_keeps t (Ledger t) b m g l (k.at g l) }

  add_rows-Keeps :
      (step : PlanStep) (observed_at : String) (rows : List SourceRow)
      → Keeps (Ledger t) (add_rows t step observed_at rows)
  add_rows-Keeps step observed_at rows = record { at = add_rows-Ledger t step observed_at rows }

  store_page-Keeps : (step : PlanStep) (out : Page) → Keeps (Ledger t) (store_page t step out)
  unfolding store_page
  store_page-Keeps step out = quiet (store_page t step out) (λ g. (refl, refl))

  add_freshness-Keeps : (step : PlanStep) (out : Page) → Keeps (Ledger t) (add_freshness t step out)
  unfolding add_freshness
  add_freshness-Keeps step out = quiet (add_freshness t step out) (λ g. (refl, refl))

  hook_after-Keeps : (step : PlanStep) → Keeps (Ledger t) (hook_after t step)
  unfolding hook_after on_session
  hook_after-Keeps step = quiet (hook_after t step) (λ g. (refl, refl))

  keep_retrieval-Keeps : (out : Page) (pages : ℕ) → Keeps (Ledger t) (keep_retrieval t out pages)
  unfolding keep_retrieval
  keep_retrieval-Keeps out pages = quiet (keep_retrieval t out pages) (λ g. (refl, refl))

  ruleset ledger_rules = (
    Keeps-pure, Keeps-raise, Keeps-lift, Keeps-bind, on_session-Keeps, add_missing-Keeps,
    when_true-Keeps, add_rows-Keeps, store_page-Keeps, add_freshness-Keeps, hook_after-Keeps,
    keep_retrieval-Keeps,
  )

  all_pages-Keeps : (step : PlanStep) (first : Page) → Keeps (Ledger t) (all_pages t step first)
  unfolding all_pages
  all_pages-Keeps step first = search ledger_rules

  use_page-Keeps : (step : PlanStep) (out : Page) → Keeps (Ledger t) (use_page t step out)
  unfolding use_page
  use_page-Keeps step out = search ledger_rules depth 12

  query_live-Keeps : (step : PlanStep) → Keeps (Ledger t) (query_live t step)
  unfolding query_live
  query_live-Keeps step = elim (Bool-cases (step.source == logs)) [
    | inl e ↦ rw e (Keeps-bind _ _ (on_session-Keeps _) (λ first. all_pages-Keeps step first))
    | inr e ↦ rw e (Keeps-bind _ _ (on_session-Keeps _) (λ first. Keeps-pure first))
  ]

  query_recorded-Keeps :
      (step : PlanStep) (recorded : List (Source × Page))
      → Keeps (Ledger t) (query_recorded t step recorded)
  unfolding query_recorded
  query_recorded-Keeps step recorded = elim (Option-cases (find_record step.source recorded)) [
    | inl e ↦ rw (query_recorded, e) (Keeps-raise _)
    | inr (out, e) ↦
        rw (query_recorded, e) (Keeps-bind _ _ (on_session-Keeps _) (λ _. Keeps-pure out))
  ]

  query_step-Keeps :
      (recorded : Option (List (Source × Page))) (step : PlanStep)
      → Keeps (Ledger t) (query_step t recorded step)
  unfolding query_step
  query_step-Keeps none step = query_live-Keeps step
  query_step-Keeps (some recorded) step = query_recorded-Keeps step recorded

  attempt_step-Keeps :
      (recorded : Option (List (Source × Page))) (step : PlanStep)
      → Keeps (Ledger t) (attempt_step t recorded step)
  unfolding attempt_step
  attempt_step-Keeps recorded step =
      Keeps-bind _ _ (query_step-Keeps recorded step) (λ out. use_page-Keeps step (redact_page out))

  degrade-Keeps :
      (recorded : Option (List (Source × Page))) (step : PlanStep) (e : Exc)
      → Keeps (Ledger t) (degrade t recorded step e)
  unfolding degrade
  degrade-Keeps recorded step e = elim (Bool-cases (is_fatal e || is_recorded t recorded)) [
    | inl q ↦ rw q (Keeps-raise e)
    | inr q ↦ rw q (Keeps-bind _ _ (add_missing-Keeps _) (λ _. on_session-Keeps _))
  ]

  catch-Keeps :
      (recorded : Option (List (Source × Page))) (step : PlanStep) (r : Result (Unit {0}))
      → Keeps (Ledger t) (catch t recorded step r)
  unfolding catch
  catch-Keeps recorded step (ok _) = record { at = λ g l. l }
  catch-Keeps recorded step (err e) = record { at = λ g l. (degrade-Keeps recorded step e).at g l }

  run_step-Keeps :
      (recorded : Option (List (Source × Page))) (step : PlanStep)
      → Keeps (Ledger t) (run_step t recorded step)
  unfolding run_step
  run_step-Keeps recorded step = Keeps-bind _ _ (on_session-Keeps _) λ _. record {
    at = λ g l.
        (catch-Keeps recorded step (attempt_step t recorded step g).0).at
          (attempt_step t recorded step g).1 ((attempt_step-Keeps recorded step).at g l);
  }

  pub run_steps-Keeps :
      (recorded : Option (List (Source × Page))) (steps : List PlanStep)
      → Keeps (Ledger t) (run_steps t recorded steps)
  unfolding run_steps
  run_steps-Keeps recorded [] = Keeps-pure tt
  run_steps-Keeps recorded (step ∷ rest) =
      Keeps-bind _ _ (run_step-Keeps recorded step) (λ _. run_steps-Keeps recorded rest)
