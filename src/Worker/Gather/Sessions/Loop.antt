-- ===== src/Worker/Gather/Sessions/Loop.antt =====
-- What every call of the runtime keeps true of its own state, the steps of a plan keep.
use incident_desk.Prelude.{
  Bool-cases, Exc, Exec, Keeps, Keeps-bind, Keeps-pure, Keeps-raise, List, Option, Option-cases,
  Result, String, [], err, inl, inr, nat_eq, none, ok, pure, some, string_eq, suc, zero, ℕ, ◌+◌,
  ◌==◌, ◌||◌, ◌∷◌,
}
use incident_desk.Worker.Contracts.{PlanStep, Source, logs, object_eq, source_eq}
use incident_desk.Worker.Gather.{
  all_pages, attempt_step, catch, degrade, extended, is_fatal, is_recorded, more_pages, on_cursor,
  query_live, query_recorded, query_step, redact_page, run_step, run_steps,
}
use incident_desk.Worker.Gather.Base.{Tools, find_record}
use incident_desk.Worker.Gather.Sessions.{
  OfSession, RuntimeKeeps, add_missing-OfSession, authorize-OfSession, hook-OfSession,
  keep_retrieval-OfSession, on_session-OfSession, query-OfSession, use_page-OfSession,
}
use incident_desk.Worker.Session.{Page}

module _ {S : Type 0} (t : Tools S) (P : S → Type 0) where
  module _ (k : RuntimeKeeps t P) where
    on_cursor_keeps :
        {A : Type 0} (o : Option String) (done : Exec S A) (go : String → Exec S A)
        → Keeps P done
        → ((cursor : String) → Keeps P (go cursor))
        → Keeps P (on_cursor t o done go)
    on_cursor_keeps none done go h f = h
    on_cursor_keeps (some cursor) done go h f = elim (Bool-cases (cursor == "")) [
      | inl e ↦ rw e h
      | inr e ↦ rw e (f cursor)
    ]

    more_pages_keeps :
        (left : ℕ) (step : PlanStep) (out : Page) (pages : ℕ)
        → Keeps P (more_pages t left step out pages)
    unfolding more_pages
    more_pages_keeps zero step out pages = Keeps-pure (out, pages)
    more_pages_keeps (suc left) step out pages =
        on_cursor_keeps out.next_cursor (pure (out, pages)) _ (Keeps-pure (out, pages)) λ cursor.
          Keeps-bind _ _ (k.queries step.source step (some cursor))
            λ more. more_pages_keeps left step (extended out more) (pages + 1)

    all_pages-OfSession :
        (step : PlanStep) (first : Page) → Keeps (OfSession t P) (all_pages t step first)
    unfolding all_pages
    all_pages-OfSession step first =
        Keeps-bind _ _ (on_session-OfSession t P k _ (more_pages_keeps 2 step first 1))
          (λ r. keep_retrieval-OfSession t P k r.0 r.1)

    query_live-OfSession : (step : PlanStep) → Keeps (OfSession t P) (query_live t step)
    unfolding query_live
    query_live-OfSession step = elim (Bool-cases (step.source == logs)) [
      | inl e ↦ rw e (
          Keeps-bind _ _ (query-OfSession t P k step.source step none)
            (λ first. all_pages-OfSession step first))
      | inr e ↦
          rw e (
            Keeps-bind _ _ (query-OfSession t P k step.source step none)
              (λ first. Keeps-pure first))
    ]

    query_recorded-OfSession :
        (step : PlanStep) (recorded : List (Source × Page))
        → Keeps (OfSession t P) (query_recorded t step recorded)
    unfolding query_recorded
    query_recorded-OfSession step recorded =
        elim (Option-cases (find_record step.source recorded)) [
          | inl e ↦ rw (query_recorded, e) (Keeps-raise _)
          | inr (out, e) ↦
              rw (query_recorded, e)
                (Keeps-bind _ _ (authorize-OfSession t P k _) (λ _. Keeps-pure out))
        ]

    query_step-OfSession :
        (recorded : Option (List (Source × Page))) (step : PlanStep)
        → Keeps (OfSession t P) (query_step t recorded step)
    unfolding query_step
    query_step-OfSession none step = query_live-OfSession step
    query_step-OfSession (some recorded) step = query_recorded-OfSession step recorded

    attempt_step-OfSession :
        (recorded : Option (List (Source × Page))) (step : PlanStep)
        → Keeps (OfSession t P) (attempt_step t recorded step)
    unfolding attempt_step
    attempt_step-OfSession recorded step =
        Keeps-bind _ _ (query_step-OfSession recorded step)
          (λ out. use_page-OfSession t P k step (redact_page out))

    degrade-OfSession :
        (recorded : Option (List (Source × Page))) (step : PlanStep) (e : Exc)
        → Keeps (OfSession t P) (degrade t recorded step e)
    unfolding degrade
    degrade-OfSession recorded step e = elim (Bool-cases (is_fatal e || is_recorded t recorded)) [
      | inl q ↦ rw q (Keeps-raise e)
      | inr q ↦
          rw q (Keeps-bind _ _ (add_missing-OfSession t P k _) (λ _. hook-OfSession t P k _ _))
    ]

    catch-OfSession :
        (recorded : Option (List (Source × Page))) (step : PlanStep) (r : Result (Unit {0}))
        → Keeps (OfSession t P) (catch t recorded step r)
    unfolding catch
    catch-OfSession recorded step (ok _) = record { at = λ g l. l }
    catch-OfSession recorded step (err e) = record {
      at = λ g l. (degrade-OfSession recorded step e).at g l;
    }

    run_step-OfSession :
        (recorded : Option (List (Source × Page))) (step : PlanStep)
        → Keeps (OfSession t P) (run_step t recorded step)
    unfolding run_step
    run_step-OfSession recorded step = Keeps-bind _ _ (hook-OfSession t P k _ _) λ _. record {
      at = λ g l.
          (catch-OfSession recorded step (attempt_step t recorded step g).0).at
            (attempt_step t recorded step g).1 ((attempt_step-OfSession recorded step).at g l);
    }

    pub run_steps-OfSession :
        (recorded : Option (List (Source × Page))) (steps : List PlanStep)
        → Keeps (OfSession t P) (run_steps t recorded steps)
    unfolding run_steps
    run_steps-OfSession recorded [] = Keeps-pure tt
    run_steps-OfSession recorded (step ∷ rest) =
        Keeps-bind _ _ (run_step-OfSession recorded step) (λ _. run_steps-OfSession recorded rest)
