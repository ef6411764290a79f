-- ===== src/Worker/Gather/Sessions.antt =====
-- What every call of the runtime keeps true of its own state, the handling of a page keeps.
pub mod Loop
use incident_desk.Prelude.{
  Bool, Bool-cases, Exec, Keeps, Keeps-bind, Keeps-lift, Keeps-pure, Keeps-raise, List, Option,
  String, [], false, inl, inr, refl, subst, sym, true, ℕ, ◌∷◌, ◌≡◌,
}
use incident_desk.Json.Defs.{Value, hashable}
use incident_desk.Worker.Contracts.{
  Evidence, Fact, PlanStep, Source, cluster, deployments, git, logs, runbook,
}
use incident_desk.Worker.Gather.{
  add_freshness, hook_after, keep_retrieval, ok_payload, store_page, use_page,
}
use incident_desk.Worker.Gather.Base.{Gather, Tools, add_missing, on_session, when_true}
use incident_desk.Worker.Gather.Row.{
  add_deployment_version, add_evidence, add_fact, add_log_version, add_row, add_rows, add_versions,
  record_row,
}
use incident_desk.Worker.Session.{Page, SourceRow, authorize, hook}

module _ {S : Type 0} (t : Tools S) (P : S → Type 0) where
  -- Every call of the runtime keeps `P`.
  pub record RuntimeKeeps : Type 0 where
    pub authorizes : (tool : String) → Keeps P (t.authorize tool)
    pub hooks : (name : String) (payload : Value) → Keeps P (t.hook name payload)
    pub queries :
        (src : Source) (step : PlanStep) (cursor : Option String)
        → Keeps P (t.query src step cursor)

  abbrev pub OfSession : Gather S → Type 0
  OfSession g = P g.session

  module _ (k : RuntimeKeeps) where
    pub on_session-OfSession :
        {A : Type 0} (m : Exec S A) → Keeps P m → Keeps OfSession (on_session m)
    unfolding on_session
    on_session-OfSession m h = record { at = λ g p. h.at g.session p }

    quiet :
        {A : Type 0} (m : Exec (Gather S) A)
        → ((g : Gather S) → (m g).1.session ≡ g.session)
        → Keeps OfSession m
    quiet m q = record { at = λ g p. subst P (sym (q g)) p }

    pub hook-OfSession :
        (name : String) (payload : Value) → Keeps OfSession (on_session (t.hook name payload))
    hook-OfSession name payload = on_session-OfSession _ (k.hooks name payload)

    pub authorize-OfSession : (tool : String) → Keeps OfSession (on_session (t.authorize tool))
    authorize-OfSession tool = on_session-OfSession _ (k.authorizes tool)

    pub query-OfSession :
        (src : Source) (step : PlanStep) (cursor : Option String)
        → Keeps OfSession (on_session (t.query src step cursor))
    query-OfSession src step cursor = on_session-OfSession _ (k.queries src step cursor)

    pub add_missing-OfSession : (text : String) → Keeps OfSession (add_missing {S = S} text)
    unfolding add_missing
    add_missing-OfSession text = quiet (add_missing text) (λ g. refl)

    when_true-OfSession :
        (b : Bool) (m : Exec (Gather S) (Unit {0}))
        → Keeps OfSession m
        → Keeps OfSession (when_true b m)
    unfolding when_true
    when_true-OfSession true m h = h
    when_true-OfSession false m h = Keeps-pure tt

    store_page-OfSession : (step : PlanStep) (out : Page) → Keeps OfSession (store_page t step out)
    unfolding store_page
    store_page-OfSession step out = quiet (store_page t step out) (λ g. refl)

    add_freshness-OfSession :
        (step : PlanStep) (out : Page) → Keeps OfSession (add_freshness t step out)
    unfolding add_freshness
    add_freshness-OfSession step out = quiet (add_freshness t step out) (λ g. refl)

    pub keep_retrieval-OfSession :
        (out : Page) (pages : ℕ) → Keeps OfSession (keep_retrieval t out pages)
    unfolding keep_retrieval
    keep_retrieval-OfSession out pages = quiet (keep_retrieval t out pages) (λ g. refl)

    add_evidence-OfSession : (e : Evidence) → Keeps OfSession (add_evidence t e)
    unfolding add_evidence
    add_evidence-OfSession e = quiet (add_evidence t e) (λ g. refl)

    add_fact-OfSession : (f : Fact) → Keeps OfSession (add_fact t f)
    unfolding add_fact
    add_fact-OfSession f = quiet (add_fact t f) (λ g. refl)

    hook_after-OfSession : (step : PlanStep) → Keeps OfSession (hook_after t step)
    unfolding hook_after on_session
    hook_after-OfSession step = record {
      at = λ g p. (k.hooks "tool_after" (ok_payload t step g)).at g.session p;
    }

    add_log_version-OfSession : (v : Value) → Keeps OfSession (add_log_version t v)
    unfolding add_log_version
    add_log_version-OfSession v = record {
      at = λ g p. elim (Bool-cases (hashable v)) [
        | inl e ↦ rw (e, add_log_version) p
        | inr e ↦ rw (e, add_log_version) p
      ];
    }

    add_deployment_version-OfSession : (v : Value) → Keeps OfSession (add_deployment_version t v)
    unfolding add_deployment_version
    add_deployment_version-OfSession v = record {
      at = λ g p. elim (Bool-cases (hashable v)) [
        | inl e ↦ rw (e, add_deployment_version) p
        | inr e ↦ rw (e, add_deployment_version) p
      ];
    }

    ruleset session_rules = (
      Keeps-pure, Keeps-raise, Keeps-lift, Keeps-bind, hook-OfSession, authorize-OfSession,
      query-OfSession, add_missing-OfSession, when_true-OfSession, store_page-OfSession,
      add_freshness-OfSession, keep_retrieval-OfSession, add_evidence-OfSession, add_fact-OfSession,
      hook_after-OfSession, add_log_version-OfSession, add_deployment_version-OfSession,
    )

    add_versions-OfSession :
        (src : Source) (content : Value) → Keeps OfSession (add_versions t src content)
    unfolding add_versions
    add_versions-OfSession logs content = search session_rules depth 12
    add_versions-OfSession deployments content = search session_rules depth 12
    add_versions-OfSession git content = Keeps-pure tt
    add_versions-OfSession runbook content = Keeps-pure tt
    add_versions-OfSession cluster content = Keeps-pure tt

    add_row-OfSession :
        (step : PlanStep) (observed_at : String) (row : SourceRow)
        → Keeps OfSession (add_row t step observed_at row)
    unfolding add_row record_row
    add_row-OfSession step observed_at row = search (session_rules, add_versions-OfSession) depth 14

    add_rows-OfSession :
        (step : PlanStep) (observed_at : String) (rows : List SourceRow)
        → Keeps OfSession (add_rows t step observed_at rows)
    unfolding add_rows
    add_rows-OfSession step observed_at [] = Keeps-pure tt
    add_rows-OfSession step observed_at (row ∷ rest) =
        Keeps-bind _ _ (add_row-OfSession step observed_at row)
          (λ _. add_rows-OfSession step observed_at rest)

    pub use_page-OfSession : (step : PlanStep) (out : Page) → Keeps OfSession (use_page t step out)
    unfolding use_page
    use_page-OfSession step out = search (session_rules, add_rows-OfSession) depth 14
