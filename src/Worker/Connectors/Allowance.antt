-- ===== src/Worker/Connectors/Allowance.antt =====
-- The budget of a task, over everything that a task does with its session.
use incident_desk.Prelude.{
  Bool, List, Option, String, [], arith, continue_keeps, false, if◌then◌else◌, refl, subst, suc,
  true, ℕ, ◌+◌, ◌∷◌, ◌≡◌, ◌≤◌,
}
use incident_desk.Json.Defs.{Value}
use incident_desk.Worker.Circuit.{Circuit}
use incident_desk.Worker.Circuit.Attempts.{call_keeps}
use incident_desk.Worker.Connectors.{circuit_fetch, query_source, read_rows}
use incident_desk.Worker.Contracts.{PlanStep, RunContext, Source, deployments, source_name}
use incident_desk.Worker.Session.{
  Answer, Session, World, authorize, authorize_tool, call_task, event, fetch, heartbeat, hook,
  new_session, read_clock, report_failure, send_result,
}
use incident_desk.Worker.Session.Allowance.{
  Accounts, ask-Accounts, authorizations, authorize-Accounts, call_task-Accounts, event-Accounts,
  fetch-Accounts, hook-Accounts, is_authorize, new_session-Accounts, read_clock-Accounts,
  send_result-Accounts,
}

module _ (w : World) (run : RunContext) (asked : ℕ) where
  circuit_fetch-Accounts :
      (src : Source) (limit : ℕ) (cursor : Option String) (s : Session)
      → Accounts run asked s
      → Accounts run asked (circuit_fetch w src limit cursor s).1
  unfolding circuit_fetch
  circuit_fetch-Accounts src limit cursor s v =
      let inner =
        call_keeps (read_clock w) (fetch w src cursor limit) (Accounts run asked)
          (read_clock-Accounts w run asked) (fetch-Accounts w run asked src cursor limit)
          (s.circuits src) s v in
      record { same_run = inner.same_run; counted = inner.counted; bounded = inner.bounded }

  read_rows-Accounts :
      (step : PlanStep) (cursor : ℕ) (scope : Answer) (s : Session)
      → Accounts run asked s
      → Accounts run asked (read_rows w step cursor scope s).1
  unfolding read_rows
  read_rows-Accounts step cursor scope s v = ground arith

  pub query_source-Accounts :
      (src : Source) (step : PlanStep) (cursor : Option String) (s : Session)
      → Accounts run asked s
      → Accounts run asked (query_source w src step cursor s).1
  unfolding query_source
  query_source-Accounts deployments step cursor s v =
      continue_keeps (Accounts run asked) (authorize w "deployments" s).0 (read_rows w step 0)
        (authorize w "deployments" s).1 (authorize-Accounts w run asked "deployments" s v)
        (λ a _. read_rows-Accounts step 0 a _ (authorize-Accounts w run asked "deployments" s v))
  query_source-Accounts src step cursor s v =
      continue_keeps (Accounts run asked) (authorize w (source_name src) s).0
        (λ _. circuit_fetch w src step.limit cursor) (authorize w (source_name src) s).1
        (authorize-Accounts w run asked (source_name src) s v)
        (λ a _.
          circuit_fetch-Accounts src step.limit cursor _
            (authorize-Accounts w run asked (source_name src) s v))

-- What a task may do with its session, in any order and number.
pub data Action : Type 0 where
  authorizes : (tool : String) → Action
  reports : (kind : String) (payload : Value) → Action
  hooks : (name : String) (summary : Value) (policy : Bool) → Action
  queries : Source → PlanStep → (cursor : Option String) → Action
  finishes : (status : String) (report manifest : Value) (callback_id : String) → Action
  fails : (kind : String) → Action
  beats : Action
  -- rt.call("authorize", tool=...), which process makes to reuse the report of a generation before
  asks : (tool : String) → Action

pub perform : World → Action → Session → Session
perform w (authorizes tool) s = (authorize w tool s).1
perform w (reports kind payload) s = (event w kind payload s).1
perform w (hooks name summary policy) s = (hook w name summary policy s).1
perform w (queries src step cursor) s = (query_source w src step cursor s).1
perform w (finishes status report manifest callback_id) s =
    (send_result w status report manifest callback_id s).1
perform w (fails kind) s = (call_task w (report_failure kind) s).1
perform w beats s = (call_task w heartbeat s).1
perform w (asks tool) s = (call_task w (authorize_tool tool) s).1

-- The authorization is asked for past the count of the runtime.
is_direct : Action → Bool
is_direct (asks tool) = true
is_direct _ = false

-- How many actions ask for an authorization directly.
pub asked_directly : List Action → ℕ
unfolding is_direct
asked_directly [] = 0
asked_directly (a ∷ rest) = if is_direct a then suc (asked_directly rest) else asked_directly rest

pub perform_all : World → List Action → Session → Session
perform_all w [] s = s
perform_all w (a ∷ rest) s = perform_all w rest (perform w a s)

module _ (w : World) (run : RunContext) where
  abbrev asked_after : Action → ℕ → ℕ
  asked_after a n = if is_direct a then suc n else n

  perform-Accounts :
      (asked : ℕ) (a : Action) (s : Session)
      → Accounts run asked s
      → Accounts run (asked_after a asked) (perform w a s)
  unfolding perform is_authorize is_direct
  perform-Accounts asked (authorizes tool) s v = authorize-Accounts w run asked tool s v
  perform-Accounts asked (reports kind payload) s v = event-Accounts w run asked kind payload s v
  perform-Accounts asked (hooks name summary policy) s v =
      hook-Accounts w run asked name summary policy s v
  perform-Accounts asked (queries src step cursor) s v =
      query_source-Accounts w run asked src step cursor s v
  perform-Accounts asked (finishes status report manifest callback_id) s v =
      send_result-Accounts w run asked status report manifest callback_id s v
  perform-Accounts asked (fails kind) s v =
      call_task-Accounts w run asked (report_failure kind) s refl v
  perform-Accounts asked beats s v = call_task-Accounts w run asked heartbeat s refl v
  perform-Accounts asked (asks tool) s v = ask-Accounts w run asked tool s v

  perform_all-Accounts :
      (asked : ℕ) (actions : List Action) (s : Session)
      → Accounts run asked s
      → Accounts run (asked + asked_directly actions) (perform_all w actions s)
  unfolding perform_all asked_directly
  perform_all-Accounts asked [] s v =
      let e : asked ≡ asked + 0 = omega arith in subst (λ n. Accounts run n s) e v
  perform_all-Accounts asked (a ∷ rest) s v =
      let e : asked_after a asked + asked_directly rest ≡ asked + asked_directly (a ∷ rest) =
        ground arith in
      subst (λ n. Accounts run n (perform_all w rest (perform w a s))) e
        (perform_all-Accounts (asked_after a asked) rest (perform w a s)
          (perform-Accounts asked a s v))

  -- Whatever the control plane, the sources and the clock answer, and whatever a task does with a
  -- new session, in any order and with queries retried or refused by a circuit, the requests for
  -- an authorization that it sends are at most the steps of its budget plus those that it makes
  -- directly, past the count of the runtime.
  pub authorizations-perform_all :
      (circuits : Source → Circuit) (ticks : ℕ) (actions : List Action)
      → authorizations (perform_all w actions (new_session w run circuits ticks)).sent
        ≤ run.budget.steps + asked_directly actions
  authorizations-perform_all circuits ticks actions =
      let v =
        perform_all-Accounts 0 actions (new_session w run circuits ticks)
          (new_session-Accounts w run circuits ticks) in
      omega (arith, v.counted, v.bounded)
