-- ===== src/Worker/Session/Allowance.antt =====
-- The budget of a task: how many tool calls are authorized, whatever the task does.
use incident_desk.Prelude.{
  Bool, Bool-cases, List, Option, Result, String, [], ap, arith, contains, err, false,
  if◌then◌else◌, inl, inr, nat_eq, ok, refl, string_eq, suc, transport_error, true, zero, ℕ, ◌+◌,
  ◌∷◌, ◌≡◌, ◌≤◌,
}
use incident_desk.Json.Defs.{Value}
use incident_desk.Worker.Circuit.{Circuit}
use incident_desk.Worker.Contracts.{RunContext, Source, object_eq, source_eq}
use incident_desk.Worker.Session.{
  Answer, Call, Request, Session, World, after_attempt, authorize, authorize_tool, call_task, event,
  fetch, hook, hook_names, hook_payload, new_session, read_clock, report_event, report_result,
  result_loop, send_result,
}

-- How many of the requests ask for an authorization.
unfoldable pub is_authorize : Request → Bool
is_authorize (authorize_tool _) = true
is_authorize _ = false

unfoldable pub authorizations : List Call → ℕ
unfolding is_authorize
authorizations [] = 0
authorizations (c ∷ sent) =
    if is_authorize c.request then suc (authorizations sent) else authorizations sent

-- What a session keeps: it belongs to its run, every authorization that was asked for is counted,
-- and the count is within the budget.
pub record WithinBudget (run : RunContext) (s : Session) : Type 0 where
  pub same_run : s.run ≡ run
  pub counted : authorizations s.sent ≡ s.calls
  pub bounded : s.calls ≤ run.budget.steps

-- The account of a session: the authorizations that were asked for are those that were counted and
-- `asked` more, and the count is within the budget.
pub record Accounts (run : RunContext) (asked : ℕ) (s : Session) : Type 0 where
  pub same_run : s.run ≡ run
  pub counted : authorizations s.sent ≡ s.calls + asked
  pub bounded : s.calls ≤ run.budget.steps

pub Accounts-WithinBudget : (run : RunContext) (s : Session) → Accounts run 0 s → WithinBudget run s
Accounts-WithinBudget run s v = record {
  same_run = v.same_run;
  counted = omega (arith, v.counted);
  bounded = v.bounded;
}

after_attempt_keeps :
    (P : Session → Type 0) (r : Result Answer) (s : Session) (again : Result Answer × Session)
    → P s
    → P again.1
    → P (after_attempt r s again).1
unfolding after_attempt
after_attempt_keeps P (err (transport_error m)) s again h k = k
after_attempt_keeps P (ok a) s again h k = h
after_attempt_keeps P (err e) s again h k = h

module _ (w : World) (run : RunContext) (asked : ℕ) where
  pub authorize-Accounts :
      (tool : String) (s : Session)
      → Accounts run asked s
      → Accounts run asked (authorize w tool s).1
  unfolding authorize authorizations
  authorize-Accounts tool s v =
      let steps : s.run.budget.steps ≡ run.budget.steps =
        ap (λ (r : RunContext). r.budget.steps) v.same_run in
      record { same_run = ground arith; counted = ground arith; bounded = ground arith }

  pub call_task-Accounts :
      (request : Request) (s : Session)
      → is_authorize request ≡ false
      → Accounts run asked s
      → Accounts run asked (call_task w request s).1
  unfolding call_task authorizations
  call_task-Accounts request s other v = ground arith

  pub event-Accounts :
      (kind : String) (payload : Value) (s : Session)
      → Accounts run asked s
      → Accounts run asked (event w kind payload s).1
  unfolding event is_authorize
  event-Accounts kind payload s v = call_task-Accounts (report_event kind payload) s refl v

  pub hook-Accounts :
      (name : String) (summary : Value) (policy : Bool) (s : Session)
      → Accounts run asked s
      → Accounts run asked (hook w name summary policy s).1
  unfolding hook
  hook-Accounts name summary policy s v = elim (Bool-cases (contains name hook_names)) [
    | inr unknown ↦ rw (unknown, hook) v
    | inl known ↦ elim (Bool-cases policy) [
      | inr denied ↦ rw (known, denied, hook) v
      | inl granted ↦
          rw (known, granted, hook) (event-Accounts "hook" (hook_payload name summary) s v)
    ]
  ]

  result_loop-Accounts :
      (left : ℕ) (request : Request) (s : Session)
      → is_authorize request ≡ false
      → Accounts run asked s
      → Accounts run asked (result_loop w left request s).1
  unfolding result_loop
  result_loop-Accounts zero request s other v = call_task-Accounts request s other v
  result_loop-Accounts (suc left) request s other v =
      let sent = call_task-Accounts request s other v in
      let s' = (call_task w request s).1 in
      after_attempt_keeps (Accounts run asked) (call_task w request s).0 s'
        (result_loop w left request s') sent (result_loop-Accounts left request s' other sent)

  pub fetch-Accounts :
      (src : Source) (cursor : Option String) (limit : ℕ) (s : Session)
      → Accounts run asked s
      → Accounts run asked (fetch w src cursor limit s).1
  unfolding fetch authorizations
  fetch-Accounts src cursor limit s v = ground arith

  pub read_clock-Accounts :
      (s : Session) → Accounts run asked s → Accounts run asked (read_clock w s).1
  unfolding read_clock
  read_clock-Accounts s v = ground arith

  pub send_result-Accounts :
      (status : String) (report manifest : Value) (callback_id : String) (s : Session)
      → Accounts run asked s
      → Accounts run asked (send_result w status report manifest callback_id s).1
  unfolding send_result is_authorize
  send_result-Accounts status report manifest callback_id s v =
      result_loop-Accounts 2 (report_result status report manifest callback_id) s refl v

  -- An authorization that is asked for directly is not counted.
  pub ask-Accounts :
      (tool : String) (s : Session)
      → Accounts run asked s
      → Accounts run (suc asked) (call_task w (authorize_tool tool) s).1
  unfolding call_task authorizations is_authorize
  ask-Accounts tool s v = record {
    same_run = v.same_run;
    counted = omega (arith, v.counted);
    bounded = v.bounded;
  }

pub new_session-Accounts :
    (w : World) (run : RunContext) (circuits : Source → Circuit) (ticks : ℕ)
    → Accounts run 0 (new_session w run circuits ticks)
unfolding new_session authorizations
new_session-Accounts w run circuits ticks = record {
  same_run = refl;
  counted = omega arith;
  bounded = omega arith;
}
