-- ===== src/Worker/Api.antt =====
-- worker/incident_worker/context_api.py, `query`: a context that is asked for over HTTP.
pub mod Scoped
use Prim.Native.Char.{code}
use incident_desk.Prelude.{
  Bool, Exec, List, Option, Result, String, [], contains, err, false, http_status, if◌then◌else◌,
  lift, ltb, nat_eq, none, not, ok, other_error, permission_error, pure, string_eq, true, ℕ, ◌&&◌,
  ◌==◌, ◌>>=◌, ◌>>◌, ◌||◌, ◌∷◌,
}
use incident_desk.Worker.Assemble.{assemble}
use incident_desk.Worker.Circuit.{Circuit}
use incident_desk.Worker.Contracts.{
  ContextBundle, QueryPlan, RunContext, Source, object_eq, service, source_eq, team,
}
use incident_desk.Worker.Live.{live}
use incident_desk.Worker.Plan.{expected}
use incident_desk.Worker.Session.{Answer, Call, Session, World, authorize, new_session}

-- What the handler answers: a bundle, or an HTTPException with its status.
pub data Reply : Type 0 where
  bundle_reply : ContextBundle → Reply
  refused : (status : ℕ) (detail : String) → Reply

is_ascii : String → Bool
is_ascii String.[] = true
is_ascii (String.◌∷◌ c s) = ltb (code c) 128 && is_ascii s

-- secrets.compare_digest, which takes ASCII texts only
unfoldable pub compare_keys : String → String → Result Bool
unfolding is_ascii
compare_keys a b = if is_ascii a && is_ascii b then ok (a == b) else err (other_error "TypeError")

-- What the control plane answers is compared with the context that the caller sent.
unfoldable pub same_scope : RunContext → Answer → Result (Unit {0})
same_scope run a =
    if not (a.subject == run.subject) || not (a.team == run.team) || not (a.service == run.service)
    then err (permission_error "scope_mismatch")
    else if not (run.start == a.start) || not (run.end == a.end)
    then err (permission_error "time_scope_mismatch")
    else ok tt

-- The statuses of an exception; what is not caught goes on.
unfoldable pub reply_of : Result ContextBundle → Result Reply
reply_of (ok b) = ok (bundle_reply b)
reply_of (err (http_status n)) =
    ok (refused (if contains n (401 ∷ 403 ∷ 409 ∷ []) then n else 502) "scope_authorization_failed")
reply_of (err (permission_error m)) = ok (refused 403 m)
reply_of (err e) = err e

module _ (w : World) (run : RunContext) (plan : Option QueryPlan) where
  -- The body of the `try`.
  unfoldable pub scoped_context : Exec Session ContextBundle
  unfolding authorize same_scope assemble live
  scoped_context = do
    scope ← authorize w "context"
    lift (same_scope run scope)
    made ← assemble (live w run) plan none
    pure made.0

  -- After the comparison of the keys; the requests that were sent come with the answer.
  by_key_check : (Source → Circuit) → ℕ → Bool → Result Reply × List Call
  unfolding scoped_context reply_of new_session
  by_key_check circuits ticks false = (ok (refused 401 "service_identity_required"), [])
  by_key_check circuits ticks true =
      let (r, s) = scoped_context (new_session w run circuits ticks) in (reply_of r, s.sent)

  by_comparison : (Source → Circuit) → ℕ → Result Bool → Result Reply × List Call
  unfolding by_key_check
  by_comparison circuits ticks (err e) = (err e, [])
  by_comparison circuits ticks (ok same) = by_key_check circuits ticks same

  -- query(b, x_worker_key), with the key of the environment
  unfoldable pub query_context :
      (given expected : String) → (Source → Circuit) → ℕ → Result Reply × List Call
  unfolding by_comparison compare_keys
  query_context given expected circuits ticks =
      by_comparison circuits ticks (compare_keys given expected)
