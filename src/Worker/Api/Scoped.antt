-- ===== src/Worker/Api/Scoped.antt =====
-- What a caller of the context API is given.
use incident_desk.Prelude.{
  Bool-cases, List, Option, Result, String, Yields, [], ap, arith, contains, continue-Yields, err,
  http_status, inl, inr, leb, length, ltb, nat_eq, none, not, ok, other_error, permission_error,
  refl, runtime_error, string_eq, sym, transport_error, true, value_error, ℕ, ◌&&◌, ◌*◌, ◌-◌, ◌==◌,
  ◌||◌, ◌∙◌, ◌∷◌, ◌≡◌, ◌≢◌,
}
use incident_desk.Worker.Api.{
  Reply, bundle_reply, by_comparison, by_key_check, compare_keys, is_ascii, query_context, refused,
  reply_of, same_scope, scoped_context,
}
use incident_desk.Worker.Assemble.{assemble, requested}
use incident_desk.Worker.Assemble.Extent.{assemble-Answers}
use incident_desk.Worker.Assemble.Grounding.{IsGrounded, assemble-IsGrounded}
use incident_desk.Worker.Circuit.{Circuit}
use incident_desk.Worker.Contracts.{
  ContextBundle, QueryPlan, RunContext, Source, object_eq, source_eq,
}
use incident_desk.Worker.Live.{live}
use incident_desk.Worker.Session.{
  Answer, Call, Session, World, authorize, authorize_tool, new_session, stamp,
}

module _ (w : World) (run : RunContext) (plan : Option QueryPlan) where
  -- The control plane has answered with the scope and the time of the bundle, whose plan has been
  -- checked, and which is grounded.
  pub record IsScoped (b : ContextBundle) : Type 0 where
    pub asked_call : Call
    pub moment : ℕ
    pub scope_answer : Answer
    pub answered_with : w.answer moment asked_call ≡ ok scope_answer
    pub team : b.scope.team ≡ scope_answer.team
    pub subject : b.scope.subject ≡ scope_answer.subject
    pub service : b.scope.service ≡ scope_answer.service
    pub start : run.start ≡ scope_answer.start
    pub end : run.end ≡ scope_answer.end
    pub plan_checked : requested (live w run) plan ≡ ok b.plan
    pub grounded_bundle : IsGrounded (live w run) b

  authorize-answer :
      (tool : String) (s : Session) (a : Answer)
      → (authorize w tool s).0 ≡ ok a
      → (moment : ℕ) × (c : Call) × (w.answer moment c ≡ ok a)
  unfolding authorize
  authorize-answer tool s a h = elim (Bool-cases (leb s.run.budget.steps s.calls)) [
    | inl e ↦ let q = (rw e at h) in cc q
    | inr e ↦ elim (Bool-cases (ltb (s.run.budget.seconds * 1000) (w.clock s.ticks - s.started))) [
      | inl f ↦ let q = (rw (e, f) at h) in cc q
      | inr f ↦ (length s.sent, stamp w (authorize_tool tool) s, (rw (e, f) at h))
    ]
  ]

  same_scope-ok :
      (a : Answer)
      → same_scope run a ≡ ok tt
      → (a.subject ≡ run.subject)
        × (a.team ≡ run.team)
        × (a.service ≡ run.service)
        × (run.start ≡ a.start)
        × (run.end ≡ a.end)
  unfolding same_scope
  same_scope-ok a h =
      elim (Bool-cases (
        not (a.subject == run.subject)
        || not (a.team == run.team)
        || not (a.service == run.service))) [
          | inl e ↦ let q = (rw e at h) in cc q
          | inr e ↦ elim (Bool-cases (not (run.start == a.start) || not (run.end == a.end))) [
            | inl f ↦ let q = (rw (e, f) at h) in cc q
            | inr f ↦ (
              (string_eq.beq_iff a.subject run.subject).0 (ground arith),
              (string_eq.beq_iff a.team run.team).0 (ground arith),
              (string_eq.beq_iff a.service run.service).0 (ground arith),
              (nat_eq.beq_iff run.start a.start).0 (ground arith),
              (nat_eq.beq_iff run.end a.end).0 (ground arith),
            )
          ]
        ]

  scoped_context-IsScoped : (s : Session) → Yields IsScoped (scoped_context w run plan s).0
  unfolding scoped_context
  scoped_context-IsScoped s =
      let s' = (authorize w "context" s).1 in
      continue-Yields IsScoped (authorize w "context" s).0 _ s' λ a e.
        continue-Yields IsScoped (same_scope run a) _ s' λ u f.
          let t = live w run in
          let made = assemble t plan none s' in
          continue-Yields IsScoped made.0 _ made.1 λ r g.
            let whole : made ≡ (ok (r.0, r.1), made.1) = ap (λ x. (x, made.1)) g in
            let called = authorize-answer "context" s a e in
            let same = same_scope-ok a f in
            let answers = assemble-Answers t plan none s' made.1 r.0 r.1 whole in
            record {
              asked_call = called.1;
              moment = called.0;
              scope_answer = a;
              answered_with = called.2;
              team = answers.1.team ∙ sym same.1;
              subject = answers.1.subject ∙ sym same.0;
              service = answers.1.service ∙ sym same.2;
              start = same.3;
              end = same.4;
              plan_checked = answers.0;
              grounded_bundle = assemble-IsGrounded t plan none s' made.1 r.0 r.1 whole;
            }

  module _ (given expected : String) where
    -- A bundle is for the right key, and scoped; else the status is one of four.
    abbrev pub IsProper : Reply → Type 0
    IsProper (bundle_reply b) = (given ≡ expected) × IsScoped b
    IsProper (refused status detail) = contains status (401 ∷ 403 ∷ 409 ∷ 502 ∷ []) ≡ true

    reply_of-IsProper :
        (r : Result ContextBundle)
        → given ≡ expected
        → Yields IsScoped r
        → Yields IsProper (reply_of r)
    unfolding reply_of
    reply_of-IsProper (ok b) k h = (k, h)
    reply_of-IsProper (err (http_status n)) k h =
        elim (Bool-cases (contains n (401 ∷ 403 ∷ 409 ∷ []))) [
          | inl e ↦ rw e (ground arith)
          | inr e ↦ rw e refl
        ]
    reply_of-IsProper (err (permission_error m)) k h = refl
    reply_of-IsProper (err (value_error m)) k h = tt
    reply_of-IsProper (err (runtime_error m)) k h = tt
    reply_of-IsProper (err (transport_error m)) k h = tt
    reply_of-IsProper (err (other_error m)) k h = tt

    -- Without the key no request is made, and the caller is refused.
    pub record IsKept (out : Result Reply × List Call) : Type 0 where
      pub proper : Yields IsProper out.0
      pub untouched : given ≢ expected → out.1 ≡ []

    -- What the API answers is a bundle only if the caller has the key, and then the control plane has
    -- answered with the scope of the bundle and the interval of the run, its plan has passed the check,
    -- and it is grounded. A refusal has the status 401, 403, 409 or 502. Without the key no request is
    -- made.
    pub query_context-IsKept :
        (circuits : Source → Circuit) (ticks : ℕ)
        → IsKept (query_context w run plan given expected circuits ticks)
    unfolding query_context compare_keys by_comparison by_key_check
    query_context-IsKept circuits ticks = elim (Bool-cases (is_ascii given && is_ascii expected)) [
      | inr e ↦ rw e (record { proper = tt; untouched = λ n. refl })
      | inl e ↦ elim (Bool-cases (given == expected)) [
        | inr f ↦ rw (e, f) (record { proper = refl; untouched = λ n. refl })
        | inl f ↦
            let same = (string_eq.beq_iff given expected).0 f in
            let s = new_session w run circuits ticks in
            rw (e, f)
              (record {
                proper =
                    reply_of-IsProper (scoped_context w run plan s).0 same
                      (scoped_context-IsScoped s);
                untouched = λ n. absurd (n same);
              })
      ]
    ]
