-- ===== src/Query/Agent/Graph/Final.antt =====
-- How the stream of a query ends.
use incident_desk.Prelude.{
  Exec, List, Option, Result, Result-cases, String, [], continue, err, inl, inr, lift, none, ok,
  pure, refl, some, subst, sym, ◌>>=◌, ◌∷◌, ◌≡◌,
}
use incident_desk.Query.Agent.{
  AgentState, Message, Services, SqlChecks, Trace, answered, apply_update, emit, ended, gave_up,
  in_step, need, progress, running,
}
use incident_desk.Query.Agent.Graph.{
  answer_query, apply_updates, ask_graph, asked, closed_by, filtering_metrics, filtering_tables,
  recalling_columns, recalling_metrics, recalling_values, run_nodes,
}
use incident_desk.Query.Agent.Graph.Course.{
  after_check, ask_graph-straight, filtered, run_last, straight,
}
use incident_desk.Query.Agent.Nodes.{
  add_extra_context, checked, correct_sql, execute_sql, extract_keywords, generate_sql, merge_node,
  run_checked, run_guarded, run_raw, run_sql, validate_sql,
}

abbrev pub IsAnswer : List Message → Type 0
IsAnswer [] = ⊥
IsAnswer (answered found sql limit ∷ ms) = Unit
IsAnswer (progress step status ∷ ms) = ⊥
IsAnswer (gave_up text ∷ ms) = ⊥

-- The newest message is a result or an error.
abbrev pub IsFinal : List Message → Type 0
IsFinal [] = ⊥
IsFinal (answered found sql limit ∷ ms) = Unit
IsFinal (progress step status ∷ ms) = ⊥
IsFinal (gave_up text ∷ ms) = Unit

-- Where `m` returns, the result has just been sent.
record AnswersLast {A : Type 0} (m : Exec Trace A) : Type 0 where
  at : (t : Trace) (a : A) → (m t).0 ≡ ok a → IsAnswer (m t).1.events

module _ {A B : Type 0} where
  AnswersLast-bind :
      (m : Exec Trace A) (f : A → Exec Trace B)
      → ((a : A) → AnswersLast (f a))
      → AnswersLast (m >>= f)
  AnswersLast-bind m f k = record {
    at = λ t b h. elim (Result-cases (m t).0) [
      | inl (a, e) ↦
          subst (λ r. IsAnswer (continue r f (m t).1).1.events) (sym e)
            ((k a).at (m t).1 b (subst (λ r. (continue r f (m t).1).0 ≡ ok b) e h))
      | inr (x, e) ↦ let q = subst (λ r. (continue r f (m t).1).0 ≡ ok b) e h in cc q
    ];
  }

  AnswersLast-then :
      (m : Exec Trace A) (g : A → B) → AnswersLast m → AnswersLast (m >>= λ a. pure (g a))
  AnswersLast-then m g k = record {
    at = λ t b h. elim (Result-cases (m t).0) [
      | inl (a, e) ↦
          subst (λ r. IsAnswer (continue r (λ a. pure (g a)) (m t).1).1.events) (sym e) (k.at t a e)
      | inr (x, e) ↦
          let q = subst (λ r. (continue r (λ a. pure (g a)) (m t).1).0 ≡ ok b) e h in cc q
    ];
  }

ended-answers :
    {A : Type 0} (step : String) (r : Result A) (t : Trace) (a : A)
    → ((b : A) → r ≡ ok b → IsAnswer t.events)
    → (ended step r t).0 ≡ ok a
    → IsAnswer (ended step r t).1.events
ended-answers step (ok b) t a k h = k b refl
ended-answers step (err e) t a k h = cc

in_step-AnswersLast :
    {A : Type 0} (step : String) (m : Exec Trace A) → AnswersLast m → AnswersLast (in_step step m)
unfolding in_step
in_step-AnswersLast step m k = record {
  at = λ t a h.
      let t0 = emit (progress step running) t in
      ended-answers step (m t0).0 (m t0).1 a (λ b e. k.at t0 b e) h;
}

module _ {V F : Type 0} (o : Services V F) (checks : SqlChecks) where
  run_checked-AnswersLast : (sql : String) → AnswersLast (run_checked o checks sql)
  unfolding run_checked
  run_checked-AnswersLast sql =
      AnswersLast-bind (execute_sql o checks sql) _ (λ found. record { at = λ t a h. tt })

  run_sql-AnswersLast : (s : AgentState) → AnswersLast (run_sql o checks s)
  unfolding run_sql run_raw run_guarded
  run_sql-AnswersLast s = in_step-AnswersLast _ _ (
      AnswersLast-bind (lift (need s.sql)) _ λ raw.
        AnswersLast-bind (lift (checks.safe raw)) _
          λ sql. AnswersLast-bind (checked o checks s.query sql) _ λ u. run_checked-AnswersLast sql)

  run_last-AnswersLast : (s : AgentState) → AnswersLast (run_last o checks s)
  unfolding run_last
  run_last-AnswersLast s =
      AnswersLast-then (run_sql o checks s) (λ u. apply_update u s) (run_sql-AnswersLast s)

  after_check-AnswersLast :
      (s : AgentState) (e : Option (Option String)) → AnswersLast (after_check o checks s e)
  unfolding after_check
  after_check-AnswersLast s none = record { at = λ t a h. cc }
  after_check-AnswersLast s (some none) = run_last-AnswersLast s
  after_check-AnswersLast s (some (some e)) =
      AnswersLast-bind (correct_sql o s) _ (λ f. run_last-AnswersLast (apply_update f s))

  filtered-AnswersLast : (s : AgentState) → AnswersLast (filtered o checks s)
  unfolding filtered
  filtered-AnswersLast s =
      AnswersLast-bind (run_nodes o checks (filtering_tables ∷ filtering_metrics ∷ []) s) _ λ us.
        let s4 = apply_updates us s in
        AnswersLast-bind (add_extra_context o s4) _ λ x.
          let s5 = apply_update x s4 in
          AnswersLast-bind (generate_sql o s5) _ λ g.
            let s6 = apply_update g s5 in
            AnswersLast-bind (validate_sql o checks s6) _
              λ e. after_check-AnswersLast (apply_update e s6) (apply_update e s6).error

  straight-AnswersLast : (question : String) → AnswersLast (straight o checks question)
  unfolding straight
  straight-AnswersLast question =
      AnswersLast-bind (extract_keywords o (asked o checks question)) _ λ u.
        let s1 = apply_update u (asked o checks question) in
        AnswersLast-bind
          (run_nodes o checks (recalling_columns ∷ recalling_values ∷ recalling_metrics ∷ []) s1) _
          λ us.
            let s2 = apply_updates us s1 in
            AnswersLast-bind (merge_node o s2) _
              λ merged. filtered-AnswersLast (apply_update merged s2)

  IsFinal-answer : (ms : List Message) → IsAnswer ms → IsFinal ms
  IsFinal-answer [] h = h
  IsFinal-answer (answered found sql limit ∷ ms) h = tt
  IsFinal-answer (progress step status ∷ ms) h = h
  IsFinal-answer (gave_up text ∷ ms) h = tt

  closed_by-IsFinal :
      (r : Result AgentState) (t : Trace)
      → ((s : AgentState) → r ≡ ok s → IsAnswer t.events)
      → IsFinal (closed_by o checks r t).events
  unfolding closed_by
  closed_by-IsFinal (ok s) t k = IsFinal-answer t.events (k s refl)
  closed_by-IsFinal (err e) t k = tt

  -- Every query ends, and its last message is the result or an error, whatever the outside answers.
  pub answer_query-IsFinal :
      (question : String) (t : Trace) → IsFinal (answer_query o checks question t).events
  unfolding answer_query
  answer_query-IsFinal question t =
      closed_by-IsFinal (ask_graph o checks question t).0 (ask_graph o checks question t).1 λ s h.
        let e = ask_graph-straight o checks question t in
        subst (λ r. IsAnswer r.1.events) (sym e)
          ((straight-AnswersLast question).at t s (subst (λ r. r.0 ≡ ok s) e h))
