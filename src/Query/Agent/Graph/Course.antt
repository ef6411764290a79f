-- ===== src/Query/Agent/Graph/Course.antt =====
-- The course of a run, round by round: the limit of the rounds is never reached.
use incident_desk.Prelude.{
  Exec, Option, Result-cases, String, [], and_then, inl, inr, lift, none, ok, other_error, pure,
  raise, refl, some, suc, ℕ, ◌>>=◌, ◌∙◌, ◌∷◌, ◌≡◌,
}
use incident_desk.Query.Agent.{AgentState, Services, SqlChecks, Trace, apply_update}
use incident_desk.Query.Agent.Graph.{
  Node, add_node, add_nodes, adding_context, after_validation, apply_updates, ask_graph, asked,
  correcting, extracting, filtering_metrics, filtering_tables, generating, merging, next_nodes,
  recalling_columns, recalling_metrics, recalling_values, run_graph, run_node, run_nodes,
  running_sql, successors, validating,
}
use incident_desk.Query.Agent.Nodes.{
  add_extra_context, correct_sql, extract_keywords, generate_sql, merge_node, run_sql, validate_sql,
}
use incident_desk.Query.Sql.Periods.Searches.{following}

module _ {S A B : Type 0} where
  bind-ext :
      (m : Exec S A) (f g : A → Exec S B) (s : S)
      → ((a : A) (s' : S) → f a s' ≡ g a s')
      → (m >>= f) s ≡ (m >>= g) s
  bind-ext m f g s h = elim (Result-cases (m s).0) [
    | inl (a, e) ↦ rw (e, ◌>>=◌) (h a (m s).1)
    | inr (x, e) ↦ rw (e, ◌>>=◌) refl
  ]

  bind_assoc :
      {C : Type 0} (m : Exec S C) (f : C → Exec S A) (g : A → Exec S B) (s : S)
      → ((m >>= f) >>= g) s ≡ (m >>= λ c. f c >>= g) s
  bind_assoc m f g s = elim (Result-cases (m s).0) [
    | inl (a, e) ↦ rw (e, ◌>>=◌) refl
    | inr (x, e) ↦ rw (e, ◌>>=◌) refl
  ]

module _ {V F : Type 0} (o : Services V F) (checks : SqlChecks) where
  unfoldable pub run_last : AgentState → Exec Trace AgentState
  run_last s = do u ← run_sql o checks s; pure (apply_update u s)

  unfoldable pub after_check : AgentState → Option (Option String) → Exec Trace AgentState
  unfolding run_last
  after_check s none = raise (other_error "KeyError")
  after_check s (some none) = run_last s
  after_check s (some (some e)) = do f ← correct_sql o s; run_last (apply_update f s)

  -- A round of one node, and then what follows.
  single_round :
      (left : ℕ) (n : Node) (s : AgentState) (t : Trace)
      → run_graph o checks (suc left) (n ∷ []) s t
        ≡ (run_node o checks n s >>= λ u. do
          following ← lift (next_nodes (apply_updates (u ∷ []) s) (n ∷ []))
          run_graph o checks left following (apply_updates (u ∷ []) s))
            t
  unfolding run_graph run_nodes
  single_round left n s t = bind_assoc (run_node o checks n s) (λ u. pure (u ∷ [])) _ t

  last_round :
      (left : ℕ) (s : AgentState) (t : Trace)
      → run_graph o checks (suc left) (running_sql ∷ []) s t ≡ run_last s t
  unfolding run_last next_nodes apply_updates run_node run_graph
  last_round left s t = single_round left running_sql s t

  corrected_round :
      (left : ℕ) (s : AgentState) (t : Trace)
      → run_graph o checks (suc (suc left)) (correcting ∷ []) s t
        ≡ (correct_sql o s >>= λ f. run_last (apply_update f s)) t
  unfolding next_nodes apply_updates run_node
  corrected_round left s t =
      single_round (suc left) correcting s t
      ∙ bind-ext (correct_sql o s) _ _ t (λ f t'. last_round left (apply_update f s) t')

  checked_lem :
      (left : ℕ) (s : AgentState) (e : Option (Option String)) (t : Trace)
      → (lift (and_then (after_validation e) (λ ms. ok (add_nodes ms []))) >>= λ following.
            run_graph o checks (suc (suc left)) following s)
          t
        ≡ after_check s e t
  unfolding after_check add_nodes add_node
  checked_lem left s none t = refl
  checked_lem left s (some none) t = last_round (suc left) s t
  checked_lem left s (some (some e)) t = corrected_round left s t

  checked_round :
      (left : ℕ) (s : AgentState) (t : Trace)
      → run_graph o checks (suc (suc (suc left))) (validating ∷ []) s t
        ≡ (validate_sql o checks s >>= λ e. after_check (apply_update e s) (apply_update e s).error)
            t
  unfolding next_nodes apply_updates run_node successors
  checked_round left s t =
      single_round (suc (suc left)) validating s t
      ∙ bind-ext (validate_sql o checks s) _ _ t
          λ e t'. checked_lem left (apply_update e s) (apply_update e s).error t'

  -- From the filters on.
  unfoldable pub filtered : AgentState → Exec Trace AgentState
  unfolding after_check
  filtered s3 = do
    us ← run_nodes o checks (filtering_tables ∷ filtering_metrics ∷ []) s3
    let s4 = apply_updates us s3
    x ← add_extra_context o s4
    let s5 = apply_update x s4
    g ← generate_sql o s5
    let s6 = apply_update g s5
    e ← validate_sql o checks s6
    let s7 = apply_update e s6
    after_check s7 s7.error

  filters :
      (s3 : AgentState) (t : Trace)
      → run_graph o checks 22 (filtering_tables ∷ filtering_metrics ∷ []) s3 t ≡ filtered s3 t
  unfolding next_nodes apply_updates run_node filtered run_graph
  filters s3 t =
      bind-ext (run_nodes o checks (filtering_tables ∷ filtering_metrics ∷ []) s3) _ _ t λ us t2.
        let s4 = apply_updates us s3 in
        single_round 20 adding_context s4 t2
        ∙ bind-ext (add_extra_context o s4) _ _ t2 λ x t3.
          single_round 19 generating (apply_update x s4) t3
          ∙ bind-ext (generate_sql o (apply_update x s4)) _ _ t3
              λ g. checked_round 16 (apply_update g (apply_update x s4))

  -- The same run without edges and rounds: the three recalls at once, and the two filters.
  unfoldable pub straight : String → Exec Trace AgentState
  unfolding filtered
  straight question = do
    u ← extract_keywords o (asked o checks question)
    let s1 = apply_update u (asked o checks question)
    us ← run_nodes o checks (recalling_columns ∷ recalling_values ∷ recalling_metrics ∷ []) s1
    let s2 = apply_updates us s1
    merged ← merge_node o s2
    let s3 = apply_update merged s2
    filtered s3

  -- A run of the graph is the run without one: the three recalls run at once after the
  -- keywords, the two filters at once after the merge, every other node alone after all that it needs;
  -- a correction is made only if the validation failed, and the limit of the rounds is not reached.
  pub ask_graph-straight :
      (question : String) (t : Trace) → ask_graph o checks question t ≡ straight question t
  unfolding ask_graph straight next_nodes apply_updates run_node run_graph
  ask_graph-straight question t =
      single_round 24 extracting (asked o checks question) t
      ∙ bind-ext (extract_keywords o (asked o checks question)) _ _ t λ u t1.
        let s1 = apply_update u (asked o checks question) in
        bind-ext
          (run_nodes o checks (recalling_columns ∷ recalling_values ∷ recalling_metrics ∷ []) s1) _
          _ t1
          λ us t4.
            let s2 = apply_updates us s1 in
            single_round 22 merging s2 t4
            ∙ bind-ext (merge_node o s2) _ _ t4 (λ merged. filters (apply_update merged s2))
