-- ===== src/Query/Agent/Graph/Checked.antt =====
-- Only SQL that passed every check is executed.
use incident_desk.Prelude.{
  All, All-append, Exec, Keeps, Keeps-bind, Keeps-lift, Keeps-pure, Keeps-raise, List, Result,
  Result-cases, String, [], continue-eq-ok, continue_keeps, err, inl, inr, lift, ok, refl, subst,
  suc, sym, zero, ℕ, ◌++◌, ◌>>=◌, ◌∙◌, ◌∷◌, ◌≡◌,
}
use incident_desk.Query.Agent.{
  AgentState, DbCall, Message, Services, SqlChecks, Trace, Update, apply_update, emit, ended,
  executed, explained, in_step, need, progress, running, tell, time_limited,
}
use incident_desk.Query.Agent.Graph.{
  Node, adding_context, answer_query, apply_updates, ask_graph, asked, branches, calls_of,
  closed_by, correcting, extracting, filtering_metrics, filtering_tables, generating, merging,
  next_nodes, recalling_columns, recalling_metrics, recalling_values, recursion_error, run_graph,
  run_node, run_nodes, running_sql, together, validating,
}
use incident_desk.Query.Agent.Graph.Rounds.{interleaved-Keeps}
use incident_desk.Query.Agent.Nodes.{
  add_extra_context, ask_warehouse, attempted, check_sql, checked, correct_sql, execute_sql,
  explain_sql, extract_keywords, filter_metric_node, filter_table_node, generate_sql, merge_node,
  recall_column, recall_metric, recall_value, run_checked, run_guarded, run_raw, run_sql,
  validate_sql,
}

module _ (checks : SqlChecks) where
  -- `given` is what the guard returned for some SQL, and what all three checks accepted for the
  -- question; `sql` is what the guard returned for it.
  pub record IsChecked (question sql : String) : Type 0 where
    pub raw : String
    pub given : String
    pub passed : checks.safe raw ≡ ok given
    pub relations : checks.relations given ≡ ok tt
    pub metrics : checks.metrics question given ≡ ok tt
    pub period : checks.period question given ≡ ok tt
    pub passed_again : checks.safe given ≡ ok sql

  abbrev pub IsAllowed : String → DbCall → Type 0
  IsAllowed question (explained sql) = Unit
  IsAllowed question (executed sql) = IsChecked question sql
  IsAllowed question time_limited = Unit

  abbrev pub OnlyAllowed : String → Trace → Type 0
  OnlyAllowed question t = All (IsAllowed question) t.calls

module _ {V F : Type 0} (o : Services V F) (checks : SqlChecks) (question : String) where
  abbrev P : Trace → Type 0
  P = OnlyAllowed checks question

  tell-Keeps : (e : Message) → Keeps P (tell e)
  tell-Keeps e = record { at = λ t h. h }

  ended-keeps : {A : Type 0} (step : String) (r : Result A) (t : Trace) → P t → P (ended step r t).1
  ended-keeps step (ok a) t h = h
  ended-keeps step (err e) t h = h

  in_step-Keeps :
      {A : Type 0} (step : String) (m : Exec Trace A) → Keeps P m → Keeps P (in_step step m)
  unfolding in_step
  in_step-Keeps step m k = record {
    at = λ t h.
        let t0 = emit (progress step running) t in ended-keeps step (m t0).0 (m t0).1 (k.at t0 h);
  }

  ruleset quiet_rules = (Keeps-bind, Keeps-lift, Keeps-pure, tell-Keeps, in_step-Keeps)

  extract_keywords-Keeps : (s : AgentState) → Keeps P (extract_keywords o s)
  unfolding extract_keywords
  extract_keywords-Keeps s = search quiet_rules depth 12

  recall_column-Keeps : (s : AgentState) → Keeps P (recall_column o s)
  unfolding recall_column
  recall_column-Keeps s = search quiet_rules depth 12

  recall_metric-Keeps : (s : AgentState) → Keeps P (recall_metric o s)
  unfolding recall_metric
  recall_metric-Keeps s = search quiet_rules depth 12

  recall_value-Keeps : (s : AgentState) → Keeps P (recall_value o s)
  unfolding recall_value
  recall_value-Keeps s = search quiet_rules depth 12

  merge_node-Keeps : (s : AgentState) → Keeps P (merge_node o s)
  unfolding merge_node
  merge_node-Keeps s = search quiet_rules depth 12

  filter_table_node-Keeps : (s : AgentState) → Keeps P (filter_table_node o s)
  unfolding filter_table_node
  filter_table_node-Keeps s = search quiet_rules depth 12

  filter_metric_node-Keeps : (s : AgentState) → Keeps P (filter_metric_node o s)
  unfolding filter_metric_node
  filter_metric_node-Keeps s = search quiet_rules depth 12

  add_extra_context-Keeps : (s : AgentState) → Keeps P (add_extra_context o s)
  unfolding add_extra_context
  add_extra_context-Keeps s = search quiet_rules depth 12

  generate_sql-Keeps : (s : AgentState) → Keeps P (generate_sql o s)
  unfolding generate_sql
  generate_sql-Keeps s = search quiet_rules depth 12

  correct_sql-Keeps : (s : AgentState) → Keeps P (correct_sql o s)
  unfolding correct_sql
  correct_sql-Keeps s = search quiet_rules depth 12

  checked-Keeps : (q sql : String) → Keeps P (checked o checks q sql)
  unfolding checked explain_sql
  checked-Keeps q sql = Keeps-bind (lift (check_sql o checks q sql)) _ (Keeps-lift _) λ u.
      Keeps-bind (lift (checks.safe sql)) _ (Keeps-lift _) λ safe. record { at = λ t h. (tt, h) }

  validate_sql-Keeps : (s : AgentState) → Keeps P (validate_sql o checks s)
  unfolding validate_sql attempted
  validate_sql-Keeps s = in_step-Keeps _ _ (
      Keeps-bind (lift (need s.sql)) _ (Keeps-lift _)
        λ sql. record { at = λ t h. (checked-Keeps s.query sql).at t h })

  check_sql-ok :
      (q raw given sql : String)
      → checks.safe raw ≡ ok given
      → check_sql o checks q given ≡ ok tt
      → checks.safe given ≡ ok sql
      → IsChecked checks q sql
  unfolding check_sql
  check_sql-ok q raw given sql g h again = elim (Result-cases (checks.relations given)) [
    | inr (x, e) ↦ let z = (rw e at h) in cc z
    | inl (u, e) ↦ elim (Result-cases (checks.metrics q given)) [
      | inr (x, f) ↦ let z = (rw (e, f) at h) in cc z
      | inl (v, f) ↦ record {
        raw = raw;
        given = given;
        passed = g;
        relations = e;
        metrics = f;
        period = rw (e, f) at h;
        passed_again = again;
      }
    ]
  ]

  -- What follows a step that only computes may use its result.
  lift-Keeps :
      {A B : Type 0} (r : Result A) (f : A → Exec Trace B)
      → ((a : A) → r ≡ ok a → Keeps P (f a))
      → Keeps P (lift r >>= f)
  lift-Keeps r f k = record { at = λ t h. continue_keeps P r f t h (λ a e. (k a e).at t h) }

  run_checked-Keeps :
      (given : String)
      → ((sql : String) → checks.safe given ≡ ok sql → IsChecked checks question sql)
      → Keeps P (run_checked o checks given)
  unfolding run_checked execute_sql
  run_checked-Keeps given c =
      Keeps-bind (execute_sql o checks given) _
        (lift-Keeps (checks.safe given) _ λ sql again.
          Keeps-bind (ask_warehouse o checks o.limit_time time_limited) _
            (record { at = λ t h. (tt, h) }) (λ u. record { at = λ t h. (c sql again, h) }))
        (λ found. search quiet_rules)

  checked-ok :
      (q sql : String) (t : Trace) (u : Unit {0})
      → (checked o checks q sql t).0 ≡ ok u
      → check_sql o checks q sql ≡ ok tt
  unfolding checked
  checked-ok q sql t u h =
      (continue-eq-ok (check_sql o checks q sql) (λ _. explain_sql o checks sql) t h).1

  run_guarded-Keeps :
      (raw sql : String) → checks.safe raw ≡ ok sql → Keeps P (run_guarded o checks question sql)
  unfolding run_guarded
  run_guarded-Keeps raw sql g = record {
    at = λ t h.
        continue_keeps P (checked o checks question sql t).0 (λ _. run_checked o checks sql)
          (checked o checks question sql t).1 ((checked-Keeps question sql).at t h)
          λ u c.
            (run_checked-Keeps sql (λ final again.
                check_sql-ok question raw sql final g (checked-ok question sql t u c) again)).at
              (checked o checks question sql t).1 ((checked-Keeps question sql).at t h);
  }

  run_raw-Keeps : (raw : String) → Keeps P (run_raw o checks question raw)
  unfolding run_raw
  run_raw-Keeps raw = lift-Keeps (checks.safe raw) _ (λ sql g. run_guarded-Keeps raw sql g)

  run_sql-Keeps : (s : AgentState) → s.query ≡ question → Keeps P (run_sql o checks s)
  unfolding run_sql
  run_sql-Keeps s q = in_step-Keeps _ _ (
      lift-Keeps (need s.sql) _
        λ raw e. subst (λ y. Keeps P (run_raw o checks y raw)) (sym q) (run_raw-Keeps raw))

  run_node-Keeps :
      (n : Node) (s : AgentState) → s.query ≡ question → Keeps P (run_node o checks n s)
  unfolding run_node
  run_node-Keeps extracting s q = extract_keywords-Keeps s
  run_node-Keeps recalling_columns s q = recall_column-Keeps s
  run_node-Keeps recalling_values s q = recall_value-Keeps s
  run_node-Keeps recalling_metrics s q = recall_metric-Keeps s
  run_node-Keeps merging s q = merge_node-Keeps s
  run_node-Keeps filtering_metrics s q = filter_metric_node-Keeps s
  run_node-Keeps filtering_tables s q = filter_table_node-Keeps s
  run_node-Keeps adding_context s q = add_extra_context-Keeps s
  run_node-Keeps generating s q = generate_sql-Keeps s
  run_node-Keeps validating s q = validate_sql-Keeps s
  run_node-Keeps correcting s q = correct_sql-Keeps s
  run_node-Keeps running_sql s q = run_sql-Keeps s q

  calls_of-IsAllowed :
      (ns : List Node) (s : AgentState)
      → s.query ≡ question
      → All (IsAllowed checks question) (calls_of o checks s ns)
  unfolding calls_of
  calls_of-IsAllowed [] s q = tt
  calls_of-IsAllowed (n ∷ ns) s q =
      All-append _ (run_node o checks n s (record { events = []; calls = [] })).1.calls _
        ((run_node-Keeps n s q).at (record { events = []; calls = [] }) tt)
        (calls_of-IsAllowed ns s q)

  together-Keeps :
      (ns : List Node) (s : AgentState) → s.query ≡ question → Keeps P (together o checks ns s)
  unfolding together
  together-Keeps ns s q = record {
    at = λ t h.
        (interleaved-Keeps P tell-Keeps (o.turns t) (branches o checks s ns)).at
          (record t { calls = calls_of o checks s ns ++ t.calls })
          (All-append _ (calls_of o checks s ns) t.calls (calls_of-IsAllowed ns s q) h);
  }

  run_nodes-Keeps :
      (ns : List Node) (s : AgentState) → s.query ≡ question → Keeps P (run_nodes o checks ns s)
  unfolding run_nodes
  run_nodes-Keeps [] s q = Keeps-pure []
  run_nodes-Keeps (n ∷ []) s q = Keeps-bind _ _ (run_node-Keeps n s q) (λ u. Keeps-pure (u ∷ []))
  run_nodes-Keeps (n ∷ m ∷ ns) s q = together-Keeps (n ∷ m ∷ ns) s q

  apply_updates-query : (us : List Update) (s : AgentState) → (apply_updates us s).query ≡ s.query
  unfolding apply_updates apply_update
  apply_updates-query [] s = refl
  apply_updates-query (u ∷ us) s = apply_updates-query us (apply_update u s)

  run_graph-Keeps :
      (left : ℕ) (ns : List Node) (s : AgentState)
      → s.query ≡ question
      → Keeps P (run_graph o checks left ns s)
  unfolding run_graph
  run_graph-Keeps zero [] s q = Keeps-pure s
  run_graph-Keeps (suc left) [] s q = Keeps-pure s
  run_graph-Keeps zero (n ∷ ns) s q = Keeps-raise recursion_error
  run_graph-Keeps (suc left) (n ∷ ns) s q = Keeps-bind _ _ (run_nodes-Keeps (n ∷ ns) s q) λ us.
      Keeps-bind _ _ (Keeps-lift (next_nodes (apply_updates us s) (n ∷ ns))) λ following.
        run_graph-Keeps left following (apply_updates us s) (apply_updates-query us s ∙ q)

  closed_by-keeps : (r : Result AgentState) (t : Trace) → P t → P (closed_by o checks r t)
  unfolding closed_by
  closed_by-keeps (ok s) t h = h
  closed_by-keeps (err e) t h = h

  -- Whatever the language model writes and however the warehouse answers, the SQL that a query executes
  -- is what the guard returned, twice, and the checks of relations, metrics and period have accepted
  -- it for the question between the two, corrections included.
  pub answer_query-OnlyAllowed :
      (t : Trace)
      → OnlyAllowed checks question t
      → OnlyAllowed checks question (answer_query o checks question t)
  unfolding answer_query ask_graph
  answer_query-OnlyAllowed t h =
      closed_by-keeps (ask_graph o checks question t).0 (ask_graph o checks question t).1
        ((run_graph-Keeps 25 (extracting ∷ []) (asked o checks question) refl).at t h)
