-- ===== src/Query/Agent/Nodes.antt =====
-- query/app/agent/nodes: one function for each node of the graph.
use incident_desk.Prelude.{
  Exec, List, Option, Result, String, [], and_then, dedup, err, if◌then◌else◌, length, lift, nat_eq,
  none, not, ok, pure, some, string_eq, value_error, ℕ, ◌+◌, ◌-◌, ◌/◌, ◌<>◌, ◌==◌, ◌>>=◌, ◌>>◌, ◌∷◌,
}
use incident_desk.Json.Defs.{Value}
use incident_desk.Json.Text.{after_prefix, show, strip}
use incident_desk.Query.Agent.{
  AgentState, DbCall, Services, SqlChecks, Trace, Update, answered, emit, executed, explained,
  in_step, need, no_update, progress, succeeded, tell, time_limited,
}
use incident_desk.Query.Filters.{filter_metric, filter_table}
use incident_desk.Query.Guard.{max_rows}
use incident_desk.Query.Merge.{ColumnInfo, MetricInfo, ValueInfo, merge_retrieved_info}
use incident_desk.Query.Retrieval.{fuse_ranked, retrieval_terms}
use incident_desk.Query.Routing.{chosen}
use incident_desk.Query.Sql.Periods.Searches.{search}
use incident_desk.Worker.Contracts.{object_eq, source_eq}

-- await bounded_map(xs, f): the results in the order of the items. Which of several failures is
-- raised depends on their times; here it is the first in the order.
unfoldable pub map_all : {A B : Type 0} → (A → Result B) → List A → Result (List B)
map_all f [] = ok []
map_all f (x ∷ xs) = and_then (f x) (λ y. and_then (map_all f xs) (λ ys. ok (y ∷ ys)))

-- What the model wrote, unless it says that it cannot.
supported : String → Option String → Result String
supported raw none = ok raw
supported raw (some reason) = err (value_error (strip reason))

module _ {V F : Type 0} (o : Services V F) where
  -- vector_recall; a timeout is one of the failures of `embed` and `search`
  vector_recall :
      {A : Type 0} → (A → String) → (V → Result (List A)) → List String → Result (List A)
  unfolding map_all
  vector_recall id search terms = and_then (o.embed terms) λ vectors.
      if not (length vectors == length terms)
      then err (value_error "Embedding 返回数量与检索词不一致")
      else and_then (map_all search vectors) (λ lists. ok (fuse_ranked id o.scores lists))

  value_recall : List String → Result (List ValueInfo)
  unfolding map_all
  value_recall terms =
      and_then (map_all o.search_values terms)
        λ lists. ok (fuse_ranked (λ (v : ValueInfo). v.id) o.scores lists)

  unfoldable pub extract_keywords : AgentState → Exec Trace Update
  unfolding in_step
  extract_keywords s = in_step "抽取关键词" (do
    tags ← lift (o.tags s.query)
    tell (progress "抽取关键词" succeeded)
    pure (record no_update { keywords = some (dedup (s.query ∷ tags)) }))

  unfoldable pub recall_column : AgentState → Exec Trace Update
  unfolding in_step vector_recall
  recall_column s = in_step "召回字段信息" (do
    keywords ← lift (need s.keywords)
    expanded ← lift (o.extend_columns s.query)
    terms ← lift (retrieval_terms s.query keywords expanded)
    found ← lift (vector_recall (λ (c : ColumnInfo). c.id) o.search_columns terms)
    tell (progress "召回字段信息" succeeded)
    pure (record no_update { column_infos = some found }))

  unfoldable pub recall_metric : AgentState → Exec Trace Update
  unfolding in_step vector_recall
  recall_metric s = in_step "召回指标信息" (do
    keywords ← lift (need s.keywords)
    expanded ← lift (o.extend_metrics s.query)
    terms ← lift (retrieval_terms s.query keywords expanded)
    found ← lift (vector_recall (λ (m : MetricInfo). m.id) o.search_metrics terms)
    tell (progress "召回指标信息" succeeded)
    pure (record no_update { metric_candidates = some found }))

  unfoldable pub recall_value : AgentState → Exec Trace Update
  unfolding in_step value_recall
  recall_value s = in_step "召回字段取值" (do
    keywords ← lift (need s.keywords)
    expanded ← lift (o.extend_values s.query)
    terms ← lift (retrieval_terms s.query keywords expanded)
    found ← lift (value_recall terms)
    tell (progress "召回字段取值" succeeded)
    pure (record no_update { value_infos = some found }))

  unfoldable pub merge_node : AgentState → Exec Trace Update
  unfolding in_step
  merge_node s = in_step "合并召回信息" (do
    columns ← lift (need s.column_infos)
    metrics ← lift (need s.metric_candidates)
    values ← lift (need s.value_infos)
    merged ← lift (merge_retrieved_info o.repository columns metrics values)
    tell (progress "合并召回信息" succeeded)
    pure (record no_update { table_infos = some merged.0; metric_infos = some merged.1 }))

  unfoldable pub filter_table_node : AgentState → Exec Trace Update
  unfolding in_step
  filter_table_node s = in_step "过滤表信息" (do
    tables ← lift (need s.table_infos)
    selection ← lift (o.select_tables s.query tables)
    chosen ← lift (filter_table selection tables)
    tell (progress "过滤表信息" succeeded)
    pure (record no_update { table_infos = some chosen }))

  unfoldable pub filter_metric_node : AgentState → Exec Trace Update
  unfolding in_step
  filter_metric_node s = in_step "过滤指标信息" (do
    metrics ← lift (need s.metric_infos)
    selection ← lift (o.select_metrics s.query metrics)
    chosen ← lift (filter_metric selection metrics)
    tell (progress "过滤指标信息" succeeded)
    pure (record no_update { metric_infos = some chosen }))

  unfoldable pub add_extra_context : AgentState → Exec Trace Update
  unfolding in_step show
  add_extra_context s = in_step "添加额外上下文" (do
    db ← lift o.db
    tell (progress "添加额外上下文" succeeded)
    pure (record no_update {
      date_info = some (record {
        date = o.today;
        weekday = o.weekday;
        quarter = "Q" <> show ((o.month - 1) / 3 + 1);
      });
      db_info = some db;
    }))

  -- The keys that the prompts of generate_sql and correct_sql are filled from.
  pub prompt_context : AgentState → Result (Unit {0})
  prompt_context s = and_then (need s.table_infos) λ _.
      and_then (need s.metric_infos)
        λ _. and_then (need s.date_info) λ _. and_then (need s.db_info) λ _. ok tt

  unfoldable pub generate_sql : AgentState → Exec Trace Update
  unfolding in_step prompt_context supported after_prefix strip
  generate_sql s = in_step "生成SQL" (do
    lift (prompt_context s)
    raw ← lift (o.write_sql s)
    sql ← lift (supported raw (after_prefix "UNSUPPORTED:" (strip raw)))
    tell (progress "生成SQL" succeeded)
    pure (record no_update { sql = some sql }))

  unfoldable pub correct_sql : AgentState → Exec Trace Update
  unfolding in_step prompt_context
  correct_sql s = in_step "校正SQL" (do
    lift (prompt_context s)
    sql ← lift (need s.sql)
    error ← lift (need s.error)
    fixed ← lift (o.fix_sql s sql error)
    tell (progress "校正SQL" succeeded)
    pure (record no_update { sql = some fixed }))

  module _ (checks : SqlChecks) where
    -- The three checks, in the order of the code.
    unfoldable pub check_sql : String → String → Result (Unit {0})
    check_sql query sql =
        and_then (checks.relations sql)
          λ _. and_then (checks.metrics query sql) (λ _. checks.period query sql)

    abbrev pub ask_warehouse : {A : Type 0} → (ℕ → Result A) → DbCall → Exec Trace A
    ask_warehouse reply c t = (reply (length t.calls), record t { calls = c ∷ t.calls })

    -- dw_mysql_repository.validate, which guards the SQL again
    unfoldable pub explain_sql : String → Exec Trace (Unit {0})
    explain_sql sql = do
      safe ← lift (checks.safe sql)
      ask_warehouse (λ n. o.explain n safe) (explained safe)

    -- dw_mysql_repository.run, which guards the SQL again
    unfoldable pub execute_sql : String → Exec Trace (List Value)
    execute_sql sql = do
      safe ← lift (checks.safe sql)
      ask_warehouse o.limit_time time_limited
      ask_warehouse (λ n. o.execute n safe) (executed safe)

    unfoldable pub checked : String → String → Exec Trace (Unit {0})
    unfolding check_sql explain_sql
    checked query sql = do lift (check_sql query sql); explain_sql sql

    -- str(e) of what the checks raised, or None
    verdict : Result (Unit {0}) → Option String
    verdict (ok _) = none
    verdict (err e) = some (o.message e)

    unfoldable pub attempted : String → String → Exec Trace Update
    unfolding checked verdict
    attempted query sql t =
        let (r, t') = checked query sql t in
        (ok (record no_update { error = some (verdict r) }), emit (progress "校验SQL" succeeded) t')

    unfoldable pub validate_sql : AgentState → Exec Trace Update
    unfolding in_step attempted
    validate_sql s = in_step "校验SQL" (do sql ← lift (need s.sql); attempted s.query sql)

    -- The execution of SQL that was checked, and the messages of its end.
    unfoldable pub run_checked : String → Exec Trace Update
    unfolding execute_sql
    run_checked sql = do
      found ← execute_sql sql
      tell (progress "执行SQL" succeeded)
      tell (answered found sql max_rows)
      pure no_update

    unfoldable pub run_guarded : String → String → Exec Trace Update
    unfolding checked run_checked
    run_guarded query sql = do checked query sql; run_checked sql

    unfoldable pub run_raw : String → String → Exec Trace Update
    unfolding run_guarded
    run_raw query raw = do sql ← lift (checks.safe raw); run_guarded query sql

    unfoldable pub run_sql : AgentState → Exec Trace Update
    unfolding in_step run_raw
    run_sql s = in_step "执行SQL" (do raw ← lift (need s.sql); run_raw s.query raw)
