-- ===== src/Query/Knowledge/Build/Integrity.antt =====
-- The metadata tables are consistent after every construction, whatever fails in it.
use mathlib.Core.List.{map-append}
use incident_desk.Prelude.{
  All, All-append, All-map, Keeps, Keeps-bind, Keeps-lift, Keeps-pure, List, String, Yields,
  Yields-ok, [], always, and_then-Yields, arith, contains, contains-append, continue_keeps, drop,
  length, lift, map, nat_eq, string_eq, suc, take, true, zero, ℕ, ◌++◌, ◌∷◌, ◌≡◌,
}
use incident_desk.Query.Knowledge.{
  ColumnConfig, ColumnMetric, MetaConfig, MetricConfig, Outside, Stores, TableConfig, column_info,
  column_texts, find_type, metric_info, metric_relations, metric_rows, metric_texts, table_info,
  zip_points,
}
use incident_desk.Query.Knowledge.Build.{
  build_knowledge, build_metrics, build_tables, column_rows, draw, embed_all, embed_batch,
  embedding_text, ensure_columns_collection, ensure_index, ensure_metrics_collection, entries,
  index_values, request_store, save_column_info, save_metric_points, save_metrics, save_tables,
  save_values, send_batches, store_columns, store_metrics, store_values, table_rows, upsert_columns,
  upsert_metrics, value_rows,
}
use incident_desk.Query.Knowledge.Build.Batches.{settle-keeps}
use incident_desk.Query.Merge.{ColumnInfo, MetricInfo, TableInfo}
use incident_desk.Worker.Contracts.{object_eq, source_eq}

abbrev table_ids : List TableInfo → List String
table_ids = map (λ (t : TableInfo). t.id)

abbrev metric_ids : List MetricInfo → List String
metric_ids = map (λ (m : MetricInfo). m.id)

abbrev InTables : List String → ColumnInfo → Type 0
InTables ts c = contains c.table_id ts ≡ true

abbrev InMetrics : List String → ColumnMetric → Type 0
InMetrics ms r = contains r.metric_id ms ≡ true

-- Every column belongs to a table that is stored, and every relation to a metric that is stored.
pub record LinkedRows (ts : List TableInfo) (cs : List ColumnInfo) (ms : List MetricInfo)
    (rs : List ColumnMetric) : Type 0 where
  pub of_table : All (InTables (table_ids ts)) cs
  pub of_metric : All (InMetrics (metric_ids ms)) rs

abbrev pub IsLinked : {V : Type 0} → Stores V → Type 0
IsLinked s = LinkedRows s.tables s.columns s.metrics s.column_metrics

metric_relations-metric :
    (m : String) (cs ms : List String)
    → contains m ms ≡ true
    → All (InMetrics ms) (metric_relations m cs)
unfolding metric_relations
metric_relations-metric m [] ms h = tt
metric_relations-metric m (c ∷ cs) ms h = (h, metric_relations-metric m cs ms h)

metric_rows-metric :
    (xs : List MetricConfig) → All (InMetrics (metric_ids (metric_rows xs).0)) (metric_rows xs).1
unfolding metric_rows metric_info
metric_rows-metric [] = tt
metric_rows-metric (x ∷ xs) =
    let ids = metric_ids (metric_rows xs).0 in
    All-append (InMetrics (x.name ∷ ids)) (metric_relations x.name x.relevant_columns)
      (metric_rows xs).1
      (metric_relations-metric x.name x.relevant_columns (x.name ∷ ids)
        (ground (arith, string_eq.beq_iff x.name x.name)))
      (All-map (InMetrics ids) (InMetrics (x.name ∷ ids)) (metric_rows xs).1 (λ r h. ground arith)
        (metric_rows-metric xs))

contains-left :
    (k : String) (xs ys : List String) → contains k xs ≡ true → contains k (xs ++ ys) ≡ true
contains-left k xs ys h = ground (arith, contains-append k xs ys)

contains-right :
    (k : String) (xs ys : List String) → contains k ys ≡ true → contains k (xs ++ ys) ≡ true
contains-right k xs ys h = ground (arith, contains-append k xs ys)

linked_append :
    {A B : Type 0} (key : A → String) (id : B → String) (bs cs : List B) (xs ys : List A)
    → All (λ a. contains (key a) (map id bs) ≡ true) xs
    → All (λ a. contains (key a) (map id cs) ≡ true) ys
    → All (λ a. contains (key a) (map id (bs ++ cs)) ≡ true) (xs ++ ys)
linked_append key id bs cs xs ys h k = rw (map-append id bs cs) (
    All-append (λ a. contains (key a) (map id bs ++ map id cs) ≡ true) xs ys
      (All-map _ _ xs (λ a. contains-left (key a) (map id bs) (map id cs)) h)
      (All-map _ _ ys (λ a. contains-right (key a) (map id bs) (map id cs)) k))

module _ {V : Type 0} (o : Outside V) where
  column_rows-table :
      (t : TableConfig) (types : List (String × String)) (cs : List ColumnConfig) (ts : List String)
      → contains t.name ts ≡ true
      → Yields (All (InTables ts)) (column_rows o t types cs)
  unfolding column_rows column_info
  column_rows-table t types [] ts h = tt
  column_rows-table t types (c ∷ cs) ts h =
      and_then-Yields (λ _. Unit {0}) (All (InTables ts)) (o.column_values t.name c.name 10) _
        (always _)
        λ values _.
          and_then-Yields (λ _. Unit {0}) (All (InTables ts)) (find_type c.name types) _ (always _)
            λ type _.
              and_then-Yields (All (InTables ts)) (All (InTables ts)) (column_rows o t types cs) _
                (column_rows-table t types cs ts h) (λ rest r. (h, r))

  table_rows-table :
      (ts : List TableConfig)
      → Yields (All (InTables (table_ids (map table_info ts)))) (table_rows o ts)
  unfolding table_rows
  table_rows-table [] = tt
  table_rows-table (t ∷ ts) =
      let ids = table_ids (map table_info ts) in
      let All_in = All (InTables (t.name ∷ ids)) in
      and_then-Yields (λ _. Unit {0}) All_in (o.column_types t.name) _ (always _)
        λ types _.
          and_then-Yields All_in All_in (column_rows o t types t.columns) _
            (column_rows-table t types t.columns (t.name ∷ ids)
              (ground (arith, string_eq.beq_iff t.name t.name)))
            λ cs in_t.
              and_then-Yields (All (InTables ids)) All_in (table_rows o ts) _ (table_rows-table ts)
                (λ rest in_ts. All-append (InTables (t.name ∷ ids)) cs rest in_t (
                  All-map (InTables ids) (InTables (t.name ∷ ids)) rest (λ c h. ground arith)
                    in_ts))

  request_store-IsLinked :
      (f : Stores V → Stores V)
      → ((s : Stores V) → IsLinked s → IsLinked (f s))
      → Keeps IsLinked (request_store o f)
  unfolding request_store
  request_store-IsLinked f k = record {
    at = λ s l. settle-keeps IsLinked (o.accepts s.requests) f _ k l;
  }

  send_batches-IsLinked :
      {A : Type 0} (size : ℕ) (write : List A → Stores V → Stores V)
      → ((xs : List A) (s : Stores V) → IsLinked s → IsLinked (write xs s))
      → (fuel : ℕ) (xs : List A) → Keeps IsLinked (send_batches o size write fuel xs)
  unfolding send_batches
  send_batches-IsLinked size write k zero xs = Keeps-pure tt
  send_batches-IsLinked size write k (suc fuel) [] = Keeps-pure tt
  send_batches-IsLinked size write k (suc fuel) (x ∷ xs) =
      Keeps-bind _ _ (request_store-IsLinked (write (take size (x ∷ xs))) (k (take size (x ∷ xs))))
        λ u. send_batches-IsLinked size write k fuel (drop size (x ∷ xs))

  embed_all-IsLinked : (fuel : ℕ) (xs : List String) → Keeps IsLinked (embed_all o fuel xs)
  unfolding embed_all embed_batch
  embed_all-IsLinked zero xs = Keeps-pure []
  embed_all-IsLinked (suc fuel) [] = Keeps-pure []
  embed_all-IsLinked (suc fuel) (x ∷ xs) =
      Keeps-bind (embed_batch o (take 20 (x ∷ xs))) _ (record { at = λ s l. l })
        λ vs.
          Keeps-bind _ _ (embed_all-IsLinked fuel (drop 20 (x ∷ xs)))
            (λ more. Keeps-pure (vs ++ more))

  save_column_info-IsLinked : (cs : List ColumnInfo) → Keeps IsLinked (save_column_info o cs)
  unfolding save_column_info ensure_columns_collection upsert_columns store_columns draw
  save_column_info-IsLinked cs =
      Keeps-bind (ensure_columns_collection o) _ (request_store-IsLinked _ (λ s l. l)) λ u. record {
        at = λ s l.
            let xs = entries o column_texts s.drawn cs in
            (Keeps-bind (embed_all o (length xs) (map (embedding_text o) xs)) _
                (embed_all-IsLinked (length xs) (map (embedding_text o) xs))
                (λ vs.
                  send_batches-IsLinked 10 (store_columns o) (λ ps s l. l)
                    (length (zip_points xs vs)) (zip_points xs vs))).at
              (draw o (length xs) s) l;
      }

  save_metric_points-IsLinked : (ms : List MetricInfo) → Keeps IsLinked (save_metric_points o ms)
  unfolding save_metric_points ensure_metrics_collection upsert_metrics store_metrics draw
  save_metric_points-IsLinked ms =
      Keeps-bind (ensure_metrics_collection o) _ (request_store-IsLinked _ (λ s l. l)) λ u. record {
        at = λ s l.
            let xs = entries o metric_texts s.drawn ms in
            (Keeps-bind (embed_all o (length xs) (map (embedding_text o) xs)) _
                (embed_all-IsLinked (length xs) (map (embedding_text o) xs))
                (λ vs.
                  send_batches-IsLinked 10 (store_metrics o) (λ ps s l. l)
                    (length (zip_points xs vs)) (zip_points xs vs))).at
              (draw o (length xs) s) l;
      }

  save_values-IsLinked :
      (ts : List TableConfig) (cs : List ColumnInfo) → Keeps IsLinked (save_values o ts cs)
  unfolding save_values ensure_index index_values store_values
  save_values-IsLinked ts cs =
      Keeps-bind (ensure_index o) _ (request_store-IsLinked _ (λ s l. l)) λ u.
        Keeps-bind (lift (value_rows o ts cs)) _ (Keeps-lift _)
          λ vs. send_batches-IsLinked 20 (store_values o) (λ vs s l. l) (length vs) vs

  save_tables-IsLinked : (ts : List TableConfig) → Keeps IsLinked (save_tables o ts)
  unfolding save_tables
  save_tables-IsLinked ts = record {
    at = λ s l. continue_keeps IsLinked (table_rows o ts) _ s l λ cs e.
        (Keeps-bind _ _
            (request_store-IsLinked
              (λ s. record s { tables = s.tables ++ map table_info ts; columns = s.columns ++ cs })
              (λ s l. record {
                of_table =
                    linked_append (λ (c : ColumnInfo). c.table_id) (λ (t : TableInfo). t.id)
                      s.tables (map table_info ts) s.columns cs l.of_table
                      (Yields-ok (All (InTables (table_ids (map table_info ts)))) (table_rows o ts)
                        e (table_rows-table ts));
                of_metric = l.of_metric;
              }))
            (λ u. Keeps-pure cs)).at
          s l;
  }

  save_metrics-IsLinked : (xs : List MetricConfig) → Keeps IsLinked (save_metrics o xs)
  unfolding save_metrics
  save_metrics-IsLinked xs =
      Keeps-bind _ _
        (request_store-IsLinked _ (λ s l. record {
          of_table = l.of_table;
          of_metric =
              linked_append (λ (r : ColumnMetric). r.metric_id) (λ (m : MetricInfo). m.id) s.metrics
                (metric_rows xs).0 s.column_metrics (metric_rows xs).1 l.of_metric
                (metric_rows-metric xs);
        }))
        (λ u. Keeps-pure _)

  build_tables-IsLinked : (ts : List TableConfig) → Keeps IsLinked (build_tables o ts)
  unfolding build_tables
  build_tables-IsLinked [] = Keeps-pure tt
  build_tables-IsLinked (t ∷ ts) =
      Keeps-bind _ _ (save_tables-IsLinked (t ∷ ts))
        λ cs. Keeps-bind _ _ (save_column_info-IsLinked cs) (λ u. save_values-IsLinked (t ∷ ts) cs)

  build_metrics-IsLinked : (xs : List MetricConfig) → Keeps IsLinked (build_metrics o xs)
  unfolding build_metrics
  build_metrics-IsLinked [] = Keeps-pure tt
  build_metrics-IsLinked (x ∷ xs) =
      Keeps-bind _ _ (save_metrics-IsLinked (x ∷ xs)) (λ ms. save_metric_points-IsLinked ms)

  -- Whatever is answered from outside and wherever the construction ends, if every stored column
  -- belonged to a stored table and every stored relation to a stored metric, they still do.
  pub build-IsLinked :
      (config : MetaConfig) (s : Stores V) → IsLinked s → IsLinked (build_knowledge o config s).1
  unfolding build_knowledge
  build-IsLinked config s l =
      (Keeps-bind (build_tables o config.tables) _ (build_tables-IsLinked config.tables)
          (λ u. build_metrics-IsLinked config.metrics)).at
        s l
