-- ===== src/Query/Knowledge/Build.antt =====
-- query/app/services/meta_knowledge_service.py: the stages of the construction, and `build`
-- (`build_knowledge`).
-- `range(0, n, size)` counts down from n, which is at least the number of batches.
pub mod Batches
pub mod Search
pub mod Synced
pub mod Integrity
use incident_desk.Prelude.{
  Bool, Exec, List, Option, Result, String, [], and_then, drop, err, false, length, lift, map, none,
  ok, other_error, pure, some, suc, take, true, zero, ℕ, ◌++◌, ◌+◌, ◌<>◌, ◌>>=◌, ◌>>◌, ◌∷◌,
}
use incident_desk.Json.Defs.{Value, texts}
use incident_desk.Query.Guard.{rows}
use incident_desk.Query.Knowledge.{
  ColumnConfig, Entry, MetaConfig, MetricConfig, Outside, Point, Stores, TableConfig, column_info,
  column_texts, created, find_type, metric_rows, metric_texts, onto, put_all, sync_of, table_info,
  zip_points,
}
use incident_desk.Query.Merge.{ColumnInfo, MetricInfo, ValueInfo}
use incident_desk.Worker.Gather.Base.{format}

pub settle : {V : Type 0} → Result (Unit {0}) → (Stores V → Stores V) → Exec (Stores V) (Unit {0})
settle (ok _) f s = (ok tt, f s)
settle (err e) f s = (err e, s)

module _ {V : Type 0} (o : Outside V) where
  -- A request to a store, and what it changes if it ends well.
  pub request_store : (Stores V → Stores V) → Exec (Stores V) (Unit {0})
  unfolding settle
  request_store f s = settle (o.accepts s.requests) f (record s { requests = s.requests + 1 })

  -- for i in range(0, len(xs), size): await write(xs[i : i + size])
  pub send_batches :
      {A : Type 0} → ℕ → (List A → Stores V → Stores V) → ℕ → List A → Exec (Stores V) (Unit {0})
  unfolding request_store
  send_batches size write zero xs = pure tt
  send_batches size write (suc fuel) [] = pure tt
  send_batches size write (suc fuel) (x ∷ xs) = do
    request_store (write (take size (x ∷ xs)))
    send_batches size write fuel (drop size (x ∷ xs))

  -- The call of the embedding service; the batch is noted.
  pub embed_batch : List String → Exec (Stores V) (List V)
  embed_batch texts s = (o.embed texts, record s { batches = s.batches ++ texts ∷ [] })

  -- for i in range(0, len(embedding_texts), 20): embeddings.extend(await aembed_documents(...))
  pub embed_all : ℕ → List String → Exec (Stores V) (List V)
  unfolding embed_batch
  embed_all zero xs = pure []
  embed_all (suc fuel) [] = pure []
  embed_all (suc fuel) (x ∷ xs) = do
    vs ← embed_batch (take 20 (x ∷ xs))
    more ← embed_all fuel (drop 20 (x ∷ xs))
    pure (vs ++ more)

  -- The entries of one column or metric, whose uuids are drawn one after another.
  pub entries_from : {A : Type 0} → ℕ → A → List String → List (Entry A)
  entries_from n a [] = []
  entries_from n a (t ∷ ts) =
      record { id = o.uuid n; text = t; payload = a } ∷ entries_from (n + 1) a ts

  unfoldable pub entries : {A : Type 0} → (A → List String) → ℕ → List A → List (Entry A)
  unfolding entries_from
  entries texts n [] = []
  entries texts n (a ∷ xs) = entries_from n a (texts a) ++ entries texts (n + length (texts a)) xs

  pub embedding_text : {A : Type 0} → Entry A → String
  embedding_text x = x.text

  pub point_id : {A : Type 0} → Point V A → String
  point_id p = p.id

  draw : ℕ → Stores V → Stores V
  draw n s = record s { drawn = s.drawn + n }

  store_columns : List (Point V ColumnInfo) → Stores V → Stores V
  unfolding put_all point_id
  store_columns ps s = record s { column_points = onto point_id ps s.column_points }

  store_metrics : List (Point V MetricInfo) → Stores V → Stores V
  unfolding put_all point_id
  store_metrics ps s = record s { metric_points = onto point_id ps s.metric_points }

  store_values : List ValueInfo → Stores V → Stores V
  unfolding put_all
  store_values vs s = record s { values = onto (λ (v : ValueInfo). v.id) vs s.values }

  -- ColumnQdrantRepository.upsert, MetricQdrantRepository.upsert
  upsert_columns : List (Point V ColumnInfo) → Exec (Stores V) (Unit {0})
  unfolding send_batches store_columns
  upsert_columns ps = send_batches 10 store_columns (length ps) ps

  upsert_metrics : List (Point V MetricInfo) → Exec (Stores V) (Unit {0})
  unfolding send_batches store_metrics
  upsert_metrics ps = send_batches 10 store_metrics (length ps) ps

  -- ValueESRepository.index
  index_values : List ValueInfo → Exec (Stores V) (Unit {0})
  unfolding send_batches store_values
  index_values vs = send_batches 20 store_values (length vs) vs

  ensure_columns_collection : Exec (Stores V) (Unit {0})
  unfolding request_store
  ensure_columns_collection =
      request_store λ s. record s { column_points = created s.column_points }

  ensure_metrics_collection : Exec (Stores V) (Unit {0})
  unfolding request_store
  ensure_metrics_collection =
      request_store λ s. record s { metric_points = created s.metric_points }

  ensure_index : Exec (Stores V) (Unit {0})
  unfolding request_store
  ensure_index = request_store λ s. record s { values = created s.values }

  -- _save_column_info_to_qdrant
  unfoldable pub save_column_info : List ColumnInfo → Exec (Stores V) (Unit {0})
  unfolding ensure_columns_collection embed_all upsert_columns entries column_texts embedding_text
      draw zip_points
  save_column_info cs = do
    ensure_columns_collection
    s ← λ s. (ok s, s)
    let xs = entries column_texts s.drawn cs
    λ s. (ok tt, draw (length xs) s)
    vs ← embed_all (length xs) (map embedding_text xs)
    upsert_columns (zip_points xs vs)

  -- _save_metrics_to_qdrant
  pub save_metric_points : List MetricInfo → Exec (Stores V) (Unit {0})
  unfolding ensure_metrics_collection embed_all upsert_metrics entries metric_texts embedding_text
      draw zip_points
  save_metric_points ms = do
    ensure_metrics_collection
    s ← λ s. (ok s, s)
    let xs = entries metric_texts s.drawn ms
    λ s. (ok tt, draw (length xs) s)
    vs ← embed_all (length xs) (map embedding_text xs)
    upsert_metrics (zip_points xs vs)

  -- The loop over the columns of a table.
  pub column_rows :
      TableConfig → List (String × String) → List ColumnConfig → Result (List ColumnInfo)
  unfolding find_type column_info
  column_rows t types [] = ok []
  column_rows t types (c ∷ cs) = and_then (o.column_values t.name c.name 10) λ values.
      and_then (find_type c.name types)
        λ type. and_then (column_rows t types cs) λ rest. ok (column_info t c type values ∷ rest)

  -- The loop over the tables.
  pub table_rows : List TableConfig → Result (List ColumnInfo)
  unfolding column_rows
  table_rows [] = ok []
  table_rows (t ∷ ts) = and_then (o.column_types t.name) λ types.
      and_then (column_rows t types t.columns)
        λ cs. and_then (table_rows ts) λ rest. ok (cs ++ rest)

  -- _save_tables_to_meta_db, whose transaction is one request
  pub save_tables : List TableConfig → Exec (Stores V) (List ColumnInfo)
  unfolding table_rows request_store
  save_tables ts = do
    cs ← lift (table_rows ts)
    request_store
        λ s. record s { tables = s.tables ++ map table_info ts; columns = s.columns ++ cs }
    pure cs

  -- _save_metrics_to_meta_db
  pub save_metrics : List MetricConfig → Exec (Stores V) (List MetricInfo)
  unfolding metric_rows request_store
  save_metrics xs = do
    let rows = metric_rows xs
    request_store
        λ s. record s { metrics = s.metrics ++ rows.0; column_metrics = s.column_metrics ++ rows.1 }
    pure rows.0

  value_info : String → Value → ValueInfo
  value_info column v = record { id = column <> "." <> o.format v; value = v; column_id = column }

  values_if : Option Bool → ColumnInfo → Result (List ValueInfo)
  unfolding value_info
  values_if none c = err (other_error "KeyError")
  values_if (some false) c = ok []
  values_if (some true) c =
      and_then (o.column_values c.table_id c.name 100000)
        λ values. ok (map (value_info c.id) values)

  value_rows : List TableConfig → List ColumnInfo → Result (List ValueInfo)
  unfolding sync_of values_if
  value_rows ts [] = ok []
  value_rows ts (c ∷ cs) =
      and_then (values_if (sync_of ts c.id none) c)
        λ vs. and_then (value_rows ts cs) λ rest. ok (vs ++ rest)

  -- _save_value_info_to_es
  pub save_values : List TableConfig → List ColumnInfo → Exec (Stores V) (Unit {0})
  unfolding ensure_index value_rows index_values
  save_values ts cs = do ensure_index; vs ← lift (value_rows ts cs); index_values vs

  build_tables : List TableConfig → Exec (Stores V) (Unit {0})
  unfolding save_tables save_column_info save_values
  build_tables [] = pure tt
  build_tables (t ∷ ts) = do cs ← save_tables (t ∷ ts); save_column_info cs; save_values (t ∷ ts) cs

  build_metrics : List MetricConfig → Exec (Stores V) (Unit {0})
  unfolding save_metrics save_metric_points
  build_metrics [] = pure tt
  build_metrics (x ∷ xs) = do ms ← save_metrics (x ∷ xs); save_metric_points ms

  -- MetaKnowledgeService.build, from the configuration that was read
  unfoldable pub build_knowledge : MetaConfig → Exec (Stores V) (Unit {0})
  unfolding build_tables build_metrics
  build_knowledge config = do build_tables config.tables; build_metrics config.metrics
