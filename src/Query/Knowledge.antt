-- ===== src/Query/Knowledge.antt =====
-- query/app/services/meta_knowledge_service.py, `MetaKnowledgeService`: the metadata tables and the
-- search indexes are built from a configuration; with the batches of the repositories under
-- query/app/repositories/qdrant and query/app/repositories/es. The warehouse, the embedding service
-- and the clients of the stores are outside. A request to a store that fails has stored nothing.
pub mod Build
use incident_desk.Prelude.{
  Bool, List, Option, Result, String, [], err, if◌then◌else◌, nat_eq, none, not, ok, other_error,
  select, some, string_eq, ℕ, ◌++◌, ◌<>◌, ◌==◌, ◌∷◌,
}
use incident_desk.Json.Defs.{Value}
use incident_desk.Query.Merge.{ColumnInfo, MetricInfo, TableInfo, ValueInfo}
use incident_desk.Worker.Contracts.{object_eq, source_eq}

-- conf/meta_config.py
pub record ColumnConfig : Type 0 where
  pub name : String
  pub role : String
  pub description : String
  pub alias : List String
  pub sync : Bool

pub record TableConfig : Type 0 where
  pub name : String
  pub role : String
  pub description : String
  pub columns : List ColumnConfig

pub record MetricConfig : Type 0 where
  pub name : String
  pub description : String
  pub relevant_columns : List String
  pub alias : List String

-- None and an empty list are the same to `build`.
pub record MetaConfig : Type 0 where
  pub tables : List TableConfig
  pub metrics : List MetricConfig

pub record ColumnMetric : Type 0 where
  pub column_id : String
  pub metric_id : String

-- A point of a vector collection, or before it is embedded.
pub record Point (V A : Type 0) : Type 0 where
  pub id : String
  pub vector : V
  pub payload : A

pub record Entry (A : Type 0) : Type 0 where
  pub id : String
  pub text : String
  pub payload : A

-- The outside: the types and the distinct values of a table's columns in the warehouse, the embedding
-- service, the k-th uuid, an f-string of a value, and how the k-th request to a store ends.
pub record Outside (V : Type 0) : Type 0 where
  pub column_types : String → Result (List (String × String))
  pub column_values : String → String → ℕ → Result (List Value)
  pub embed : List String → Result (List V)
  pub uuid : ℕ → String
  pub format : Value → String
  pub accepts : ℕ → Result (Unit {0})

-- What is stored: the metadata tables, the collections and the index, which are none before they are
-- created; and the numbers of uuids drawn and of requests made.
pub record Stores (V : Type 0) : Type 0 where
  pub tables : List TableInfo
  pub columns : List ColumnInfo
  pub metrics : List MetricInfo
  pub column_metrics : List ColumnMetric
  pub column_points : Option (List (Point V ColumnInfo))
  pub metric_points : Option (List (Point V MetricInfo))
  pub values : Option (List ValueInfo)
  pub drawn : ℕ
  pub requests : ℕ
  pub batches : List (List String)

-- if not await ...exists(...): await ...create(...)
abbrev pub created {ℓ} : {A : Type ℓ} → Option (List A) → Option (List A)
created none = some []
created (some xs) = some xs

-- A document or point with an id that is there is replaced.
abbrev pub put_by {ℓ} : {A : Type ℓ} → (A → String) → A → List A → List A
put_by key x xs = select (λ y. not (key y == key x)) xs ++ x ∷ []

pub put_all {ℓ} : {A : Type ℓ} → (A → String) → List A → List A → List A
put_all key [] ys = ys
put_all key (x ∷ xs) ys = put_all key xs (put_by key x ys)

abbrev pub onto {ℓ} : {A : Type ℓ} → (A → String) → List A → Option (List A) → Option (List A)
onto key xs none = none
onto key xs (some ys) = some (put_all key xs ys)

-- column_types[column.name]
find_type : String → List (String × String) → Result String
find_type k [] = err (other_error "KeyError")
find_type k ((j, t) ∷ rest) = if j == k then ok t else find_type k rest

abbrev pub column_key : TableConfig → ColumnConfig → String
column_key t c = t.name <> "." <> c.name

abbrev table_info : TableConfig → TableInfo
table_info t = record { id = t.name; name = t.name; role = t.role; description = t.description }

column_info : TableConfig → ColumnConfig → String → List Value → ColumnInfo
column_info t c type values = record {
  id = column_key t c;
  name = c.name;
  type = type;
  role = c.role;
  examples = values;
  description = c.description;
  alias = c.alias;
  table_id = t.name;
}

metric_info : MetricConfig → MetricInfo
metric_info x = record {
  id = x.name;
  name = x.name;
  description = x.description;
  relevant_columns = x.relevant_columns;
  alias = x.alias;
}

metric_relations : String → List String → List ColumnMetric
metric_relations metric [] = []
metric_relations metric (c ∷ cs) =
    record { column_id = c; metric_id = metric } ∷ metric_relations metric cs

-- for metric in meta_config.metrics
metric_rows : List MetricConfig → List MetricInfo × List ColumnMetric
unfolding metric_info metric_relations
metric_rows [] = ([], [])
metric_rows (x ∷ xs) =
    let (ms, rs) = metric_rows xs in
    (metric_info x ∷ ms, metric_relations x.name x.relevant_columns ++ rs)

-- The texts under which a column or a metric is found: its name, its description, its aliases.
abbrev pub search_texts : String → String → List String → List String
search_texts name description alias = name ∷ description ∷ alias

unfoldable pub column_texts : ColumnInfo → List String
column_texts c = search_texts c.name c.description c.alias

pub metric_texts : MetricInfo → List String
metric_texts m = search_texts m.name m.description m.alias

-- zip(ids, embeddings, payloads), with the ids and payloads of the entries
pub zip_points : {V A : Type 0} → List (Entry A) → List V → List (Point V A)
zip_points [] vs = []
zip_points (x ∷ xs) [] = []
zip_points (x ∷ xs) (v ∷ vs) =
    record { id = x.id; vector = v; payload = x.payload } ∷ zip_points xs vs

-- column2sync: the last setting of an id counts
sync_of_columns : TableConfig → List ColumnConfig → String → Option Bool → Option Bool
sync_of_columns t [] k found = found
sync_of_columns t (c ∷ cs) k found =
    sync_of_columns t cs k (if column_key t c == k then some c.sync else found)

sync_of : List TableConfig → String → Option Bool → Option Bool
unfolding sync_of_columns
sync_of [] k found = found
sync_of (t ∷ ts) k found = sync_of ts k (sync_of_columns t t.columns k found)
