-- ===== src/Query/Merge.antt =====
-- query/app/agent/nodes/merge_retrieved_info.py: the retrieved metadata, completed by the columns that
-- metrics, values and joins need. The metadata database is an interface; a row that it does not have
-- is None, on which the next attribute access raises.
pub mod Growth
pub mod Origins
pub mod Coverage
pub mod Joins
use incident_desk.Prelude.{
  Bool, Exc, List, Option, Result, String, [], and_then, any, contains, err, if◌then◌else◌, map,
  nat_eq, none, not, ok, other_error, select, some, string_eq, ◌++◌, ◌==◌, ◌∷◌,
}
use incident_desk.Json.Defs.{Value, same_value}
use incident_desk.Worker.Contracts.{object_eq, source_eq}

pub record ColumnInfo : Type 0 where
  pub id : String
  pub name : String
  pub type : String
  pub role : String
  pub examples : List Value
  pub description : String
  pub alias : List String
  pub table_id : String

pub record MetricInfo : Type 0 where
  pub id : String
  pub name : String
  pub description : String
  pub relevant_columns : List String
  pub alias : List String

pub record ValueInfo : Type 0 where
  pub id : String
  pub value : Value
  pub column_id : String

pub record TableInfo : Type 0 where
  pub id : String
  pub name : String
  pub role : String
  pub description : String

-- TableInfoState; its columns are ColumnInfo less the ids.
pub record TableState : Type 0 where
  pub name : String
  pub role : String
  pub description : String
  pub columns : List ColumnInfo

pub record Repository : Type 0 where
  pub column_by_id : String → Result (Option ColumnInfo)
  pub table_by_id : String → Result (Option TableInfo)
  pub key_columns : String → Result (List ColumnInfo)

-- A dictionary from column ids, in order of insertion.
abbrev pub Columns : Type 0
Columns = List (String × Option ColumnInfo)

abbrev pub ids : Columns → List String
ids = map (λ (e : String × Option ColumnInfo). e.0)

pub set_column : String → Option ColumnInfo → Columns → Columns
set_column k c [] = (k, c) ∷ []
set_column k c ((j, d) ∷ rest) =
    let more = set_column k c rest in if j == k then (j, c) ∷ rest else (j, d) ∷ more

pub find_column : String → Columns → Option ColumnInfo
find_column k [] = none
find_column k ((j, d) ∷ rest) = if j == k then d else find_column k rest

none_error : Exc
none_error = other_error "AttributeError"

pub retrieved_map : List ColumnInfo → Columns → Columns
unfolding set_column
retrieved_map [] m = m
retrieved_map (c ∷ cs) m = retrieved_map cs (set_column c.id (some c) m)

-- v in examples
pub has_value : Value → List Value → Bool
has_value v xs = any (same_value v) xs

pub with_value : Value → ColumnInfo → ColumnInfo
unfolding has_value
with_value v c = if has_value v c.examples then c else record c { examples = c.examples ++ v ∷ [] }

module _ (repo : Repository) where
  -- if k not in columns: columns[k] = await get_column_info_by_id(k)
  pub ensure_column : String → Columns → Result Columns
  unfolding set_column
  ensure_column k m =
      if contains k (ids m)
      then ok m
      else and_then (repo.column_by_id k) (λ c. ok (set_column k c m))

  pub ensure_columns : List String → Columns → Result Columns
  unfolding ensure_column
  ensure_columns [] m = ok m
  ensure_columns (k ∷ ks) m = and_then (ensure_column k m) (λ m'. ensure_columns ks m')

  pub add_metrics : List MetricInfo → Columns → Result Columns
  unfolding ensure_columns
  add_metrics [] m = ok m
  add_metrics (x ∷ xs) m = and_then (ensure_columns x.relevant_columns m) (λ m'. add_metrics xs m')

  set_value : ValueInfo → Columns → Result Columns
  unfolding find_column with_value none_error
  set_value v m = elim (find_column v.column_id m) [
    | none ↦ err none_error
    | some c ↦ ok (set_column v.column_id (some (with_value v.value c)) m)
  ]

  pub add_values : List ValueInfo → Columns → Result Columns
  unfolding set_value ensure_column
  add_values [] m = ok m
  add_values (v ∷ vs) m =
      and_then (and_then (ensure_column v.column_id m) (set_value v)) (λ m'. add_values vs m')

  -- The first three stages.
  unfoldable pub merge_columns : List ColumnInfo → List MetricInfo → List ValueInfo → Result Columns
  unfolding retrieved_map add_metrics add_values
  merge_columns columns metrics values =
      and_then (add_metrics metrics (retrieved_map columns [])) (add_values values)

  -- table_to_columns_map
  pub add_to_table : ColumnInfo → List (String × List ColumnInfo) → List (String × List ColumnInfo)
  add_to_table c [] = (c.table_id, c ∷ []) ∷ []
  add_to_table c ((t, cs) ∷ rest) =
      let more = add_to_table c rest in
      if t == c.table_id then (t, cs ++ c ∷ []) ∷ rest else (t, cs) ∷ more

  by_table : Columns → List (String × List ColumnInfo) → Result (List (String × List ColumnInfo))
  unfolding add_to_table none_error
  by_table [] tables = ok tables
  by_table ((k, none) ∷ rest) tables = err none_error
  by_table ((k, some c) ∷ rest) tables = by_table rest (add_to_table c tables)

  abbrev pub column_ids : List ColumnInfo → List String
  column_ids = map (λ (c : ColumnInfo). c.id)

  -- `column_ids` is read once, before the key columns are appended.
  pub with_keys : List ColumnInfo → List ColumnInfo → List ColumnInfo
  with_keys keys cs = cs ++ select (λ k. not (contains k.id (column_ids cs))) keys

  unfoldable pub complete_table : String × List ColumnInfo → Result (String × List ColumnInfo)
  unfolding with_keys
  complete_table (t, cs) = and_then (repo.key_columns t) (λ keys. ok (t, with_keys keys cs))

  complete_tables : List (String × List ColumnInfo) → Result (List (String × List ColumnInfo))
  unfolding complete_table
  complete_tables [] = ok []
  complete_tables (e ∷ es) =
      and_then (complete_table e) (λ e'. and_then (complete_tables es) (λ es'. ok (e' ∷ es')))

  table_state : List ColumnInfo → Option TableInfo → Result TableState
  unfolding none_error
  table_state cs none = err none_error
  table_state cs (some t) =
      ok (record { name = t.name; role = t.role; description = t.description; columns = cs })

  table_states : List (String × List ColumnInfo) → Result (List TableState)
  unfolding table_state
  table_states [] = ok []
  table_states ((t, cs) ∷ rest) =
      and_then (and_then (repo.table_by_id t) (table_state cs))
        (λ s. and_then (table_states rest) (λ ss. ok (s ∷ ss)))

  unfoldable pub merge_retrieved_info :
      List ColumnInfo
      → List MetricInfo
      → List ValueInfo
      → Result (List TableState × List MetricInfo)
  unfolding merge_columns by_table complete_tables table_states
  merge_retrieved_info columns metrics values = and_then (merge_columns columns metrics values) λ m.
      and_then (by_table m []) λ tables.
        and_then (complete_tables tables)
          λ completed. and_then (table_states completed) λ states. ok (states, metrics)
