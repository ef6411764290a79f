-- ===== src/Query/Filters.antt =====
-- query/app/agent/nodes/filter_table.py and filter_metric.py: the program keeps what the language
-- model has selected, of what it had. The selection is the JSON that the model answered.
pub mod Keys
use incident_desk.Prelude.{
  Bool, List, Option, Result, String, [], and_then, err, false, nat_eq, none, ok, other_error, some,
  string_eq, true, ◌==◌, ◌||◌, ◌∷◌,
}
use incident_desk.Json.Defs.{
  Items, Value, array, dict, get, index, item, no_items, same_value, string,
}
use incident_desk.Json.Text.{has_substring}
use incident_desk.Query.Merge.{ColumnInfo, MetricInfo, TableState}
use incident_desk.Worker.Contracts.{object_eq, source_eq}

-- Whether an item of a list is that text.
in_items : String → Items → Bool
unfolding same_value
in_items s no_items = false
in_items s (item v xs) = same_value (string s) v || in_items s xs

abbrev is_there {ℓ} : {A : Type ℓ} → Option A → Bool
is_there none = false
is_there (some a) = true

-- s in v
pub member : String → Value → Result Bool
unfolding in_items get has_substring
member s (dict fs) = ok (is_there (get s fs))
member s (array xs) = ok (in_items s xs)
member s (string t) = ok (has_substring s t)
member s _ = err (other_error "TypeError")

-- v[s]; a list or a text has no key that is a text
pub item_of : String → Value → Result Value
unfolding index
item_of s (dict fs) = index s (dict fs)
item_of s _ = err (other_error "TypeError")

pub is_key : ColumnInfo → Bool
is_key c = c.role == "primary_key" || c.role == "foreign_key"

-- `wanted or is_key or table is dim_date`, for one column
keeps_column : String → Value → ColumnInfo → Result Bool
unfolding member item_of is_key
keeps_column table selection c = and_then (item_of table selection) λ names.
    and_then (member c.name names) (λ wanted. ok (wanted || is_key c || table == "dim_date"))

abbrev with_if {ℓ} : {A : Type ℓ} → A → Bool → List A → List A
with_if a true rest = a ∷ rest
with_if a false rest = rest

pub filter_columns : String → Value → List ColumnInfo → Result (List ColumnInfo)
unfolding keeps_column
filter_columns table selection [] = ok []
filter_columns table selection (c ∷ cs) =
    and_then (keeps_column table selection c)
      λ kept. and_then (filter_columns table selection cs) (λ rest. ok (with_if c kept rest))

-- The body of the loop: the filtered table, if the model has selected it.
filter_one : Value → TableState → Bool → Result (Option TableState)
unfolding filter_columns
filter_one selection t false = ok none
filter_one selection t true =
    and_then (filter_columns t.name selection t.columns)
      (λ cs. ok (some (record t { columns = cs })))

abbrev with_some {ℓ} : {A : Type ℓ} → Option A → List A → List A
with_some none rest = rest
with_some (some a) rest = a ∷ rest

unfoldable pub filter_table : Value → List TableState → Result (List TableState)
unfolding filter_one member
filter_table selection [] = ok []
filter_table selection (t ∷ ts) = and_then (member t.name selection) λ chosen.
    and_then (filter_one selection t chosen)
      λ kept. and_then (filter_table selection ts) (λ rest. ok (with_some kept rest))

unfoldable pub filter_metric : Value → List MetricInfo → Result (List MetricInfo)
unfolding member
filter_metric selection [] = ok []
filter_metric selection (m ∷ ms) =
    and_then (member m.name selection)
      λ kept. and_then (filter_metric selection ms) (λ rest. ok (with_if m kept rest))
