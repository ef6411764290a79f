-- ===== src/Query/Samples.antt =====
-- The query service at concrete inputs.
-- A parser that knows one query, whose tree is its limit.
pub mod Indexes
pub mod Runs
pub mod Joins
pub mod Spans
pub mod Requests
use incident_desk.Prelude.{
  List, NoRepeats, String, [], any, contains, false, ltb, map, nat_eq, none, ok, refl, some,
  string_eq, true, ℕ, ◌+◌, ◌/◌, ◌<>◌, ◌∷◌, ◌≡◌,
}
use incident_desk.Json.Defs.{
  Value, array, dict, field, get, index, item, no_fields, no_items, same_value, string,
}
use incident_desk.Query.Filters.{filter_table}
use incident_desk.Query.Filters.Keys.{IsCut, Part, filter_table-Part}
use incident_desk.Query.Guard.{Limit, Sqlglot, no_limit, rows, safe_sql}
use incident_desk.Query.Guard.Admission.{Admits, LimitLaws, safe_sql-Admits}
use incident_desk.Query.Merge.{
  ColumnInfo, Columns, MetricInfo, Repository, TableState, ValueInfo, complete_table, merge_columns,
}
use incident_desk.Query.Merge.Coverage.{IsMerged, merge_columns-IsMerged}
use incident_desk.Query.Merge.Joins.{IsComplete, complete_table-IsComplete}
use incident_desk.Query.Retrieval.{Scores, fuse_ranked, retrieval_terms}
use incident_desk.Query.Retrieval.Ranking.{fuse_ranked_ids}
use incident_desk.Query.Retrieval.Terms.{Expands, retrieval_terms_expand}
use incident_desk.Query.Routing.{
  Decision, ModelDecision, RouteRequest, answer, clarification, dangles, no_context_text,
  route_question, to_context, to_warehouse,
}
use incident_desk.Query.Routing.Decisions.{IsMeaningful, route_question-IsMeaningful}
use incident_desk.Worker.Contracts.{object_eq, source_eq}

abbrev pub one_query : Sqlglot Limit
one_query = record {
  parse = λ q. some (no_limit ∷ []);
  is_query = λ t. true;
  modifies = λ t. false;
  ctes = λ t. [];
  tables = λ t. record { catalog = ""; db = ""; name = "fact_order" } ∷ [];
  functions = λ t. "count" ∷ [];
  reads_variables = λ t. false;
  limit = λ t. t;
  with_limit = λ n t. rows n;
  sql = λ t. "SELECT COUNT(*) FROM fact_order LIMIT 500";
  lower = λ s. s;
}

pub one_query-LimitLaws : LimitLaws one_query
one_query-LimitLaws = record {
  sets = λ n t. refl;
  keeps_tables = λ n t. refl;
  keeps_ctes = λ n t. refl;
  keeps_functions = λ n t. refl;
  keeps_query = λ n t. refl;
  keeps_modifies = λ n t. refl;
  keeps_variables = λ n t. refl;
}

safe_sql-Admits_example :
    Admits one_query "select count(*) from fact_order" "SELECT COUNT(*) FROM fact_order LIMIT 500"
unfolding safe_sql
safe_sql-Admits_example =
    safe_sql-Admits one_query one_query-LimitLaws "select count(*) from fact_order"
      "SELECT COUNT(*) FROM fact_order LIMIT 500" refl

retrieval_terms_expand_example :
    Expands " 销售额 "
      ("GMV" ∷ [])
      (array (item (string "gmv") (item (string "GMV") no_items)))
      ("销售额" ∷ "gmv" ∷ "GMV" ∷ [])
unfolding retrieval_terms
retrieval_terms_expand_example =
    retrieval_terms_expand " 销售额 " ("GMV" ∷ [])
      (array (item (string "gmv") (item (string "GMV") no_items))) ("销售额" ∷ "gmv" ∷ "GMV" ∷ []) refl

-- Scores in whole numbers: the share of a rank falls with it.
abbrev pub whole_scores : Scores ℕ
whole_scores = record {
  zero_score = 0;
  plus = λ a b. a + b;
  share = λ n. 10000 / n;
  above = λ a b. ltb b a;
}

abbrev hits : List (List String)
hits = ("a" ∷ "b" ∷ "a" ∷ []) ∷ ("b" ∷ "c" ∷ []) ∷ []

fused_hits : fuse_ranked (λ s. s) whole_scores hits ≡ "b" ∷ "a" ∷ "c" ∷ []
unfolding fuse_ranked
fused_hits = refl

fuse_ranked_ids_example :
    NoRepeats (map (λ s. s) (fuse_ranked (λ s. s) whole_scores hits))
    × ((a : String)
        → contains a (map (λ s. s) (fuse_ranked (λ s. s) whole_scores hits))
          ≡ any (λ l. contains a (map (λ s. s) l)) hits)
fuse_ranked_ids_example = fuse_ranked_ids (λ s. s) whole_scores hits

abbrev follow_up : RouteRequest
follow_up = record { text = "那华东呢"; has_history = false; has_query_anchor = none }

abbrev guessed : ModelDecision
guessed = record { kind = to_warehouse; content = "华东地区销售额"; reset_context = false }

abbrev greeted : ModelDecision
greeted = record { kind = to_context; content = "好的。"; reset_context = true }

abbrev context_asked : Decision
context_asked = record {
  kind = clarification;
  clarification = no_context_text;
  answer = "";
  question = "";
  reset_context = false;
}

abbrev acknowledged : Decision
acknowledged = record {
  kind = answer;
  clarification = "";
  answer = "好的。";
  question = "";
  reset_context = true;
}

-- A follow-up without anything to follow runs no query.
context_asked_runs : route_question follow_up (ok guessed) ≡ ok context_asked
unfolding route_question dangles
context_asked_runs = refl

route_question-IsMeaningful_example : IsMeaningful acknowledged
unfolding route_question
route_question-IsMeaningful_example =
    route_question-IsMeaningful follow_up (ok greeted) acknowledged refl

abbrev pub column : String → String → ColumnInfo
column name role = record {
  id = "fact_order." <> name;
  name = name;
  type = "int";
  role = role;
  examples = [];
  description = "";
  alias = [];
  table_id = "fact_order";
}

abbrev pub metadata : Repository
metadata = record {
  column_by_id = λ k. ok (some (column "order_amount" "measure"));
  table_by_id = λ t. ok (some (record { id = t; name = t; role = "fact"; description = "" }));
  key_columns = λ t. ok (column "order_id" "primary_key" ∷ []);
}

abbrev gmv : MetricInfo
gmv = record {
  id = "gmv";
  name = "GMV";
  description = "";
  relevant_columns = "fact_order.order_amount" ∷ [];
  alias = [];
}

abbrev paid : ValueInfo
paid = record {
  id = "fact_order.status.paid";
  value = string "paid";
  column_id = "fact_order.status";
}

abbrev merged : Columns
merged =
    (
      "fact_order.status",
      some (record (column "status" "dimension") { examples = string "paid" ∷ [] }),
    )
    ∷ ("fact_order.order_amount", some (column "order_amount" "measure"))
    ∷ []

merge_columns-IsMerged_example :
    IsMerged metadata (column "status" "dimension" ∷ []) (gmv ∷ []) (paid ∷ []) merged
unfolding merge_columns same_value
merge_columns-IsMerged_example =
    merge_columns-IsMerged metadata (column "status" "dimension" ∷ []) (gmv ∷ []) (paid ∷ []) merged
      refl

abbrev orders : TableState
orders = record {
  name = "fact_order";
  role = "fact";
  description = "";
  columns =
      column "order_id" "primary_key"
      ∷ column "status" "dimension"
      ∷ column "order_amount" "measure"
      ∷ [];
}

abbrev regions : TableState
regions = record { name = "dim_region"; role = "dimension"; description = ""; columns = [] }

abbrev model_selection : Value
model_selection =
    dict (field "fact_order" (array (item (string "order_amount") no_items)) no_fields)

abbrev orders_cut : TableState
orders_cut = record orders {
  columns = column "order_id" "primary_key" ∷ column "order_amount" "measure" ∷ [];
}

filter_table-Part_example : Part IsCut (orders ∷ regions ∷ []) (orders_cut ∷ [])
unfolding filter_table get index same_value
filter_table-Part_example =
    filter_table-Part model_selection (orders ∷ regions ∷ []) (orders_cut ∷ []) refl

complete_table-IsComplete_example :
    IsComplete metadata "fact_order"
      (column "status" "dimension" ∷ [])
      (column "status" "dimension" ∷ column "order_id" "primary_key" ∷ [])
unfolding complete_table
complete_table-IsComplete_example =
    complete_table-IsComplete metadata "fact_order" "fact_order" (column "status" "dimension" ∷ [])
      (column "status" "dimension" ∷ column "order_id" "primary_key" ∷ []) refl
