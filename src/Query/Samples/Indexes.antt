-- ===== src/Query/Samples/Indexes.antt =====
-- A construction from a small configuration, with vectors that are texts.
use incident_desk.Prelude.{
  List, Result, String, [], err, false, if◌then◌else◌, map, nat_eq, none, ok, other_error, refl,
  some, string_eq, true, ℕ, ◌<>◌, ◌==◌, ◌∷◌, ◌≡◌,
}
use incident_desk.Json.Defs.{string}
use incident_desk.Json.Text.{show}
use incident_desk.Query.Knowledge.{MetaConfig, Outside, Stores, TableConfig, column_texts, onto}
use incident_desk.Query.Knowledge.Build.{
  build_knowledge, entries, point_id, save_column_info, save_values,
}
use incident_desk.Query.Knowledge.Build.Integrity.{IsLinked, build-IsLinked}
use incident_desk.Query.Knowledge.Build.Search.{column_points_from, save_column_info_points}
use incident_desk.Query.Knowledge.Build.Synced.{IsSynced, save_values-IsSynced}
use incident_desk.Query.Merge.{ColumnInfo}
use incident_desk.Worker.Contracts.{object_eq, source_eq}

abbrev sample_tables : List TableConfig
sample_tables =
    record {
      name = "dim_region";
      role = "dim";
      description = "regions";
      columns =
          record {
            name = "region_name";
            role = "dimension";
            description = "region";
            alias = "area" ∷ [];
            sync = true;
          }
          ∷ record {
            name = "region_id";
            role = "primary_key";
            description = "key";
            alias = [];
            sync = false;
          }
          ∷ [];
    }
    ∷ []

abbrev sample_config : MetaConfig
sample_config = record {
  tables = sample_tables;
  metrics =
      record {
        name = "GMV";
        description = "sales";
        relevant_columns = "fact_order.order_amount" ∷ [];
        alias = "turnover" ∷ [];
      }
      ∷ [];
}

-- The third request to a store fails.
abbrev failing_third : ℕ → Result (Unit {0})
failing_third n = if n == 2 then err (other_error "ConnectionError") else ok tt

abbrev sample_outside : (ℕ → Result (Unit {0})) → Outside String
sample_outside accepts = record {
  column_types = λ t. ok (("region_name", "varchar") ∷ ("region_id", "int") ∷ []);
  column_values = λ t c limit. ok (string "North" ∷ []);
  embed = λ texts. ok (map (λ t. t <> "*") texts);
  uuid = λ n. show n;
  format = λ v. "v";
  accepts = accepts;
}

abbrev no_stores : Stores String
no_stores = record {
  tables = [];
  columns = [];
  metrics = [];
  column_metrics = [];
  column_points = none;
  metric_points = none;
  values = none;
  drawn = 0;
  requests = 0;
  batches = [];
}

build-IsLinked_example :
    IsLinked (build_knowledge (sample_outside failing_third) sample_config no_stores).1
build-IsLinked_example =
    build-IsLinked (sample_outside failing_third) sample_config no_stores
      (record { of_table = tt; of_metric = tt })

abbrev region_name : ColumnInfo
region_name = record {
  id = "dim_region.region_name";
  name = "region_name";
  type = "varchar";
  role = "dimension";
  examples = [];
  description = "region";
  alias = "area" ∷ [];
  table_id = "dim_region";
}

save_values-IsSynced_example :
    IsSynced
      (sample_outside (λ n. ok tt))
      sample_tables
      (save_values (sample_outside (λ n. ok tt)) sample_tables (region_name ∷ []) no_stores).1
save_values-IsSynced_example =
    save_values-IsSynced (sample_outside (λ n. ok tt)) sample_tables (region_name ∷ []) no_stores tt

save_column_info_points_example :
    (save_column_info (sample_outside (λ n. ok tt)) (region_name ∷ []) no_stores).1.column_points
    ≡ onto
        (point_id (sample_outside (λ n. ok tt)))
        (column_points_from (sample_outside (λ n. ok tt)) (λ t. t <> "*") 0 (region_name ∷ []))
        (some [])
unfolding save_column_info entries column_texts show
save_column_info_points_example =
    save_column_info_points (sample_outside (λ n. ok tt)) (λ t. t <> "*") (region_name ∷ [])
      no_stores (λ xs h. refl) refl
