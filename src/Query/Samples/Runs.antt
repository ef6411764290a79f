-- ===== src/Query/Samples/Runs.antt =====
-- Runs of the query agent, with checks that accept one query and a model that writes it.
use incident_desk.Prelude.{String, [], class_name, ok, ℕ, ◌<>◌, ◌∷◌, ◌≡◌}
use incident_desk.Json.Defs.{array, dict, int, no_fields, no_items}
use incident_desk.Query.Agent.{Services, SqlChecks, Trace}
use incident_desk.Query.Agent.Graph.{answer_query, ask_graph}
use incident_desk.Query.Agent.Graph.Checked.{OnlyAllowed, answer_query-OnlyAllowed}
use incident_desk.Query.Agent.Graph.Course.{ask_graph-straight, straight}
use incident_desk.Query.Agent.Graph.Final.{IsFinal, answer_query-IsFinal}
use incident_desk.Query.Samples.{metadata, whole_scores}

abbrev plain_checks : SqlChecks
plain_checks = record {
  safe = λ sql. ok (sql <> " LIMIT 500");
  relations = λ sql. ok tt;
  metrics = λ question sql. ok tt;
  period = λ question sql. ok tt;
}

abbrev pub plain_services : Services String ℕ
plain_services = record {
  tags = λ q. ok ("orders" ∷ []);
  extend_columns = λ q. ok (array no_items);
  extend_metrics = λ q. ok (array no_items);
  extend_values = λ q. ok (array no_items);
  embed = λ terms. ok terms;
  search_columns = λ v. ok [];
  search_metrics = λ v. ok [];
  search_values = λ v. ok [];
  scores = whole_scores;
  repository = metadata;
  select_tables = λ q tables. ok (dict no_fields);
  select_metrics = λ q metrics. ok (array no_items);
  today = "2026-01-02";
  weekday = "Friday";
  month = 1;
  db = ok (record { dialect = "mysql"; version = "8" });
  write_sql = λ s. ok "SELECT 1";
  fix_sql = λ s sql error. ok sql;
  explain = λ n sql. ok tt;
  limit_time = λ n. ok tt;
  execute = λ n sql. ok (int 1 ∷ []);
  message = λ e. class_name e;
  turns = λ t. 0 ∷ 1 ∷ 2 ∷ 1 ∷ 0 ∷ [];
}

abbrev fresh_trace : Trace
fresh_trace = record { events = []; calls = [] }

answer_query-OnlyAllowed_example :
    OnlyAllowed plain_checks "How many orders?"
      (answer_query plain_services plain_checks "How many orders?" fresh_trace)
answer_query-OnlyAllowed_example =
    answer_query-OnlyAllowed plain_services plain_checks "How many orders?" fresh_trace tt

answer_query-IsFinal_example :
    IsFinal (answer_query plain_services plain_checks "How many orders?" fresh_trace).events
answer_query-IsFinal_example =
    answer_query-IsFinal plain_services plain_checks "How many orders?" fresh_trace

ask_graph-straight_example :
    ask_graph plain_services plain_checks "How many orders?" fresh_trace
    ≡ straight plain_services plain_checks "How many orders?" fresh_trace
ask_graph-straight_example =
    ask_graph-straight plain_services plain_checks "How many orders?" fresh_trace
