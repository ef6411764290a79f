-- ===== src/Query/Samples/Joins.antt =====
-- Two small trees: a join of fact_order and dim_region, and an average that is named aov. A node is
-- its name.
use incident_desk.Prelude.{
  All, Bool, List, Option, Result, String, [], false, if◌then◌else◌, ltb, nat_eq, none, ok, refl,
  some, string_eq, ℕ, ◌&&◌, ◌==◌, ◌||◌, ◌↔◌, ◌∷◌, ◌≡◌,
}
use incident_desk.Query.Routing.{mentions_any, starts_with}
use incident_desk.Query.Sql.{SqlTree, find_all, validate_relations}
use incident_desk.Query.Sql.Metrics.{mentions_average, named_targets, targets_or, validate_metrics}
use incident_desk.Query.Sql.Metrics.Average.{IsAverage, validate_metrics-IsAverage}
use incident_desk.Query.Sql.Relations.{IsKeyed, validate_relations_iff}
use incident_desk.Worker.Contracts.{object_eq, source_eq}

abbrev child_of : String → Option String
child_of n =
    if n == "on"
    then some "left"
    else if n == "named"
    then some "avg"
    else if n == "avg"
    then some "amount"
    else none

abbrev name_of : String → String
name_of n =
    if n == "fact"
    then "fact_order"
    else if n == "dim"
    then "dim_region"
    else if n == "amount"
    then "order_amount"
    else "region_id"

abbrev nodes_of : String → List String
nodes_of n =
    if n == "select"
    then "select" ∷ "fact" ∷ "dim" ∷ "on" ∷ []
    else if n == "root"
    then "root" ∷ "named" ∷ "avg" ∷ []
    else n ∷ []

abbrev one_if : Bool → String → List String
one_if b n = if b then n ∷ [] else []

abbrev pub toy : SqlTree String
toy = record {
  parse_one = λ sql. ok sql;
  walk = nodes_of;
  this = child_of;
  expression = λ n. if n == "on" then some "right" else none;
  arg = λ k n. if n == "join" && k == "on" then some "on" else none;
  args = λ k n. one_if (n == "select" && k == "joins") "join";
  name = name_of;
  table = λ n. if n == "left" then "f" else "r";
  alias = λ n. if n == "named" then "aov" else "";
  alias_or_name = λ n. if n == "fact" then "f" else "r";
  is_select = λ n. n == "select";
  is_table = λ n. n == "fact" || n == "dim";
  is_column = λ n. n == "left" || n == "right" || n == "amount";
  is_eq = λ n. n == "on";
  is_alias = λ n. n == "named";
  is_avg = λ n. n == "avg";
  is_sum = λ n. false;
  is_count = λ n. false;
  is_div = λ n. false;
  is_paren = λ n. false;
  is_cast = λ n. false;
  is_nullif = λ n. false;
  is_star = λ n. false;
  is_distinct = λ n. false;
  is_where = λ n. false;
  is_predicate = λ n. false;
  is_in = λ n. false;
  is_between = λ n. false;
  is_gte = λ n. false;
  is_lte = λ n. false;
  is_lt = λ n. false;
  is_month = λ n. false;
  is_literal = λ n. false;
  literal = λ n. n;
  sql = λ n. n;
  nesting = λ n. if n == "root" then 3 else if n == "named" then 2 else if n == "avg" then 1 else 0;
}

validate_relations_iff_example : (validate_relations toy "select" ≡ ok tt) ↔ (
    (tree : String) × (◌≡◌ {A = Result String} (ok "select") (ok tree))
    × All (IsKeyed toy) (find_all toy (λ n. n == "select") tree))
validate_relations_iff_example = validate_relations_iff toy "select"

-- The join is accepted.
join_accepted : validate_relations toy "select" ≡ ok tt
unfolding validate_relations
join_accepted = refl

abbrev pub is_letter : ℕ → Bool
is_letter n = ltb 96 n && ltb n 123

validate_metrics-IsAverage_example :
    (tree : String) × (◌≡◌ {A = Result String} (ok "root") (ok tree))
    × All (IsAverage toy) (targets_or toy tree (named_targets toy is_letter tree))
unfolding validate_metrics mentions_average mentions_any starts_with
validate_metrics-IsAverage_example =
    validate_metrics-IsAverage toy is_letter "the aov?" "root" refl refl
