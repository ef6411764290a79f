-- ===== src/Query/Sql.antt =====
-- query/app/core/relations.py, query/app/core/metrics.py and query/app/core/periods.py: what generated
-- SQL must keep of the warehouse's keys, of a metric's definition and of the period asked for. The trees of the SQL parser are an interface.
pub mod Relations
pub mod Metrics
pub mod Calendar
pub mod Periods
use incident_desk.Prelude.{
  Bool, Exc, List, Option, Result, String, [], and_then, err, false, if◌then◌else◌, map, nat_eq,
  none, not, ok, select, some, string_eq, true, value_error, ℕ, ◌<>◌, ◌==◌, ◌||◌, ◌∷◌,
}
use incident_desk.Worker.Contracts.{object_eq, source_eq}

-- sqlglot. `parse_one` raises a ParseError; `walk` lists the nodes that `find_all` runs through, `arg`
-- is what an argument of a node holds, and `args` where that is a list. `literal` is
-- the text of a literal and `sql` that of a node in MySQL. `nesting` is the height of a tree.
pub record SqlTree (T : Type 0) : Type 0 where
  pub parse_one : String → Result T
  pub walk : T → List T
  pub this : T → Option T
  pub expression : T → Option T
  pub arg : String → T → Option T
  pub args : String → T → List T
  pub name : T → String
  pub table : T → String
  pub alias : T → String
  pub alias_or_name : T → String
  pub is_select : T → Bool
  pub is_table : T → Bool
  pub is_column : T → Bool
  pub is_eq : T → Bool
  pub is_alias : T → Bool
  pub is_avg : T → Bool
  pub is_sum : T → Bool
  pub is_count : T → Bool
  pub is_div : T → Bool
  pub is_paren : T → Bool
  pub is_cast : T → Bool
  pub is_nullif : T → Bool
  pub is_star : T → Bool
  pub is_distinct : T → Bool
  pub is_where : T → Bool
  pub is_predicate : T → Bool
  pub is_in : T → Bool
  pub is_between : T → Bool
  pub is_gte : T → Bool
  pub is_lte : T → Bool
  pub is_lt : T → Bool
  pub is_month : T → Bool
  pub is_literal : T → Bool
  pub literal : T → String
  pub sql : T → String
  pub nesting : T → ℕ

-- for x in xs: check(x)
pub for_each : {A : Type 0} → (A → Result (Unit {0})) → List A → Result (Unit {0})
for_each check [] = ok tt
for_each check (x ∷ xs) = and_then (check x) (λ _. for_each check xs)

abbrev holds : {A : Type 0} → (A → Bool) → Option A → Bool
holds p none = false
holds p (some a) = p a

-- KEYS
pub key_of : String → Option String
key_of t =
    if t == "dim_region"
    then some "region_id"
    else if t == "dim_customer"
    then some "customer_id"
    else if t == "dim_product"
    then some "product_id"
    else if t == "dim_date"
    then some "date_id"
    else none

abbrev key_of_table : Option String → Option String
key_of_table none = none
key_of_table (some t) = key_of t

abbrev is_fact : Option String → Bool
is_fact none = false
is_fact (some t) = t == "fact_order"

-- name in KEYS
abbrev is_known : Option String → Bool
is_known none = false
is_known (some k) = true

abbrev or_else : Option String → Option String → Option String
or_else none o = o
or_else (some k) o = some k

-- The key by which fact_order and a dimension are joined, if the two tables are that.
pub shared_key : Option String → Option String → Option String
unfolding key_of
shared_key ta tb =
    or_else (if is_fact ta then key_of_table tb else none)
      (if is_fact tb then key_of_table ta else none)

module _ {T : Type 0} (g : SqlTree T) where
  pub find_all : (T → Bool) → T → List T
  find_all p t = select p (g.walk t)

  -- aliases.get(k): of two tables with one alias the later counts
  alias_in : List T → String → Option String → Option String
  alias_in [] k found = found
  alias_in (t ∷ ts) k found =
      alias_in ts k (if g.alias_or_name t == k then some (g.name t) else found)

  pub table_alias : T → T → Option String
  unfolding find_all alias_in
  table_alias sel column = alias_in (find_all g.is_table sel) (g.table column) none

  wrong_key : String → Exc
  wrong_key key = value_error ("关联错误：fact_order 与维度表必须使用 " <> key <> " = " <> key <> "，不能用名称代替 ID。")

  by_key : Option String → T → T → Result (Unit {0})
  unfolding wrong_key
  by_key none a b = ok tt
  by_key (some key) a b =
      if not (g.name a == key) || not (g.name b == key) then err (wrong_key key) else ok tt

  check_columns : T → T → T → Result (Unit {0})
  unfolding by_key table_alias shared_key
  check_columns sel a b =
      if not (g.is_column a) || not (g.is_column b)
      then ok tt
      else by_key (shared_key (table_alias sel a) (table_alias sel b)) a b

  check_sides : T → Option T → Option T → Result (Unit {0})
  unfolding check_columns
  check_sides sel (some a) (some b) = check_columns sel a b
  check_sides sel _ _ = ok tt

  -- The body of the loop over the equations of ON.
  check_eq : T → T → Result (Unit {0})
  unfolding check_sides
  check_eq sel q = check_sides sel (g.this q) (g.expression q)

  names_only : List String → Option String → Bool
  names_only (x ∷ []) (some k) = x == k
  names_only xs _ = false

  -- USING names the key of the joined dimension.
  uses_key : T → Option T → Bool
  unfolding key_of names_only
  uses_key j none = true
  uses_key j (some table) =
      not (g.is_table table)
      || not (is_known (key_of (g.name table)))
      || names_only (map g.name (g.args "using" j)) (key_of (g.name table))

  pub is_empty_list : List T → Bool
  is_empty_list [] = true
  is_empty_list (x ∷ xs) = false

  check_using : T → Result (Unit {0})
  unfolding uses_key is_empty_list
  check_using j =
      if is_empty_list (g.args "using" j)
      then err (value_error "业务表关联必须使用显式外键，不能使用笛卡尔积。")
      else if uses_key j (g.this j)
      then ok tt
      else err (value_error "维度表必须按对应 ID 外键关联。")

  check_on : T → T → Option T → Result (Unit {0})
  unfolding check_using for_each check_eq find_all
  check_on sel j none = check_using j
  check_on sel j (some on) = for_each (check_eq sel) (find_all g.is_eq on)

  -- The body of the loop over the joins of a SELECT.
  check_join : T → T → Result (Unit {0})
  unfolding check_on
  check_join sel j = check_on sel j (g.arg "on" j)

  check_select : T → Result (Unit {0})
  unfolding check_join for_each
  check_select sel = for_each (check_join sel) (g.args "joins" sel)

  unfoldable pub validate_relations : String → Result (Unit {0})
  unfolding check_select for_each find_all
  validate_relations sql =
      and_then (g.parse_one sql) (λ tree. for_each check_select (find_all g.is_select tree))
