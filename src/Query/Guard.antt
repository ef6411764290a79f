-- ===== src/Query/Guard.antt =====
-- query/app/core/sql_guard.py: what generated SQL may do. The SQL parser is a library, and what the
-- guard reads of its trees is an interface.
pub mod Admission
use incident_desk.Prelude.{
  Bool, List, Option, Result, String, [], all, contains, err, if◌then◌else◌, ltb, map, nat_eq, none,
  not, ok, some, string_eq, value_error, ℕ, ◌&&◌, ◌==◌, ◌||◌, ◌∷◌,
}
use incident_desk.Worker.Contracts.{object_eq, source_eq}

pub record Table : Type 0 where
  pub catalog : String
  pub db : String
  pub name : String

-- tree.args.get("limit"): `int(limit.expression.name)`, where there is one
pub data Limit : Type 0 where
  no_limit unreadable negative : Limit
  rows : ℕ → Limit

-- sqlglot. `parse` is none where it raises a ParseError; the lists are those that `walk` and `find_all`
-- run through, with `name` or `sql_name` of the functions and `alias_or_name` of the CTEs.
pub record Sqlglot (T : Type 0) : Type 0 where
  pub parse : String → Option (List T)
  pub is_query : T → Bool
  pub modifies : T → Bool
  pub ctes : T → List String
  pub tables : T → List Table
  pub functions : T → List String
  pub reads_variables : T → Bool
  pub limit : T → Limit
  pub with_limit : ℕ → T → T
  pub sql : T → String
  pub lower : String → String

abbrev pub warehouse_tables : List String
warehouse_tables = "fact_order" ∷ "dim_region" ∷ "dim_customer" ∷ "dim_product" ∷ "dim_date" ∷ []

abbrev pub max_rows : ℕ
max_rows = 500

abbrev pub forbidden_functions : List String
forbidden_functions =
    "sleep" ∷ "benchmark" ∷ "load_file" ∷ "get_lock" ∷ "release_lock" ∷ "release_all_locks"
    ∷ "master_pos_wait" ∷ "source_pos_wait" ∷ []

module _ {T : Type 0} (g : Sqlglot T) where
  -- A table of the warehouse, or a CTE of the query.
  pub is_readable : T → Table → Bool
  is_readable tree t =
      t.catalog == ""
      && t.db == ""
      && (contains (g.lower t.name) warehouse_tables
          || contains (g.lower t.name) (map g.lower (g.ctes tree)))

  pub is_harmless : String → Bool
  is_harmless name = not (contains (g.lower name) forbidden_functions)

  -- The query with at most `max_rows` rows.
  pub limited : T → Result T
  limited tree = elim (g.limit tree) [
    | no_limit ↦ ok (g.with_limit max_rows tree)
    | unreadable ↦ err (value_error "LIMIT 必须是整数。")
    | negative ↦ ok (g.with_limit max_rows tree)
    | rows n ↦ if ltb max_rows n then ok (g.with_limit max_rows tree) else ok tree
  ]

  printed : Result T → Result String
  printed (ok tree) = ok (g.sql tree)
  printed (err e) = err e

  guarded : T → Result String
  unfolding is_readable is_harmless limited printed
  guarded tree =
      if not (g.is_query tree)
      then err (value_error "只允许一条 SELECT 查询。")
      else if g.modifies tree
      then err (value_error "查询不能修改数据、写文件或加锁。")
      else if not (all (is_readable tree) (g.tables tree))
      then err (value_error "查询只能访问当前电商数仓的五张业务表。")
      else if not (all is_harmless (g.functions tree))
      then err (value_error "查询包含不允许的函数。")
      else if g.reads_variables tree
      then err (value_error "查询不能访问数据库系统变量。")
      else printed (limited tree)

  one_statement : List T → Result String
  unfolding guarded
  one_statement (tree ∷ []) = guarded tree
  one_statement _ = err (value_error "只允许一条 SELECT 查询。")

  parsed_sql : Option (List T) → Result String
  unfolding one_statement
  parsed_sql none = err (value_error "SQL 无法解析，请明确查询条件后重试。")
  parsed_sql (some trees) = one_statement trees

  unfoldable pub safe_sql : String → Result String
  unfolding parsed_sql
  safe_sql q = parsed_sql (g.parse q)
