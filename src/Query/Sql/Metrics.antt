-- ===== src/Query/Sql/Metrics.antt =====
-- query/app/core/metrics.py: the definition of the average order value.
pub mod Average
use Prim.Native.Char.{code}
use incident_desk.Prelude.{
  Bool, Exc, List, Option, Result, String, [], and_then, any, err, false, if◌then◌else◌, map,
  nat_eq, none, not, ok, other_error, select, some, string_eq, suc, true, value_error, zero, ℕ,
  ◌&&◌, ◌==◌, ◌||◌, ◌∷◌,
}
use incident_desk.Json.Text.{rest_after}
use incident_desk.Query.Routing.{mentions_any, starts_with}
use incident_desk.Query.Sql.{SqlTree, find_all}
use incident_desk.Worker.Contracts.{object_eq, source_eq}

begins_with_word : (ℕ → Bool) → String → Bool
begins_with_word is_word String.[] = false
begins_with_word is_word (String.◌∷◌ c s) = is_word (code c)

-- \baov\b, in any case; `inside` says that the character before is one of a word.
mentions_aov : (ℕ → Bool) → Bool → String → Bool
unfolding rest_after begins_with_word
mentions_aov is_word inside String.[] = false
mentions_aov is_word inside (String.◌∷◌ c s) =
    not inside
      && starts_with "AOV" (String.◌∷◌ c s)
      && not (begins_with_word is_word (rest_after 2 s))
    || mentions_aov is_word (is_word (code c)) s

-- AOV.search(text); `is_word` is \w on code points.
unfoldable pub mentions_average : (ℕ → Bool) → String → Bool
unfolding mentions_aov
mentions_average is_word text =
    mentions_any ("客单价" ∷ "平均订单金额" ∷ "AVERAGE_ORDER_VALUE" ∷ "AVG_ORDER_VALUE" ∷ []) text
    || mentions_aov is_word false text

module _ {T : Type 0} (g : SqlTree T) where
  abbrev pub is_wrapper : T → Bool
  is_wrapper t = g.is_paren t || g.is_cast t

  abbrev pub is_guard : T → Bool
  is_guard t = g.is_paren t || g.is_nullif t || g.is_cast t

  -- while isinstance(x, ...): x = x.this
  pub peel : (T → Bool) → ℕ → Option T → Option T
  peel p zero o = o
  peel p (suc fuel) none = none
  peel p (suc fuel) (some t) = let more = peel p fuel (g.this t) in if p t then more else some t

  abbrev pub height : Option T → ℕ
  height none = 0
  height (some t) = suc (g.nesting t)

  -- The loop, with as much fuel as the tree is high.
  pub peeled : (T → Bool) → Option T → Option T
  unfolding peel
  peeled p o = peel p (height o) o

  abbrev pub is_order_column : String → Option T → Bool
  is_order_column k none = false
  is_order_column k (some t) = g.is_column t && g.name t == k

  pub is_order_list : List T → Bool
  is_order_list (x ∷ []) = g.is_column x && g.name x == "order_id"
  is_order_list _ = false

  -- The argument of COUNT is `*`, the order's id, or the distinct ids.
  pub counts_orders : Option T → Bool
  unfolding is_order_list
  counts_orders none = false
  counts_orders (some t) =
      g.is_star t
      || g.is_column t && g.name t == "order_id"
      || g.is_distinct t && is_order_list (g.args "expressions" t)

  pub sums_amounts : Option T → Bool
  sums_amounts none = false
  sums_amounts (some t) = g.is_sum t && is_order_column "order_amount" (g.this t)

  pub counts : Option T → Bool
  unfolding counts_orders
  counts none = false
  counts (some t) = g.is_count t && counts_orders (g.this t)

  pub is_quotient : T → Bool
  unfolding peeled sums_amounts counts
  is_quotient n =
      sums_amounts (peeled is_wrapper (g.this n)) && counts (peeled is_guard (g.expression n))

  -- _valid_aov
  pub valid_average : T → Bool
  unfolding is_quotient find_all
  valid_average tree =
      any (λ n. is_order_column "order_amount" (g.this n)) (find_all g g.is_avg tree)
      || any is_quotient (find_all g g.is_div tree)

  -- all(_valid_aov(t) for t in targets); a target that is None has no find_all
  all_valid : List (Option T) → Result Bool
  unfolding valid_average
  all_valid [] = ok true
  all_valid (none ∷ ts) = err (other_error "AttributeError")
  all_valid (some t ∷ ts) = let rest = all_valid ts in if valid_average t then rest else ok false

  pub named_targets : (ℕ → Bool) → T → List (Option T)
  unfolding find_all
  named_targets is_word tree =
      map g.this (select (λ n. mentions_average is_word (g.alias n)) (find_all g g.is_alias tree))

  -- targets or [tree]
  pub targets_or : T → List (Option T) → List (Option T)
  targets_or tree [] = some tree ∷ []
  targets_or tree (t ∷ ts) = t ∷ ts

  wrong_average : Exc
  wrong_average =
      value_error
        "客单价必须使用 AVG(order_amount) 或 SUM(order_amount)/COUNT(DISTINCT order_id)，不能用日期数或商品数量作分母。"

  unfoldable pub validate_metrics : (ℕ → Bool) → String → String → Result (Unit {0})
  unfolding all_valid named_targets targets_or wrong_average
  validate_metrics is_word question sql =
      if not (mentions_average is_word question)
      then ok tt
      else and_then (g.parse_one sql) λ tree.
        and_then (all_valid (targets_or tree (named_targets is_word tree)))
          λ valid. if valid then ok tt else err wrong_average
