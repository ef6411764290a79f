-- ===== src/Query/Sql/Metrics/Average.antt =====
-- What an accepted average order value is computed from, described without the loops.
use incident_desk.Prelude.{
  All, AnyOf, Bool, Bool-cases, List, Option, Option-cases, Result-cases, String, [], any, arith,
  false, inl, inr, none, ok, refl, some, suc, true, zero, ℕ, ◌&&◌, ◌<◌, ◌∷◌, ◌≡◌, ◌≤◌, ◌⊎◌,
}
use incident_desk.Query.Sql.{SqlTree, find_all}
use incident_desk.Query.Sql.Metrics.{
  all_valid, counts, counts_orders, height, is_guard, is_order_column, is_quotient, is_wrapper,
  mentions_average, named_targets, peel, peeled, sums_amounts, targets_or, valid_average,
  validate_metrics, wrong_average,
}

module _ {T : Type 0} (g : SqlTree T) where
  -- Zero or more nodes of a kind are taken off.
  pub data Peels (p : T → Bool) : Option T → Option T → Type 0 where
    stops : {o : Option T} → Peels p o o
    takes :
        {t : T} {o o' : Option T} → p t ≡ true → g.this t ≡ o → Peels p o o' → Peels p (some t) o'

  peel-Peels : (p : T → Bool) (fuel : ℕ) (o : Option T) → Peels p o (peel g p fuel o)
  unfolding peel
  peel-Peels p zero o = stops
  peel-Peels p (suc fuel) none = stops
  peel-Peels p (suc fuel) (some t) = elim (Bool-cases (p t)) [
    | inl e ↦ rw e (takes e refl (peel-Peels p fuel (g.this t)))
    | inr e ↦ rw e stops
  ]

  -- The parser's trees are finite: the `this` of a node is less high.
  abbrev pub IsFinite : Type 0
  IsFinite = (t u : T) → g.this t ≡ some u → g.nesting u < g.nesting t

  abbrev pub IsNot : (T → Bool) → Option T → Type 0
  IsNot p none = Unit
  IsNot p (some t) = p t ≡ false

  peel-ends :
      (p : T → Bool) (fuel : ℕ) (o : Option T)
      → IsFinite
      → height g o ≤ fuel
      → IsNot p (peel g p fuel o)
  unfolding peel
  peel-ends p zero none f h = tt
  peel-ends p zero (some t) f h = absurd (omega arith)
  peel-ends p (suc fuel) none f h = tt
  peel-ends p (suc fuel) (some t) f h = elim (Bool-cases (p t)) [
    | inr e ↦ rw e e
    | inl e ↦ rw e (
        peel-ends p fuel (g.this t) f (elim (Option-cases (g.this t)) [
          | inl n ↦ rw n (omega arith)
          | inr (u, s) ↦ rw s (omega (arith, f t u s))
        ]))
  ]

  -- The loops end: what is left is no node of the kinds that they take off.
  pub peeled_ends : (p : T → Bool) (o : Option T) → IsFinite → IsNot p (peeled g p o)
  unfolding peeled
  peeled_ends p o f = peel-ends p (height g o) o f (omega arith)

  -- A sum of order amounts divided by a number of orders.
  pub record IsQuotient (n : T) : Type 0 where
    pub left : T
    pub right : T
    pub numerator : Peels (is_wrapper g) (g.this n) (some left)
    pub denominator : Peels (is_guard g) (g.expression n) (some right)
    pub sums : g.is_sum left ≡ true
    pub amounts : is_order_column g "order_amount" (g.this left) ≡ true
    pub counted : g.is_count right ≡ true
    pub orders : counts_orders g (g.this right) ≡ true

  -- Somewhere in the tree, the average of the amounts, or such a quotient.
  abbrev pub HasAverage : T → Type 0
  HasAverage t =
      (any (λ n. is_order_column g "order_amount" (g.this n)) (find_all g g.is_avg t) ≡ true)
      ⊎ AnyOf IsQuotient (find_all g g.is_div t)

  abbrev pub IsAverage : Option T → Type 0
  IsAverage none = ⊥
  IsAverage (some t) = HasAverage t

  peeled-IsQuotient :
      (n : T) (l r : Option T)
      → Peels (is_wrapper g) (g.this n) l
      → Peels (is_guard g) (g.expression n) r
      → (sums_amounts g l && counts g r) ≡ true
      → IsQuotient n
  unfolding sums_amounts counts
  peeled-IsQuotient n none r p q h = cc
  peeled-IsQuotient n (some l) none p q h = absurd (ground arith)
  peeled-IsQuotient n (some l) (some r) p q h = record {
    left = l;
    right = r;
    numerator = p;
    denominator = q;
    sums = ground arith;
    amounts = ground arith;
    counted = ground arith;
    orders = ground arith;
  }

  is_quotient-IsQuotient : (n : T) → is_quotient g n ≡ true → IsQuotient n
  unfolding is_quotient peeled
  is_quotient-IsQuotient n h =
      peeled-IsQuotient n (peeled g (is_wrapper g) (g.this n))
        (peeled g (is_guard g) (g.expression n))
        (peel-Peels (is_wrapper g) (height g (g.this n)) (g.this n))
        (peel-Peels (is_guard g) (height g (g.expression n)) (g.expression n)) h

  any-AnyOf : (ns : List T) → any (is_quotient g) ns ≡ true → AnyOf IsQuotient ns
  any-AnyOf [] h = cc
  any-AnyOf (n ∷ ns) h = elim (Bool-cases (is_quotient g n)) [
    | inl e ↦ inl (is_quotient-IsQuotient n e)
    | inr e ↦ inr (any-AnyOf ns (ground arith))
  ]

  valid_average-HasAverage : (t : T) → valid_average g t ≡ true → HasAverage t
  unfolding valid_average
  valid_average-HasAverage t h =
      elim (Bool-cases
        (any (λ n. is_order_column g "order_amount" (g.this n)) (find_all g g.is_avg t))) [
          | inl e ↦ inl e
          | inr e ↦ inr (any-AnyOf (find_all g g.is_div t) (ground arith))
        ]

  all_valid-IsAverage : (ts : List (Option T)) → all_valid g ts ≡ ok true → All IsAverage ts
  unfolding all_valid
  all_valid-IsAverage [] h = tt
  all_valid-IsAverage (none ∷ ts) h = cc
  all_valid-IsAverage (some t ∷ ts) h = elim (Bool-cases (valid_average g t)) [
    | inl e ↦ (valid_average-HasAverage t e, all_valid-IsAverage ts (rw e at h))
    | inr e ↦ let q = (rw e at h) in cc q
  ]

  -- Where a question asks for the average order value, SQL is accepted only if it parses and each of
  -- its columns that are named so, or the whole query if none is, has in it the average of the order
  -- amounts or their sum divided by the number of orders, within parentheses, casts and NULLIF.
  pub validate_metrics-IsAverage :
      (is_word : ℕ → Bool) (question sql : String)
      → mentions_average is_word question ≡ true
      → validate_metrics g is_word question sql ≡ ok tt
      → (tree : T) × (g.parse_one sql ≡ ok tree)
        × All IsAverage (targets_or g tree (named_targets g is_word tree))
  unfolding validate_metrics wrong_average
  validate_metrics-IsAverage is_word question sql m h = elim (Result-cases (g.parse_one sql)) [
    | inr (x, e) ↦ let q = (rw (m, e) at h) in cc q
    | inl (tree, e) ↦
        let ts = targets_or g tree (named_targets g is_word tree) in
        elim (Result-cases (all_valid g ts)) [
          | inr (x, f) ↦ let q = (rw (m, e, f) at h) in cc q
          | inl (true, f) ↦ (tree, e, all_valid-IsAverage ts f)
          | inl (false, f) ↦ let q = (rw (m, e, f) at h) in cc q
        ]
  ]
