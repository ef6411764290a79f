-- ===== src/Query/Sql/Periods/Months.antt =====
-- SQL that validate_period accepts keeps the month.
use incident_desk.Prelude.{
  All, AnyOf, Bool, Bool-cases, List, Option, Result-cases, String, Yields, Yields-ok, [],
  and_then-Yields, any, arith, false, if◌then◌else◌, inl, inr, ok, refl, some, true, ℕ, ◌&&◌, ◌||◌,
  ◌∷◌, ◌≡◌,
}
use incident_desk.Query.Sql.{SqlTree, find_all}
use incident_desk.Query.Sql.Calendar.{Date}
use incident_desk.Query.Sql.Periods.{month_asked, month_year}
use incident_desk.Query.Sql.Periods.Kept.{
  Findings, IsHigh, IsLow, KeepsMonth, by_date-Findings, by_days, by_month, closes-InMonth,
}
use incident_desk.Query.Sql.Periods.Searches.{
  Search, any_result, bounds_month, by_date, closed_search, closes, following, met, month_test,
  on_date, search, search_step, seeking, tree_keeps_month, validate_period, validate_year,
  where_keeps_month,
}

module _ {T : Type 0} (g : SqlTree T) (digit : ℕ → Option ℕ) (today : Date) where
  module _ (m y : ℕ) (w : T) where
    abbrev Of : T → Type 0
    Of p = AnyOf (λ x. p ≡ x) (find_all g g.is_predicate w)

    dated-Findings :
        (p : T) (lows : List Date) (highs : List (Date × Bool)) (b : Bool)
        → Of p
        → on_date g digit today (g.this p) ≡ ok b
        → All (IsLow g digit today m y w) lows
        → All (IsHigh g digit today m y w) highs
        → Findings g digit today m y w
            (if b then by_date g digit today m (some y) p lows highs else seeking lows highs)
    dated-Findings p lows highs false i e ls hs = (ls, hs)
    dated-Findings p lows highs true i e ls hs =
        by_date-Findings g digit today m y w p lows highs (record { inside = i; dated = e }) ls hs

    search_step-Findings :
        (p : T) (lows : List Date) (highs : List (Date × Bool))
        → Of p
        → All (IsLow g digit today m y w) lows
        → All (IsHigh g digit today m y w) highs
        → Yields (Findings g digit today m y w) (search_step g digit today m (some y) p lows highs)
    unfolding search_step
    search_step-Findings p lows highs i ls hs =
        elim (Bool-cases ((g.is_eq p || g.is_in p) && month_test g digit today m p)) [
          | inl e ↦ rw e (by_month p i (ground arith))
          | inr e ↦ rw e (elim (Result-cases (on_date g digit today (g.this p))) [
            | inl (b, k) ↦ rw k (dated-Findings p lows highs b i k ls hs)
            | inr (x, k) ↦ rw k tt
          ])
        ]

    search-Findings :
        (ps : List T) (lows : List Date) (highs : List (Date × Bool))
        → ((p : T) → AnyOf (λ x. p ≡ x) ps → Of p)
        → All (IsLow g digit today m y w) lows
        → All (IsHigh g digit today m y w) highs
        → Yields (Findings g digit today m y w) (search g digit today m (some y) ps lows highs)
    unfolding search
    search-Findings [] lows highs sub ls hs = (ls, hs)
    search-Findings (p ∷ ps) lows highs sub ls hs =
        and_then-Yields (Findings g digit today m y w) (Findings g digit today m y w)
          (search_step g digit today m (some y) p lows highs) _
          (search_step-Findings p lows highs (sub p (inl refl)) ls hs)
          λ r o.
            elim r
                as (λ r.
                  Findings g digit today m y w r
                  → Yields (Findings g digit today m y w) (elim r [
                    | met ↦ ok met
                    | seeking lows' highs' ↦ search g digit today m (some y) ps lows' highs'
                  ])) [
                    | met ↦ λ k. k
                    | seeking lows' highs' ↦
                        λ k. search-Findings ps lows' highs' (λ p' i. sub p' (inr i)) k.0 k.1
                  ]
              o

    any-closes :
        (low next : Date) (highs : List (Date × Bool))
        → IsLow g digit today m y w low
        → All (IsHigh g digit today m y w) highs
        → following m low ≡ ok next
        → any (closes m low next) highs ≡ true
        → KeepsMonth g digit today m y w
    any-closes low next [] l hs f c = cc
    any-closes low next (high ∷ highs) l hs f c = elim (Bool-cases (closes m low next high)) [
      | inl e ↦
          by_days l.low_of (hs.0).high_of l.is_dated (hs.0).is_dated
            (λ d. closes-InMonth g digit today m y w low next high l hs.0 d f e)
      | inr e ↦ any-closes low next highs l hs.1 f (ground arith)
    ]

    bounds_month-KeepsMonth :
        (lows : List Date) (highs : List (Date × Bool))
        → All (IsLow g digit today m y w) lows
        → All (IsHigh g digit today m y w) highs
        → bounds_month m lows highs ≡ ok true
        → KeepsMonth g digit today m y w
    unfolding bounds_month
    bounds_month-KeepsMonth [] highs ls hs h = cc
    bounds_month-KeepsMonth (low ∷ lows) highs ls hs h = elim (Result-cases (following m low)) [
      | inr (x, f) ↦ let q = (rw f at h) in cc q
      | inl (next, f) ↦ elim (Bool-cases (any (closes m low next) highs)) [
        | inl e ↦ any-closes low next highs ls.0 hs f e
        | inr e ↦ bounds_month-KeepsMonth lows highs ls.1 hs (rw (f, e) at h)
      ]
    ]

    closed_search-KeepsMonth :
        (r : Search)
        → Findings g digit today m y w r
        → closed_search g digit today m (some y) r ≡ ok true
        → KeepsMonth g digit today m y w
    closed_search-KeepsMonth met o h = o
    closed_search-KeepsMonth (seeking lows highs) o h = bounds_month-KeepsMonth lows highs o.0 o.1 h

    where_keeps_month-KeepsMonth :
        where_keeps_month g digit today m (some y) w ≡ ok true → KeepsMonth g digit today m y w
    unfolding where_keeps_month
    where_keeps_month-KeepsMonth h =
        let ps = find_all g g.is_predicate w in
        elim (Result-cases (search g digit today m (some y) ps [] [])) [
          | inr (x, e) ↦ let q = (rw e at h) in cc q
          | inl (r, e) ↦
              closed_search-KeepsMonth r
                (Yields-ok (Findings g digit today m y w) (search g digit today m (some y) ps [] [])
                  e (search-Findings ps [] [] (λ p i. i) tt tt))
                (rw e at h)
        ]

  module _ (m y : ℕ) where
    any_result-KeepsMonth :
        (ws : List T)
        → any_result (where_keeps_month g digit today m (some y)) ws ≡ ok true
        → AnyOf (KeepsMonth g digit today m y) ws
    unfolding any_result
    any_result-KeepsMonth [] h = cc
    any_result-KeepsMonth (w ∷ ws) h =
        elim (Result-cases (where_keeps_month g digit today m (some y) w)) [
          | inr (x, e) ↦ let q = (rw e at h) in cc q
          | inl (true, e) ↦ inl (where_keeps_month-KeepsMonth m y w e)
          | inl (false, e) ↦ inr (any_result-KeepsMonth ws (rw e at h))
        ]

    tree_keeps_month-KeepsMonth :
        (tree : T)
        → tree_keeps_month g digit today m (some y) tree ≡ ok tt
        → AnyOf (KeepsMonth g digit today m y) (find_all g g.is_where tree)
    unfolding tree_keeps_month
    tree_keeps_month-KeepsMonth tree h =
        let ws = find_all g g.is_where tree in
        elim (Result-cases (any_result (where_keeps_month g digit today m (some y)) ws)) [
          | inr (x, e) ↦ let q = (rw e at h) in cc q
          | inl (true, e) ↦ any_result-KeepsMonth ws e
          | inl (false, e) ↦ let q = (rw e at h) in cc q
        ]

    pub validate_period-KeepsMonth :
        (question sql : String)
        → month_asked digit today question ≡ some m
        → month_year digit today question ≡ some y
        → validate_period g digit today question sql ≡ ok tt
        → (tree : T) × (g.parse_one sql ≡ ok tree)
          × AnyOf (KeepsMonth g digit today m y) (find_all g g.is_where tree)
    unfolding validate_period
    validate_period-KeepsMonth question sql a b h =
        elim (Result-cases (validate_year g digit today question sql)) [
          | inr (x, e) ↦ let q = (rw e at h) in cc q
          | inl (u, e) ↦ elim (Result-cases (g.parse_one sql)) [
            | inr (x, f) ↦ let q = (rw (e, a, f) at h) in cc q
            | inl (tree, f) ↦ (tree, f, tree_keeps_month-KeepsMonth tree (rw (e, a, b, f) at h))
          ]
        ]
