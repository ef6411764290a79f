-- ===== src/Query/Sql/Periods/Kept.antt =====
-- What accepted SQL selects of a period, described without the searches.
use incident_desk.Prelude.{
  All, All-append, AnyOf, Bool, Bool-cases, List, Option, [], arith, inl, inr, none, ok, refl, some,
  sym, true, ℕ, ◌&&◌, ◌||◌, ◌∙◌, ◌∷◌, ◌≡◌,
}
use incident_desk.Query.Sql.{SqlTree, find_all}
use incident_desk.Query.Sql.Calendar.{Date, earlier, not_after, same_day}
use incident_desk.Query.Sql.Periods.Days.{
  InMonth, IsDay, before_next-InMonth, between-InMonth, following-next_day, last-InMonth,
  same_day-InMonth,
}
use incident_desk.Query.Sql.Periods.Searches.{
  Search, add_high, add_low, by_date, closes, date_value, following, met, month_end, month_test,
  on_date, requested_day, seeking,
}

module _ {T : Type 0} (g : SqlTree T) (digit : ℕ → Option ℕ) (today : Date) where
  -- What a comparison of the date with known days is for the days that it lets through.
  pub record LetsThrough (p : T) (d : Date) : Type 0 where
    pub equal :
        (v : Date)
        → g.is_eq p ≡ true
        → date_value g digit today (g.expression p) ≡ some v
        → same_day d v ≡ true
    pub least :
        (v : Date)
        → g.is_gte p ≡ true
        → date_value g digit today (g.expression p) ≡ some v
        → not_after v d ≡ true
    pub most :
        (v : Date)
        → g.is_lte p ≡ true
        → date_value g digit today (g.expression p) ≡ some v
        → not_after d v ≡ true
    pub below :
        (v : Date)
        → g.is_lt p ≡ true
        → date_value g digit today (g.expression p) ≡ some v
        → earlier d v ≡ true
    pub between :
        (low high : Date)
        → g.is_between p ≡ true
        → date_value g digit today (g.arg "low" p) ≡ some low
        → date_value g digit today (g.arg "high" p) ≡ some high
        → (not_after low d ≡ true) × (not_after d high ≡ true)

  -- A predicate of the WHERE that is on date_id.
  pub record IsDated (w p : T) : Type 0 where
    pub inside : AnyOf (λ x. p ≡ x) (find_all g g.is_predicate w)
    pub dated : on_date g digit today (g.this p) ≡ ok true

  -- Two of its predicates on date_id, which may be one, let only days of the month through; or one says
  -- which month it is.
  pub data KeepsMonth (m y : ℕ) (w : T) : Type 0 where
    by_month :
        (p : T)
        → AnyOf (λ x. p ≡ x) (find_all g g.is_predicate w)
        → month_test g digit today m p ≡ true
        → KeepsMonth m y w
    by_days :
        (p q : T)
        → IsDated w p
        → IsDated w q
        → ((d : Date) → IsDay d → LetsThrough p d → LetsThrough q d → InMonth m y d)
        → KeepsMonth m y w

  module _ (m y : ℕ) (w : T) where
    pub record IsLow (v : Date) : Type 0 where
      pub low_of : T
      pub is_dated : IsDated w low_of
      pub is_low : g.is_gte low_of ≡ true
      pub value : date_value g digit today (g.expression low_of) ≡ some v
      pub is_asked : requested_day m (some y) (some v) ≡ true

    pub record IsHigh (h : Date × Bool) : Type 0 where
      pub high_of : T
      pub is_dated : IsDated w high_of
      pub value : date_value g digit today (g.expression high_of) ≡ some h.0
      pub exclusive : h.1 ≡ g.is_lt high_of
      pub is_high : (g.is_lte high_of || g.is_lt high_of) ≡ true

    abbrev pub Findings : Search → Type 0
    Findings met = KeepsMonth m y w
    Findings (seeking lows highs) = All IsLow lows × All IsHigh highs

    high-not_after :
        (high : Date × Bool) (h : IsHigh high) (d : Date)
        → LetsThrough h.high_of d
        → not_after d high.0 ≡ true
    high-not_after high h d through = elim (Bool-cases (g.is_lt h.high_of)) [
      | inl e ↦ let q = through.below high.0 e h.value in ground arith
      | inr e ↦ through.most high.0 (let q = h.is_high in ground arith) h.value
    ]

    before_next :
        (high : Date × Bool) (h : IsHigh high) (d next : Date)
        → LetsThrough h.high_of d
        → (high.1 && same_day high.0 next) ≡ true
        → earlier d next ≡ true
    before_next high h d next b c =
        let exclusive : g.is_lt h.high_of ≡ true = sym h.exclusive ∙ (ground arith) in
        let q = b.below high.0 exclusive h.value in ground arith

    pub closes-InMonth :
        (low next : Date) (high : Date × Bool) (l : IsLow low) (h : IsHigh high) (d : Date)
        → following m low ≡ ok next
        → closes m low next high ≡ true
        → IsDay d
        → LetsThrough l.low_of d
        → LetsThrough h.high_of d
        → InMonth m y d
    closes-InMonth low next high l h d f c i a b =
        let least = a.least low l.is_low l.value in
        elim (Bool-cases (not_after low high.0 && not_after high.0 (month_end m low))) [
          | inl e ↦
              last-InMonth m y low high.0 d l.is_asked (ground arith) least
                (high-not_after high h d b)
          | inr e ↦
              before_next-InMonth m y low d l.is_asked i least
                (rw (following-next_day m low next f) (before_next high h d next b (ground arith)))
        ]

    between-KeepsMonth :
        (p : T) (a b : Option Date)
        → IsDated w p
        → date_value g digit today (g.arg "low" p) ≡ a
        → date_value g digit today (g.arg "high" p) ≡ b
        → (g.is_between p && requested_day m (some y) a && requested_day m (some y) b) ≡ true
        → KeepsMonth m y w
    between-KeepsMonth p none b i e f h = absurd (ground arith)
    between-KeepsMonth p (some low) none i e f h = absurd (ground arith)
    between-KeepsMonth p (some low) (some high) i e f h = by_days p p i i λ d day l l'.
        let r = l.between low high (ground arith) e f in
        between-InMonth m y low high d (ground arith) (ground arith) r.0 r.1

    equal-KeepsMonth :
        (p : T) (a : Option Date)
        → IsDated w p
        → date_value g digit today (g.expression p) ≡ a
        → (g.is_eq p && requested_day m (some y) a) ≡ true
        → KeepsMonth m y w
    equal-KeepsMonth p none i e h = absurd (ground arith)
    equal-KeepsMonth p (some v) i e h =
        by_days p p i i
          λ d day l l'. same_day-InMonth m y v d (ground arith) (l.equal v (ground arith) e)

    add_low-IsLow :
        (p : T) (a : Option Date) (lows : List Date)
        → IsDated w p
        → date_value g digit today (g.expression p) ≡ a
        → All IsLow lows
        → All IsLow (add_low g digit today m (some y) p a lows)
    add_low-IsLow p none lows i e ls = ls
    add_low-IsLow p (some v) lows i e ls =
        elim (Bool-cases (g.is_gte p && requested_day m (some y) (some v))) [
          | inr k ↦ rw k ls
          | inl k ↦ rw k (
              All-append IsLow lows (v ∷ []) ls (
                record {
                  low_of = p;
                  is_dated = i;
                  is_low = ground arith;
                  value = e;
                  is_asked = ground arith;
                },
                tt,
              ))
        ]

    add_high-IsHigh :
        (p : T) (a : Option Date) (highs : List (Date × Bool))
        → IsDated w p
        → date_value g digit today (g.expression p) ≡ a
        → All IsHigh highs
        → All IsHigh (add_high g digit today m (some y) p a highs)
    add_high-IsHigh p none highs i e hs = hs
    add_high-IsHigh p (some v) highs i e hs = elim (Bool-cases (g.is_lte p || g.is_lt p)) [
      | inr k ↦ rw k hs
      | inl k ↦ rw k (
          All-append IsHigh highs ((v, g.is_lt p) ∷ []) hs
            (record { high_of = p; is_dated = i; value = e; exclusive = refl; is_high = k }, tt))
    ]

    pub by_date-Findings :
        (p : T) (lows : List Date) (highs : List (Date × Bool))
        → IsDated w p
        → All IsLow lows
        → All IsHigh highs
        → Findings (by_date g digit today m (some y) p lows highs)
    unfolding by_date
    by_date-Findings p lows highs i ls hs =
        elim (Bool-cases (
          g.is_between p
          && requested_day m (some y) (date_value g digit today (g.arg "low" p))
          && requested_day m (some y) (date_value g digit today (g.arg "high" p)))) [
            | inl e ↦ rw e (between-KeepsMonth p _ _ i refl refl e)
            | inr e ↦
                rw e
                  (elim (Bool-cases (
                    g.is_eq p
                    && requested_day m (some y) (date_value g digit today (g.expression p)))) [
                      | inl k ↦ rw k (equal-KeepsMonth p _ i refl k)
                      | inr k ↦
                          rw k
                            (add_low-IsLow p _ lows i refl ls, add_high-IsHigh p _ highs i refl hs)
                    ])
          ]
