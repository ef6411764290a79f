-- ===== src/Query/Sql/Periods/Years.antt =====
-- query/app/core/periods.py, `_validate_year`: what accepted SQL says of the year.
use incident_desk.Prelude.{
  AnyOf, AnyOf-of-any, Bool, Bool-cases, Option, Result-cases, String, [], any, arith, false, inl,
  inr, nat_eq, none, ok, refl, some, string_eq, true, ℕ, ◌==◌, ◌||◌, ◌∷◌, ◌≡◌, ◌⊎◌,
}
use incident_desk.Json.Text.{after_prefix, show, text_length}
use incident_desk.Query.Routing.{mentions_any}
use incident_desk.Query.Sql.{SqlTree, find_all}
use incident_desk.Query.Sql.Calendar.{Date}
use incident_desk.Query.Sql.Periods.{year_asked}
use incident_desk.Query.Sql.Periods.Searches.{
  is_year_text, names_year, tree_keeps_year, validate_period, validate_year, where_keeps_year,
}
use incident_desk.Worker.Contracts.{object_eq, source_eq}

module _ {T : Type 0} (g : SqlTree T) (digit : ℕ → Option ℕ) (today : Date) where
  -- The text is the year, or begins with it and is as long as a date.
  abbrev pub IsYearText : ℕ → String → Type 0
  IsYearText y v =
      (v ≡ show y)
      ⊎ (((rest : String) × (after_prefix (show y) v ≡ some rest))
          × ((text_length v ≡ 8) ⊎ (text_length v ≡ 10)))

  -- The predicate has a column of years or dates, and a literal of the year.
  pub record NamesYear (y : ℕ) (p : T) : Type 0 where
    pub column :
        AnyOf (λ c. (g.name c ≡ "year") ⊎ (g.name c ≡ "date_id")) (find_all g g.is_column p)
    pub literal : AnyOf (λ n. IsYearText y (g.literal n)) (find_all g g.is_literal p)

  -- The WHERE has such a predicate, or names the current year, which is the one.
  abbrev pub KeepsYear : ℕ → T → Type 0
  KeepsYear y w =
      AnyOf (NamesYear y) (find_all g g.is_predicate w)
      ⊎ ((y ≡ today.year) × (mentions_any ("YEAR(CURRENT_DATE)" ∷ []) (g.sql w) ≡ true))

  has_prefix :
      (o : Option String)
      → elim o as (λ _. Bool) [ none ↦ false | some _ ↦ true ] ≡ true
      → (rest : String) × (o ≡ some rest)
  has_prefix none h = cc
  has_prefix (some rest) h = (rest, refl)

  is_year_text-IsYearText :
      (y : ℕ) (v : String) → is_year_text g digit today (show y) v ≡ true → IsYearText y v
  unfolding is_year_text
  is_year_text-IsYearText y v h = elim (Bool-cases (v == show y)) [
    | inl e ↦ inl ((string_eq.beq_iff v (show y)).0 e)
    | inr e ↦ inr (
      has_prefix (after_prefix (show y) v) (ground arith),
      elim (Bool-cases (text_length v == 8)) [
        | inl short ↦ inl ((nat_eq.beq_iff (text_length v) 8).0 short)
        | inr long ↦ inr ((nat_eq.beq_iff (text_length v) 10).0 (ground arith))
      ],
    )
  ]

  names_year-NamesYear : (y : ℕ) (p : T) → names_year g digit today y p ≡ true → NamesYear y p
  unfolding names_year
  names_year-NamesYear y p h = record {
    column =
        AnyOf-of-any (λ c. g.name c == "year" || g.name c == "date_id") _
          (λ c k. elim (Bool-cases (g.name c == "year")) [
            | inl e ↦ inl ((string_eq.beq_iff (g.name c) "year").0 e)
            | inr e ↦ inr ((string_eq.beq_iff (g.name c) "date_id").0 (ground arith))
          ])
          (find_all g g.is_column p) (ground arith);
    literal =
        AnyOf-of-any (λ n. is_year_text g digit today (show y) (g.literal n)) _
          (λ n k. is_year_text-IsYearText y (g.literal n) k) (find_all g g.is_literal p)
          (ground arith);
  }

  where_keeps_year-KeepsYear :
      (y : ℕ) (w : T) → where_keeps_year g digit today y w ≡ true → KeepsYear y w
  unfolding where_keeps_year
  where_keeps_year-KeepsYear y w h =
      let ps = find_all g g.is_predicate w in
      elim (Bool-cases (any (names_year g digit today y) ps)) [
        | inl e ↦ inl (AnyOf-of-any (names_year g digit today y) _ (names_year-NamesYear y) ps e)
        | inr e ↦ inr ((nat_eq.beq_iff y today.year).0 (ground arith), ground arith)
      ]

  tree_keeps_year-KeepsYear :
      (y : ℕ) (tree : T)
      → tree_keeps_year g digit today y tree ≡ ok tt
      → AnyOf (KeepsYear y) (find_all g g.is_where tree)
  unfolding tree_keeps_year
  tree_keeps_year-KeepsYear y tree h =
      let ws = find_all g g.is_where tree in
      elim (Bool-cases (any (where_keeps_year g digit today y) ws)) [
        | inl e ↦
            AnyOf-of-any (where_keeps_year g digit today y) _ (where_keeps_year-KeepsYear y) ws e
        | inr e ↦ let q = (rw e at h) in cc q
      ]

  validate_year-KeepsYear :
      (y : ℕ) (question sql : String)
      → year_asked digit today question ≡ some y
      → validate_year g digit today question sql ≡ ok tt
      → (tree : T) × (g.parse_one sql ≡ ok tree) × AnyOf (KeepsYear y) (find_all g g.is_where tree)
  unfolding validate_year
  validate_year-KeepsYear y question sql a h = elim (Result-cases (g.parse_one sql)) [
    | inr (x, f) ↦ let q = (rw (a, f, validate_year) at h) in cc q
    | inl (tree, f) ↦ (tree, f, tree_keeps_year-KeepsYear y tree (rw (a, f, validate_year) at h))
  ]

  -- Where a question asks for a year, SQL is accepted only if it parses and some WHERE in it has a
  -- predicate with a column of years or dates and a literal of that year, or names the current year
  -- if it is that.
  pub validate_period-KeepsYear :
      (y : ℕ) (question sql : String)
      → year_asked digit today question ≡ some y
      → validate_period g digit today question sql ≡ ok tt
      → (tree : T) × (g.parse_one sql ≡ ok tree) × AnyOf (KeepsYear y) (find_all g g.is_where tree)
  unfolding validate_period
  validate_period-KeepsYear y question sql a h =
      elim (Result-cases (validate_year g digit today question sql)) [
        | inr (x, e) ↦ let q = (rw e at h) in cc q
        | inl (u, e) ↦ validate_year-KeepsYear y question sql a e
      ]
