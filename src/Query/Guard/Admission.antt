-- ===== src/Query/Guard/Admission.antt =====
-- What a query that the guard lets through can do.
use incident_desk.Prelude.{
  Bool-cases, List, Option, String, Yields, Yields-guard, Yields-ok, [], all, arith, false, inl,
  inr, ltb, none, not, ok, refl, some, true, ℕ, ◌∙◌, ◌∷◌, ◌≡◌, ◌≤◌, ◌⊎◌,
}
use incident_desk.Query.Guard.{
  Limit, Sqlglot, guarded, is_harmless, is_readable, limited, max_rows, negative, no_limit,
  one_statement, parsed_sql, printed, rows, safe_sql, unreadable,
}

module _ {T : Type 0} (g : Sqlglot T) where
  -- `limit` of the library sets the limit, and leaves what the query reads alone.
  pub record LimitLaws : Type 0 where
    pub sets : (n : ℕ) (t : T) → g.limit (g.with_limit n t) ≡ rows n
    pub keeps_tables : (n : ℕ) (t : T) → g.tables (g.with_limit n t) ≡ g.tables t
    pub keeps_ctes : (n : ℕ) (t : T) → g.ctes (g.with_limit n t) ≡ g.ctes t
    pub keeps_functions : (n : ℕ) (t : T) → g.functions (g.with_limit n t) ≡ g.functions t
    pub keeps_query : (n : ℕ) (t : T) → g.is_query (g.with_limit n t) ≡ g.is_query t
    pub keeps_modifies : (n : ℕ) (t : T) → g.modifies (g.with_limit n t) ≡ g.modifies t
    pub keeps_variables :
        (n : ℕ) (t : T) → g.reads_variables (g.with_limit n t) ≡ g.reads_variables t

  -- A query that only reads the warehouse.
  pub record OnlyReads (t : T) : Type 0 where
    pub query : g.is_query t ≡ true
    pub pure_read : g.modifies t ≡ false
    pub own_tables : all (is_readable g t) (g.tables t) ≡ true
    pub harmless : all (is_harmless g) (g.functions t) ≡ true
    pub no_variables : g.reads_variables t ≡ false

  -- The query has a limit, of at most `max_rows` rows.
  pub record IsBounded (t : T) : Type 0 where
    pub count : ℕ
    pub is_limit : g.limit t ≡ rows count
    pub small : count ≤ max_rows

  with_limit-OnlyReads :
      (laws : LimitLaws) (t : T) → OnlyReads t → OnlyReads (g.with_limit max_rows t)
  unfolding is_readable
  with_limit-OnlyReads laws t h = record {
    query = laws.keeps_query max_rows t ∙ h.query;
    pure_read = laws.keeps_modifies max_rows t ∙ h.pure_read;
    own_tables =
        rw (is_readable, laws.keeps_tables max_rows t, laws.keeps_ctes max_rows t) h.own_tables;
    harmless = rw (laws.keeps_functions max_rows t) h.harmless;
    no_variables = laws.keeps_variables max_rows t ∙ h.no_variables;
  }

  -- The text is printed for the tree, as it is or with a limit added, and only reads the warehouse.
  pub record Prints (t : T) (text : String) : Type 0 where
    pub out : T
    pub same_query : (out ≡ t) ⊎ (out ≡ g.with_limit max_rows t)
    pub printed_as : text ≡ g.sql out
    pub reads : OnlyReads out
    pub bounded : IsBounded out

  added : (laws : LimitLaws) (t : T) → OnlyReads t → Prints t (g.sql (g.with_limit max_rows t))
  added laws t h = record {
    out = g.with_limit max_rows t;
    same_query = inr refl;
    printed_as = refl;
    reads = with_limit-OnlyReads laws t h;
    bounded = record { count = max_rows; is_limit = laws.sets max_rows t; small = omega arith };
  }

  limited-Prints :
      (laws : LimitLaws) (t : T) (l : Limit)
      → g.limit t ≡ l
      → OnlyReads t
      → Yields (Prints t) (printed g (limited g t))
  unfolding limited printed
  limited-Prints laws t no_limit e h = rw (Yields, e) (added laws t h)
  limited-Prints laws t unreadable e h = rw (Yields, e) tt
  limited-Prints laws t negative e h = rw (Yields, e) (added laws t h)
  limited-Prints laws t (rows n) e h = elim (Bool-cases (ltb max_rows n)) [
    | inl large ↦ rw (Yields, e, large) (added laws t h)
    | inr small ↦
        rw (Yields, e, small)
          (record {
            out = t;
            same_query = inl refl;
            printed_as = refl;
            reads = h;
            bounded = record { count = n; is_limit = e; small = ground arith };
          })
  ]

  guarded-Prints : (laws : LimitLaws) (t : T) → Yields (Prints t) (guarded g t)
  unfolding guarded
  guarded-Prints laws t = Yields-guard (Prints t) (not (g.is_query t)) _ _ λ query.
      Yields-guard (Prints t) (g.modifies t) _ _ λ pure_read.
        Yields-guard (Prints t) (not (all (is_readable g t) (g.tables t))) _ _ λ own_tables.
          Yields-guard (Prints t) (not (all (is_harmless g) (g.functions t))) _ _ λ harmless.
            Yields-guard (Prints t) (g.reads_variables t) _ _ λ no_variables.
              limited-Prints laws t (g.limit t) refl (record {
                query = ground arith;
                pure_read = pure_read;
                own_tables = ground arith;
                harmless = ground arith;
                no_variables = no_variables;
              })

  -- The query is one statement, and its tree is the one that is printed.
  pub record Admits (q text : String) : Type 0 where
    pub tree : T
    pub parsed : g.parse q ≡ some (tree ∷ [])
    pub prints : Prints tree text

  parsed_sql-Prints :
      (laws : LimitLaws) (q text : String) (o : Option (List T))
      → g.parse q ≡ o
      → parsed_sql g o ≡ ok text
      → Admits q text
  unfolding parsed_sql one_statement
  parsed_sql-Prints laws q text none p h = cc
  parsed_sql-Prints laws q text (some []) p h = cc
  parsed_sql-Prints laws q text (some (t ∷ [])) p h = record {
    tree = t;
    parsed = p;
    prints = Yields-ok (Prints t) (guarded g t) h (guarded-Prints laws t);
  }
  parsed_sql-Prints laws q text (some (t ∷ u ∷ rest)) p h = cc

  -- If setting a limit does just that, the SQL that the guard returns is that of the one statement
  -- it was given, as it is or limited: a SELECT or a UNION that modifies nothing, reads only tables
  -- of the warehouse and its own CTEs, calls no forbidden function, reads no variable of the
  -- database, and returns at most 500 rows.
  pub safe_sql-Admits :
      (laws : LimitLaws) (q text : String) → safe_sql g q ≡ ok text → Admits q text
  unfolding safe_sql
  safe_sql-Admits laws q text h = parsed_sql-Prints laws q text (g.parse q) refl h
