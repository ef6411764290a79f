-- ===== src/Query/Merge/Origins.antt =====
-- Where the columns of the merge come from: what was retrieved, or the answer of the repository, with
-- nothing changed but examples added.
use incident_desk.Prelude.{
  Bool-cases, List, Option, Option-cases, Result, String, Yields, [], and_then, and_then-Yields, ap,
  arith, contains, err, false, if◌then◌else◌, inl, inr, map, nat_eq, none, ok, refl, some,
  some-injective, string_eq, subst, sym, true, ◌++◌, ◌==◌, ◌||◌, ◌∙◌, ◌∷◌, ◌≡◌, ◌⊎◌,
}
use incident_desk.Json.Defs.{Value}
use incident_desk.Query.Merge.{
  ColumnInfo, Columns, MetricInfo, Repository, ValueInfo, add_metrics, add_values, ensure_column,
  ensure_columns, find_column, has_value, ids, merge_columns, retrieved_map, set_column, set_value,
  with_value,
}
use incident_desk.Query.Merge.Growth.{
  find_column-known, find_column-other, find_column-same, ids-set_column,
}
use incident_desk.Worker.Contracts.{object_eq, source_eq}

-- The last of the columns with this id.
pub last_with : String → List ColumnInfo → Option ColumnInfo
last_with k [] = none
last_with k (c ∷ cs) = elim (last_with k cs) [
  | some d ↦ some d
  | none ↦ if c.id == k then some c else none
]

last_with-none :
    (k : String) (cs : List ColumnInfo)
    → last_with k cs ≡ none
    → contains k (map (λ (c : ColumnInfo). c.id) cs) ≡ false
unfolding last_with
last_with-none k [] h = refl
last_with-none k (c ∷ cs) h = elim (Option-cases (last_with k cs)) [
  | inr (d, e) ↦ let q = (rw (e, last_with) at h) in cc q
  | inl e ↦ elim (Bool-cases (c.id == k)) [
    | inl same ↦ let q = (rw (e, same, last_with) at h) in cc q
    | inr other ↦
        ground (arith, last_with-none k cs e, string_eq.beq_iff c.id k, string_eq.beq_iff k c.id)
  ]
]

last_with-some :
    (k : String) (cs : List ColumnInfo) (d : ColumnInfo)
    → last_with k cs ≡ some d
    → contains k (map (λ (c : ColumnInfo). c.id) cs) ≡ true
unfolding last_with
last_with-some k [] d h = cc
last_with-some k (c ∷ cs) d h = elim (Option-cases (last_with k cs)) [
  | inr (x, e) ↦ ground (arith, last_with-some k cs x e)
  | inl e ↦ elim (Bool-cases (c.id == k)) [
    | inl same ↦ ground (arith, string_eq.beq_iff c.id k, string_eq.beq_iff k c.id)
    | inr other ↦ let q = (rw (e, other, last_with) at h) in cc q
  ]
]

latest : Option ColumnInfo → Option ColumnInfo → Option ColumnInfo
latest (some c) d = some c
latest none d = d

find_column-retrieved_map :
    (k : String) (cs : List ColumnInfo) (m : Columns)
    → find_column k (retrieved_map cs m) ≡ latest (last_with k cs) (find_column k m)
unfolding retrieved_map last_with latest
find_column-retrieved_map k [] m = refl
find_column-retrieved_map k (c ∷ cs) m =
    find_column-retrieved_map k cs (set_column c.id (some c) m)
    ∙ elim (Option-cases (last_with k cs)) [
      | inr (d, e) ↦ rw (e, last_with) refl
      | inl e ↦ elim (Bool-cases (c.id == k)) [
        | inl same ↦
            rw (e, same, last_with)
              (subst (λ i. find_column i (set_column c.id (some c) m) ≡ some c)
                ((string_eq.beq_iff c.id k).0 same) (find_column-same c.id (some c) m))
        | inr other ↦ rw (e, other, last_with) (find_column-other k c.id (some c) m other)
      ]
    ]

pub ids-retrieved_map :
    (a : String) (cs : List ColumnInfo) (m : Columns)
    → contains a (ids (retrieved_map cs m))
      ≡ (contains a (ids m) || contains a (map (λ (c : ColumnInfo). c.id) cs))
unfolding retrieved_map
ids-retrieved_map a [] m = ground arith
ids-retrieved_map a (c ∷ cs) m =
    ground
      (arith, ids-retrieved_map a cs (set_column c.id (some c) m), ids-set_column a c.id (some c) m)

append-none : {A : Type 0} (xs : List A) → xs ++ [] ≡ xs
append-none [] = refl
append-none (x ∷ xs) = ap (λ l. x ∷ l) (append-none xs)

append-append : {A : Type 0} (xs ys zs : List A) → (xs ++ ys) ++ zs ≡ xs ++ (ys ++ zs)
append-append [] ys zs = refl
append-append (x ∷ xs) ys zs = ap (λ l. x ∷ l) (append-append xs ys zs)

-- Nothing of the column has changed, but examples may have been added.
abbrev pub Kept : Option ColumnInfo → Option ColumnInfo → Type 0
Kept none now = now ≡ none
Kept (some c) now = (xs : List Value) × (now ≡ some (record c { examples = c.examples ++ xs }))

Kept-refl : (o : Option ColumnInfo) → Kept o o
Kept-refl none = refl
Kept-refl (some c) = ([], ap (λ l. some (record c { examples = l })) (sym (append-none c.examples)))

Kept-with_value :
    (o : Option ColumnInfo) (w : Value) (c : ColumnInfo)
    → Kept o (some c)
    → Kept o (some (with_value w c))
unfolding with_value
Kept-with_value none w c h = cc
Kept-with_value (some d) w c h = elim (Bool-cases (has_value w c.examples)) [
  | inl old ↦ rw old h
  | inr new ↦ rw new (
    h.0 ++ w ∷ [],
    ap (λ (x : ColumnInfo). some (record x { examples = x.examples ++ w ∷ [] }))
          (some-injective h.1)
        ∙ ap (λ l. some (record d { examples = l })) (append-append d.examples h.0 (w ∷ [])),
  )
]

answered : {A : Type 0} (r : Result A) → Yields (λ a. r ≡ ok a) r
answered (ok a) = refl
answered (err e) = tt

module _ (repo : Repository) (columns : List ColumnInfo) where
  -- What is known of an id: the column that was retrieved last with it, or, if none was, what the
  -- repository answers.
  abbrev pub Comes : String → Option ColumnInfo → Type 0
  Comes k o =
      ((c : ColumnInfo) × (last_with k columns ≡ some c) × (o ≡ some c))
      ⊎ ((last_with k columns ≡ none) × (repo.column_by_id k ≡ ok o))

  abbrev pub IsFrom : String → Option ColumnInfo → Type 0
  IsFrom k now = (o : Option ColumnInfo) × Comes k o × Kept o now

  pub record Sourced (m : Columns) : Type 0 where
    pub from : (k : String) → contains k (ids m) ≡ true → IsFrom k (find_column k m)
    pub present :
        (k : String) (c : ColumnInfo) → last_with k columns ≡ some c → contains k (ids m) ≡ true

  retrieved_map-Sourced : Sourced (retrieved_map columns [])
  unfolding find_column latest
  retrieved_map-Sourced = record {
    from = λ k h. elim (Option-cases (last_with k columns)) [
      | inr (c, e) ↦
          let now : find_column k (retrieved_map columns []) ≡ some c =
            find_column-retrieved_map k columns [] ∙ ap (λ o. latest o none) e in
          subst (IsFrom k) (sym now) (some c, inl (c, e, refl), Kept-refl (some c))
      | inl e ↦
          let absent = last_with-none k columns e in
          absurd (ground (arith, ids-retrieved_map k columns [], absent))
    ];
    present = λ k c e. ground (arith, ids-retrieved_map k columns [], last_with-some k columns c e);
  }

  set_column-Sourced :
      (k : String) (o : Option ColumnInfo) (m : Columns)
      → IsFrom k o
      → Sourced m
      → Sourced (set_column k o m)
  set_column-Sourced k o m f s = record {
    from = λ j h. elim (Bool-cases (k == j)) [
      | inl same ↦
          subst (λ i. IsFrom i (find_column i (set_column k o m))) ((string_eq.beq_iff k j).0 same)
            (subst (IsFrom k) (sym (find_column-same k o m)) f)
      | inr other ↦ subst (IsFrom j) (sym (find_column-other j k o m other)) (
          s.from j
            (ground (arith, ids-set_column j k o m, string_eq.beq_iff j k, string_eq.beq_iff k j)))
    ];
    present = λ j c e. ground (arith, ids-set_column j k o m, s.present j c e);
  }

  ensure_column-Sourced :
      (k : String) (m : Columns) → Sourced m → Yields Sourced (ensure_column repo k m)
  unfolding ensure_column
  ensure_column-Sourced k m s = elim (Bool-cases (contains k (ids m))) [
    | inl old ↦ rw (Yields, old) s
    | inr new ↦ rw new (
        and_then-Yields (λ o. repo.column_by_id k ≡ ok o) Sourced (repo.column_by_id k) _
          (answered (repo.column_by_id k))
          λ o e. elim (Option-cases (last_with k columns)) [
            | inl absent ↦ set_column-Sourced k o m (o, inr (absent, e), Kept-refl o) s
            | inr (c, q) ↦ let known = s.present k c q in absurd (ground arith)
          ])
  ]

  ensure_columns-Sourced :
      (ks : List String) (m : Columns) → Sourced m → Yields Sourced (ensure_columns repo ks m)
  unfolding ensure_columns
  ensure_columns-Sourced [] m s = s
  ensure_columns-Sourced (k ∷ ks) m s =
      and_then-Yields Sourced Sourced (ensure_column repo k m) _ (ensure_column-Sourced k m s)
        (ensure_columns-Sourced ks)

  add_metrics-Sourced :
      (xs : List MetricInfo) (m : Columns) → Sourced m → Yields Sourced (add_metrics repo xs m)
  unfolding add_metrics
  add_metrics-Sourced [] m s = s
  add_metrics-Sourced (x ∷ xs) m s =
      and_then-Yields Sourced Sourced (ensure_columns repo x.relevant_columns m) _
        (ensure_columns-Sourced x.relevant_columns m s) (add_metrics-Sourced xs)

  set_value-Sourced :
      (v : ValueInfo) (m : Columns) → Sourced m → Yields Sourced (set_value repo v m)
  unfolding set_value
  set_value-Sourced v m s = elim (Option-cases (find_column v.column_id m)) [
    | inl e ↦ rw (Yields, e) tt
    | inr (c, e) ↦
        let (o, comes, kept) = s.from v.column_id (find_column-known v.column_id c m e) in
        rw (Yields, e)
          (set_column-Sourced v.column_id (some (with_value v.value c)) m
            (o, comes, Kept-with_value o v.value c (subst (Kept o) e kept)) s)
  ]

  add_values-Sourced :
      (vs : List ValueInfo) (m : Columns) → Sourced m → Yields Sourced (add_values repo vs m)
  unfolding add_values
  add_values-Sourced [] m s = s
  add_values-Sourced (v ∷ vs) m s =
      and_then-Yields Sourced Sourced
        (and_then (ensure_column repo v.column_id m) (set_value repo v)) _
        (and_then-Yields Sourced Sourced (ensure_column repo v.column_id m) (set_value repo v)
          (ensure_column-Sourced v.column_id m s) (set_value-Sourced v))
        (add_values-Sourced vs)

  pub merge_columns-Sourced :
      (metrics : List MetricInfo) (values : List ValueInfo)
      → Yields Sourced (merge_columns repo columns metrics values)
  unfolding merge_columns
  merge_columns-Sourced metrics values =
      and_then-Yields Sourced Sourced (add_metrics repo metrics (retrieved_map columns [])) _
        (add_metrics-Sourced metrics (retrieved_map columns []) retrieved_map-Sourced)
        (add_values-Sourced values)
