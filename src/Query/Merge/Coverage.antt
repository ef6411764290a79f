-- ===== src/Query/Merge/Coverage.antt =====
-- The first stages of the merge lose nothing, and the completion of a table loses no key.
use incident_desk.Prelude.{
  All, All-map, Bool-cases, List, NoRepeats, Option-cases, String, Yields, Yields-map, Yields-ok,
  [], always, and_then, and_then-Yields, arith, contains, included, included_of_contains, inl, inr,
  nat_eq, ok, refl, some, string_eq, true, ◌∷◌, ◌≡◌,
}
use incident_desk.Query.Merge.{
  ColumnInfo, Columns, MetricInfo, Repository, ValueInfo, add_metrics, add_values, column_ids,
  ensure_column, ensure_columns, find_column, ids, merge_columns, retrieved_map, set_column,
  set_value, with_value,
}
use incident_desk.Query.Merge.Growth.{
  Grows, Grows-refl, Grows-trans, NoRepeats-set_column, Shows, find_column-same, ids-set_column,
  set_column-new, set_column-value, with_value-shown,
}
use incident_desk.Query.Merge.Origins.{IsFrom, Sourced, ids-retrieved_map, merge_columns-Sourced}
use incident_desk.Worker.Contracts.{object_eq, source_eq}

retrieved_map-once :
    (cs : List ColumnInfo) (m : Columns) → NoRepeats (ids m) → NoRepeats (ids (retrieved_map cs m))
unfolding retrieved_map
retrieved_map-once [] m n = n
retrieved_map-once (c ∷ cs) m n =
    retrieved_map-once cs (set_column c.id (some c) m) (NoRepeats-set_column c.id (some c) m n)

included-grow :
    (xs : List String) (m m' : Columns)
    → Grows m m'
    → included xs (ids m) ≡ true
    → included xs (ids m') ≡ true
included-grow [] m m' g h = refl
included-grow (x ∷ xs) m m' g h = ground (arith, g.ids_kept x, included-grow xs m m' g)

module _ (repo : Repository) where
  -- A later stage that has these ids.
  record Has (ks : List String) (m m' : Columns) : Type 0 where
    grows : Grows m m'
    has : included ks (ids m') ≡ true

  ensure_column-Has : (k : String) (m : Columns) → Yields (Has (k ∷ []) m) (ensure_column repo k m)
  unfolding ensure_column
  ensure_column-Has k m = elim (Bool-cases (contains k (ids m))) [
    | inl old ↦ rw (Yields, old) (record { grows = Grows-refl m; has = ground arith })
    | inr new ↦ rw new (
        and_then-Yields (λ c. Unit {0}) (Has (k ∷ []) m) (repo.column_by_id k) _
          (always (repo.column_by_id k))
          λ c _. record {
            grows = set_column-new k c m new;
            has = ground (arith, ids-set_column k k c m, string_eq.beq_iff k k);
          })
  ]

  ensure_columns-Has :
      (ks : List String) (m : Columns) → Yields (Has ks m) (ensure_columns repo ks m)
  unfolding ensure_columns
  ensure_columns-Has [] m = record { grows = Grows-refl m; has = refl }
  ensure_columns-Has (k ∷ ks) m =
      and_then-Yields (Has (k ∷ []) m) (Has (k ∷ ks) m) (ensure_column repo k m) _
        (ensure_column-Has k m)
        λ n h.
          Yields-map (Has ks n) (Has (k ∷ ks) m) (ensure_columns repo ks n)
            (λ p g. record {
              grows = Grows-trans m n p h.grows g.grows;
              has = ground (arith, g.has, g.grows.ids_kept k, h.has);
            })
            (ensure_columns-Has ks n)

  record HasMetrics (xs : List MetricInfo) (m m' : Columns) : Type 0 where
    grows : Grows m m'
    relevant : All (λ (x : MetricInfo). included x.relevant_columns (ids m') ≡ true) xs

  add_metrics-HasMetrics :
      (xs : List MetricInfo) (m : Columns) → Yields (HasMetrics xs m) (add_metrics repo xs m)
  unfolding add_metrics
  add_metrics-HasMetrics [] m = record { grows = Grows-refl m; relevant = tt }
  add_metrics-HasMetrics (x ∷ xs) m =
      and_then-Yields (Has x.relevant_columns m) (HasMetrics (x ∷ xs) m)
        (ensure_columns repo x.relevant_columns m) _ (ensure_columns-Has x.relevant_columns m)
        λ n h.
          Yields-map (HasMetrics xs n) (HasMetrics (x ∷ xs) m) (add_metrics repo xs n)
            (λ p g. record {
              grows = Grows-trans m n p h.grows g.grows;
              relevant = (included-grow x.relevant_columns n p g.grows h.has, g.relevant);
            })
            (add_metrics-HasMetrics xs n)

  record HasValues (vs : List ValueInfo) (m m' : Columns) : Type 0 where
    grows : Grows m m'
    shown : All (Shows m') vs

  set_value-HasValues :
      (v : ValueInfo) (m : Columns) → Yields (HasValues (v ∷ []) m) (set_value repo v m)
  unfolding set_value
  set_value-HasValues v m = elim (Option-cases (find_column v.column_id m)) [
    | inl e ↦ rw (Yields, e) tt
    | inr (c, e) ↦
        rw (Yields, e)
          (record {
            grows = set_column-value v.column_id v.value c m e;
            shown = (
              record {
                column = with_value v.value c;
                found = find_column-same v.column_id (some (with_value v.value c)) m;
                shown = with_value-shown v.value c;
              },
              tt,
            );
          })
  ]

  add_values-HasValues :
      (vs : List ValueInfo) (m : Columns) → Yields (HasValues vs m) (add_values repo vs m)
  unfolding add_values
  add_values-HasValues [] m = record { grows = Grows-refl m; shown = tt }
  add_values-HasValues (v ∷ vs) m =
      and_then-Yields (HasValues (v ∷ []) m) (HasValues (v ∷ vs) m)
        (and_then (ensure_column repo v.column_id m) (set_value repo v)) _
        (and_then-Yields (Has (v.column_id ∷ []) m) (HasValues (v ∷ []) m)
          (ensure_column repo v.column_id m) (set_value repo v) (ensure_column-Has v.column_id m)
          λ n h.
            Yields-map (HasValues (v ∷ []) n) (HasValues (v ∷ []) m) (set_value repo v n)
              (λ p g. record { grows = Grows-trans m n p h.grows g.grows; shown = g.shown })
              (set_value-HasValues v n))
        λ n h.
          Yields-map (HasValues vs n) (HasValues (v ∷ vs) m) (add_values repo vs n)
            (λ p g. record {
              grows = Grows-trans m n p h.grows g.grows;
              shown = (g.grows.shown_kept v h.shown.0, g.shown);
            })
            (add_values-HasValues vs n)

  record Covers (columns : List ColumnInfo) (metrics : List MetricInfo) (values : List ValueInfo)
      (m : Columns) : Type 0 where
    once : NoRepeats (ids m)
    retrieved : included (column_ids repo columns) (ids m) ≡ true
    relevant : All (λ (x : MetricInfo). included x.relevant_columns (ids m) ≡ true) metrics
    shown : All (Shows m) values

  merge_columns-Yields :
      (columns : List ColumnInfo) (metrics : List MetricInfo) (values : List ValueInfo)
      → Yields (Covers columns metrics values) (merge_columns repo columns metrics values)
  unfolding merge_columns
  merge_columns-Yields columns metrics values =
      let start = retrieved_map columns [] in
      let known : included (column_ids repo columns) (ids start) ≡ true =
        included_of_contains (column_ids repo columns) (ids start)
          (λ a h. ground (arith, ids-retrieved_map a columns [])) in
      and_then-Yields (HasMetrics metrics start) (Covers columns metrics values)
        (add_metrics repo metrics start) _ (add_metrics-HasMetrics metrics start)
        λ n h.
          Yields-map (HasValues values n) (Covers columns metrics values) (add_values repo values n)
            (λ p g.
              let all_grow = Grows-trans start n p h.grows g.grows in
              record {
                once = all_grow.once_kept (retrieved_map-once columns [] tt);
                retrieved = included-grow (column_ids repo columns) start p all_grow known;
                relevant =
                    All-map _ _ metrics (λ x i. included-grow x.relevant_columns n p g.grows i)
                      h.relevant;
                shown = g.shown;
              })
            (add_values-HasValues values n)

  -- What the first stages have merged: each column once; every column that was retrieved and every
  -- column that a retrieved metric depends on, as it was retrieved or as the repository answers, but
  -- for added examples; and every retrieved value as an example of its column.
  pub record IsMerged (columns : List ColumnInfo) (metrics : List MetricInfo)
      (values : List ValueInfo) (m : Columns) : Type 0 where
    pub once : NoRepeats (ids m)
    pub retrieved : included (column_ids repo columns) (ids m) ≡ true
    pub relevant : All (λ (x : MetricInfo). included x.relevant_columns (ids m) ≡ true) metrics
    pub shown : All (Shows m) values
    pub from : (k : String) → contains k (ids m) ≡ true → IsFrom repo columns k (find_column k m)

  -- If the first stages return, no column stands twice; every retrieved column is there, and every
  -- column that a retrieved metric depends on; what stands under an id is the last column that was
  -- retrieved with it, or, if none was, what the repository answers for it, with nothing changed but
  -- examples added at the end; and every retrieved value is an example of its column, whatever values
  -- come after it.
  pub merge_columns-IsMerged :
      (columns : List ColumnInfo) (metrics : List MetricInfo) (values : List ValueInfo)
      (m : Columns)
      → merge_columns repo columns metrics values ≡ ok m
      → IsMerged columns metrics values m
  merge_columns-IsMerged columns metrics values m h =
      let r = merge_columns repo columns metrics values in
      let covers =
        Yields-ok (Covers columns metrics values) r h
          (merge_columns-Yields columns metrics values) in
      let sourced =
        Yields-ok (Sourced repo columns) r h (merge_columns-Sourced repo columns metrics values) in
      record {
        once = covers.once;
        retrieved = covers.retrieved;
        relevant = covers.relevant;
        shown = covers.shown;
        from = sourced.from;
      }
