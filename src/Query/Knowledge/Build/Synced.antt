-- ===== src/Query/Knowledge/Build/Synced.antt =====
-- Only the values of columns that are marked for it are put into the value index.
-- A column with this id is configured, and marked.
use incident_desk.Prelude.{
  All, All-append, All-of-select, All-take, Bool, Keeps, Keeps-bind, Keeps-pure, List, Option,
  String, Yields, Yields-ok, [], always, and_then-Yields, any, arith, continue_keeps, drop, false,
  if◌then◌else◌, inl, inr, length, map, nat_eq, none, not, refl, select, some, string_eq, suc, take,
  true, zero, ℕ, ◌&&◌, ◌==◌, ◌∷◌, ◌≡◌, ◌⊎◌,
}
use incident_desk.Json.Defs.{Value}
use incident_desk.Query.Knowledge.{
  ColumnConfig, Outside, Stores, TableConfig, column_key, created, onto, put_all, put_by, sync_of,
  sync_of_columns,
}
use incident_desk.Query.Knowledge.Build.{
  ensure_index, index_values, request_store, save_values, send_batches, store_values, value_info,
  value_rows, values_if,
}
use incident_desk.Query.Knowledge.Build.Batches.{settle-keeps}
use incident_desk.Query.Merge.{ColumnInfo, ValueInfo}
use incident_desk.Worker.Contracts.{object_eq, source_eq}

abbrev pub IsMarked : List TableConfig → String → Type 0
IsMarked ts k =
    any (λ (t : TableConfig). any (λ (c : ColumnConfig). column_key t c == k && c.sync) t.columns)
      ts
    ≡ true

abbrev pub OfMarked : List TableConfig → ValueInfo → Type 0
OfMarked ts v = IsMarked ts v.column_id

abbrev pub IndexOfMarked : List TableConfig → Option (List ValueInfo) → Type 0
IndexOfMarked ts none = Unit
IndexOfMarked ts (some vs) = All (OfMarked ts) vs

sync_of_columns-OfMarked :
    (t : TableConfig) (cs : List ColumnConfig) (k : String) (found : Option Bool)
    → sync_of_columns t cs k found ≡ some true
    → (any (λ (c : ColumnConfig). column_key t c == k && c.sync) cs ≡ true) ⊎ (found ≡ some true)
unfolding sync_of_columns
sync_of_columns-OfMarked t [] k found h = inr h
sync_of_columns-OfMarked t (c ∷ cs) k found h =
    ground
      (arith, sync_of_columns-OfMarked t cs k (if column_key t c == k then some c.sync else found))

sync_of-IsMarked :
    (ts : List TableConfig) (k : String) (found : Option Bool)
    → sync_of ts k found ≡ some true
    → IsMarked ts k ⊎ (found ≡ some true)
unfolding sync_of
sync_of-IsMarked [] k found h = inr h
sync_of-IsMarked (t ∷ ts) k found h =
    elim (sync_of-IsMarked ts k (sync_of_columns t t.columns k found) h) [
      | inl later ↦ inl (ground arith)
      | inr here ↦ elim (sync_of_columns-OfMarked t t.columns k found here) [
        | inl marked ↦ inl (ground arith)
        | inr e ↦ inr e
      ]
    ]

All-put_by :
    (P : ValueInfo → Type 0) (key : ValueInfo → String) (x : ValueInfo) (ys : List ValueInfo)
    → P x
    → All P ys
    → All P (put_by key x ys)
All-put_by P key x ys p a =
    All-append P (select (λ y. not (key y == key x)) ys) (x ∷ [])
      (All-of-select P (λ y. not (key y == key x)) ys a) (p, tt)

All-put_all :
    (P : ValueInfo → Type 0) (key : ValueInfo → String) (xs ys : List ValueInfo)
    → All P xs
    → All P ys
    → All P (put_all key xs ys)
unfolding put_all
All-put_all P key [] ys p a = a
All-put_all P key (x ∷ xs) ys p a =
    All-put_all P key xs (put_by key x ys) p.1 (All-put_by P key x ys p.0 a)

All-drop : {A : Type 0} (P : A → Type 0) (n : ℕ) (xs : List A) → All P xs → All P (drop n xs)
All-drop P zero xs h = h
All-drop P (suc n) [] h = tt
All-drop P (suc n) (x ∷ xs) h = All-drop P n xs h.1

module _ {V : Type 0} (o : Outside V) (ts : List TableConfig) where
  abbrev pub IsSynced : Stores V → Type 0
  IsSynced s = IndexOfMarked ts s.values

  created-OfMarked :
      (m : Option (List ValueInfo)) → IndexOfMarked ts m → IndexOfMarked ts (created m)
  created-OfMarked none h = tt
  created-OfMarked (some vs) h = h

  onto-OfMarked :
      (key : ValueInfo → String) (xs : List ValueInfo) (m : Option (List ValueInfo))
      → All (OfMarked ts) xs
      → IndexOfMarked ts m
      → IndexOfMarked ts (onto key xs m)
  onto-OfMarked key xs none a h = tt
  onto-OfMarked key xs (some ys) a h = All-put_all (OfMarked ts) key xs ys a h

  request_store-IsSynced :
      (f : Stores V → Stores V)
      → ((s : Stores V) → IsSynced s → IsSynced (f s))
      → Keeps IsSynced (request_store o f)
  unfolding request_store
  request_store-IsSynced f k = record {
    at = λ s h. settle-keeps IsSynced (o.accepts s.requests) f _ k h;
  }

  index_batches-IsSynced :
      (fuel : ℕ) (xs : List ValueInfo)
      → All (OfMarked ts) xs
      → Keeps IsSynced (send_batches o 20 (store_values o) fuel xs)
  unfolding send_batches store_values
  index_batches-IsSynced zero xs a = Keeps-pure tt
  index_batches-IsSynced (suc fuel) [] a = Keeps-pure tt
  index_batches-IsSynced (suc fuel) (x ∷ xs) a =
      Keeps-bind _ _
        (request_store-IsSynced (store_values o (take 20 (x ∷ xs))) (λ s h.
          onto-OfMarked _ (take 20 (x ∷ xs)) s.values (All-take (OfMarked ts) 20 (x ∷ xs) a) h))
        λ u. index_batches-IsSynced fuel (drop 20 (x ∷ xs)) (All-drop (OfMarked ts) 20 (x ∷ xs) a)

  All-value_info :
      (k : String) (vs : List Value) → IsMarked ts k → All (OfMarked ts) (map (value_info o k) vs)
  unfolding value_info
  All-value_info k [] h = tt
  All-value_info k (v ∷ vs) h = (h, All-value_info k vs h)

  values_if-OfMarked :
      (found : Option Bool) (c : ColumnInfo)
      → (found ≡ some true → IsMarked ts c.id)
      → Yields (All (OfMarked ts)) (values_if o found c)
  unfolding values_if
  values_if-OfMarked none c h = tt
  values_if-OfMarked (some false) c h = tt
  values_if-OfMarked (some true) c h =
      and_then-Yields (λ _. Unit {0}) (All (OfMarked ts)) (o.column_values c.table_id c.name 100000)
        _ (always _) (λ vs _. All-value_info c.id vs (h refl))

  no_setting : (k : String) → IsMarked ts k ⊎ (none ≡ some true) → IsMarked ts k
  no_setting k (inl h) = h
  no_setting k (inr e) = cc

  value_rows-OfMarked : (cs : List ColumnInfo) → Yields (All (OfMarked ts)) (value_rows o ts cs)
  unfolding value_rows
  value_rows-OfMarked [] = tt
  value_rows-OfMarked (c ∷ cs) =
      and_then-Yields (All (OfMarked ts)) (All (OfMarked ts)) (values_if o (sync_of ts c.id none) c)
        _
        (values_if-OfMarked (sync_of ts c.id none) c
          (λ e. no_setting c.id (sync_of-IsMarked ts c.id none e)))
        λ vs a.
          and_then-Yields (All (OfMarked ts)) (All (OfMarked ts)) (value_rows o ts cs) _
            (value_rows-OfMarked cs) (λ rest b. All-append (OfMarked ts) vs rest a b)

  pub save_values-IsSynced :
      (cs : List ColumnInfo) (s : Stores V) → IsSynced s → IsSynced (save_values o ts cs s).1
  unfolding save_values ensure_index index_values
  save_values-IsSynced cs s h =
      (Keeps-bind (ensure_index o) _ (request_store-IsSynced _ (λ s h. created-OfMarked s.values h))
          λ u. record {
            at = λ s h. continue_keeps IsSynced (value_rows o ts cs) _ s h λ vs e.
                (index_batches-IsSynced (length vs) vs (
                    Yields-ok (All (OfMarked ts)) (value_rows o ts cs) e
                      (value_rows-OfMarked cs))).at
                  s h;
          }).at
        s h
