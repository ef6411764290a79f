-- ===== src/Query/Knowledge/Build/Search.antt =====
-- What the vector collections hold after a stage: a point for each text of each column or metric.
use incident_desk.Prelude.{
  List, String, [], ap, arith, continue-eq-ok, length, length-map, map, ok, refl, subst, ℕ, ◌++◌,
  ◌+◌, ◌∙◌, ◌∷◌, ◌≡◌, ◌≤◌,
}
use incident_desk.Query.Knowledge.{
  Entry, Outside, Point, Stores, column_texts, created, onto, zip_points,
}
use incident_desk.Query.Knowledge.Build.{
  draw, embed_all, embedding_text, ensure_columns_collection, entries, entries_from, point_id,
  save_column_info, store_columns, upsert_columns,
}
use incident_desk.Query.Knowledge.Build.Batches.{
  EmbedsEach, bind-ok, embed_all_lem, noted, request_store-ok, send_batches-onto,
}
use incident_desk.Query.Merge.{ColumnInfo}

zip_points-length :
    {V A : Type 0} (xs : List (Entry A)) (vs : List V) → length (zip_points xs vs) ≤ length xs
unfolding zip_points
zip_points-length [] vs = omega arith
zip_points-length (x ∷ xs) [] = omega arith
zip_points-length (x ∷ xs) (v ∷ vs) = omega (arith, zip_points-length xs vs)

module _ {V : Type 0} (o : Outside V) (e : String → V) where
  -- A point for each entry, with the vector of its text.
  pub embedded : {A : Type 0} → List (Entry A) → List (Point V A)
  embedded [] = []
  embedded (x ∷ xs) = record { id = x.id; vector = e x.text; payload = x.payload } ∷ embedded xs

  zip_points-embedded :
      {A : Type 0} (xs : List (Entry A))
      → zip_points xs (map e (map (embedding_text o) xs)) ≡ embedded xs
  unfolding zip_points embedded embedding_text
  zip_points-embedded [] = refl
  zip_points-embedded {A} (x ∷ xs) =
      let p : Point V A = record { id = x.id; vector = e x.text; payload = x.payload } in
      ap (λ r. p ∷ r) (zip_points-embedded xs)

  -- What is stored for one column from the uuid `n` on, described without the batches: a point for
  -- each text.
  pub text_points : ℕ → ColumnInfo → List String → List (Point V ColumnInfo)
  text_points n c [] = []
  text_points n c (t ∷ ts) =
      record { id = o.uuid n; vector = e t; payload = c } ∷ text_points (n + 1) c ts

  -- Each column has a point for its name, its description and each alias, in this order.
  pub column_points_from : ℕ → List ColumnInfo → List (Point V ColumnInfo)
  column_points_from n [] = []
  column_points_from n (c ∷ cs) =
      text_points n c (c.name ∷ c.description ∷ c.alias)
      ++ column_points_from (n + (2 + length c.alias)) cs

  embedded-append :
      {A : Type 0} (xs ys : List (Entry A)) → embedded (xs ++ ys) ≡ embedded xs ++ embedded ys
  unfolding embedded
  embedded-append [] ys = refl
  embedded-append {A} (x ∷ xs) ys =
      let p : Point V A = record { id = x.id; vector = e x.text; payload = x.payload } in
      ap (λ r. p ∷ r) (embedded-append xs ys)

  embedded-entries_from :
      (n : ℕ) (c : ColumnInfo) (ts : List String)
      → embedded (entries_from o n c ts) ≡ text_points n c ts
  unfolding embedded entries_from text_points
  embedded-entries_from n c [] = refl
  embedded-entries_from n c (t ∷ ts) =
      let p : Point V ColumnInfo = record { id = o.uuid n; vector = e t; payload = c } in
      ap (λ r. p ∷ r) (embedded-entries_from (n + 1) c ts)

  embedded-entries :
      (n : ℕ) (cs : List ColumnInfo)
      → embedded (entries o column_texts n cs) ≡ column_points_from n cs
  unfolding embedded entries column_points_from column_texts
  embedded-entries n [] = refl
  embedded-entries n (c ∷ cs) =
      let ts = c.name ∷ c.description ∷ c.alias in
      let same : n + length ts ≡ n + (2 + length c.alias) = omega arith in
      embedded-append (entries_from o n c ts) (entries o column_texts (n + length ts) cs)
      ∙ ap (λ r. r ++ embedded (entries o column_texts (n + length ts) cs))
          (embedded-entries_from n c ts)
      ∙ ap (λ r. text_points n c ts ++ r) (embedded-entries (n + length ts) cs)
      ∙ ap (λ k. text_points n c ts ++ column_points_from k cs) same

  -- If a save of columns returns, every column has a point for its name, for its description and for
  -- each alias, each with the vector of that text, as if all had been embedded and stored at once:
  -- the batches lose, mix up and repeat nothing. A later point takes the place of one with its uuid.
  -- The embedding service must answer each text of a batch of at most 20 with its vector.
  pub save_column_info_points :
      (cs : List ColumnInfo) (s : Stores V)
      → EmbedsEach o e
      → (save_column_info o cs s).0 ≡ ok tt
      → (save_column_info o cs s).1.column_points
        ≡ onto (point_id o) (column_points_from s.drawn cs) (created s.column_points)
  unfolding save_column_info upsert_columns store_columns ensure_columns_collection draw
  save_column_info_points cs s each h =
      let xs = entries o column_texts s.drawn cs in
      let s1 = record s { requests = s.requests + 1; column_points = created s.column_points } in
      let s2 = record s1 { drawn = s.drawn + length xs } in
      let rest = λ (vs : List V). upsert_columns o (zip_points xs vs) in
      let (u, q) =
        continue-eq-ok (ensure_columns_collection o s).0 _ (ensure_columns_collection o s).1 h in
      let made : ensure_columns_collection o s ≡ (ok tt, s1) = request_store-ok o _ s q in
      let (bs, embeds) =
        embed_all_lem o e (length xs) (map (embedding_text o) xs) s2 each
          (omega (arith, length-map (embedding_text o) xs)) in
      let whole : save_column_info o cs s
          ≡ rest (map e (map (embedding_text o) xs)) (noted o bs s2) =
        bind-ok (ensure_columns_collection o) _ made
        ∙ bind-ok (embed_all o (length xs) _) rest embeds in
      let ps = zip_points xs (map e (map (embedding_text o) xs)) in
      ap (λ r. r.1.column_points) whole
      ∙ send_batches-onto o 9 (point_id o) (store_columns o) (λ s. s.column_points) (λ ps s. refl)
          (λ n s. refl) (length ps) ps (noted o bs s2) (omega arith)
          (subst (λ r. r.0 ≡ ok tt) whole h)
      ∙ ap (λ r. onto (point_id o) r (created s.column_points))
          (zip_points-embedded xs ∙ embedded-entries s.drawn cs)
