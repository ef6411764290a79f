-- ===== src/Query/Merge/Growth.antt =====
-- What the stages of the merge keep of the columns and their examples.
use incident_desk.Prelude.{
  Bool-cases, List, NoRepeats, Option, String, [], arith, contains, false, if◌then◌else◌, inl, inr,
  nat_eq, refl, some, some-injective, string_eq, subst, sym, true, ◌++◌, ◌==◌, ◌||◌, ◌∙◌, ◌∷◌, ◌≡◌,
}
use incident_desk.Json.Defs.{
  Fields, Items, Value, array, boolean, dict, field, int, item, no_fields, no_items, null, real,
  same_fields, same_items, same_value, string,
}
use incident_desk.Query.Merge.{
  ColumnInfo, Columns, ValueInfo, find_column, has_value, ids, set_column, with_value,
}
use incident_desk.Worker.Contracts.{object_eq, source_eq}

pub ids-set_column :
    (a k : String) (c : Option ColumnInfo) (m : Columns)
    → contains a (ids (set_column k c m)) ≡ (contains a (ids m) || a == k)
unfolding set_column
ids-set_column a k c [] = ground arith
ids-set_column a k c ((j, d) ∷ m) = elim (Bool-cases (j == k)) [
  | inl same ↦
      rw same (ground (arith, string_eq.beq_iff j k, string_eq.beq_iff a j, string_eq.beq_iff a k))
  | inr other ↦ rw other (ground (arith, ids-set_column a k c m))
]

pub NoRepeats-set_column :
    (k : String) (c : Option ColumnInfo) (m : Columns)
    → NoRepeats (ids m)
    → NoRepeats (ids (set_column k c m))
unfolding set_column
NoRepeats-set_column k c [] n = (refl, tt)
NoRepeats-set_column k c ((j, d) ∷ m) n = elim (Bool-cases (j == k)) [
  | inl same ↦ rw same n
  | inr other ↦ rw other (ground (arith, ids-set_column j k c m), NoRepeats-set_column k c m n.1)
]

pub find_column-same :
    (k : String) (c : Option ColumnInfo) (m : Columns) → find_column k (set_column k c m) ≡ c
unfolding find_column set_column
find_column-same k c [] = rw ((string_eq.beq_iff k k).1 refl) refl
find_column-same k c ((j, d) ∷ m) = elim (Bool-cases (j == k)) [
  | inl same ↦ rw same (rw same refl)
  | inr other ↦ rw other (rw other (find_column-same k c m))
]

pub find_column-other :
    (k j : String) (c : Option ColumnInfo) (m : Columns)
    → (j == k) ≡ false
    → find_column k (set_column j c m) ≡ find_column k m
unfolding find_column set_column
find_column-other k j c [] h = rw h refl
find_column-other k j c ((i, d) ∷ m) h = elim (Bool-cases (i == j)) [
  | inl same ↦
      let o : (i == k) ≡ false =
        ground (arith, string_eq.beq_iff i j, string_eq.beq_iff i k, string_eq.beq_iff j k) in
      rw same (rw o refl)
  | inr other ↦ elim (Bool-cases (i == k)) [
    | inl mine ↦ rw other (rw mine refl)
    | inr yours ↦ rw other (rw yours (find_column-other k j c m h))
  ]
]

pub find_column-known :
    (k : String) (c : ColumnInfo) (m : Columns)
    → find_column k m ≡ some c
    → contains k (ids m) ≡ true
unfolding find_column
find_column-known k c [] h = cc
find_column-known k c ((j, d) ∷ m) h = elim (Bool-cases (j == k)) [
  | inl same ↦ ground (arith, string_eq.beq_iff j k, string_eq.beq_iff k j)
  | inr other ↦
      let rest =
        find_column-known k c m
          (subst (λ b. (if b then d else find_column k m) ≡ some c) other h) in
      ground arith
]

has_value-append :
    (v : Value) (xs ys : List Value) → has_value v (xs ++ ys) ≡ (has_value v xs || has_value v ys)
unfolding has_value
has_value-append v [] ys = refl
has_value-append v (x ∷ xs) ys = ground (arith, has_value-append v xs ys)

-- The value is an example of its column.
pub record Shows (m : Columns) (v : ValueInfo) : Type 0 where
  pub column : ColumnInfo
  pub found : find_column v.column_id m ≡ some column
  pub shown : has_value v.value column.examples ≡ true

has_value-with_value :
    (v w : Value) (c : ColumnInfo)
    → has_value v c.examples ≡ true
    → has_value v (with_value w c).examples ≡ true
unfolding with_value
has_value-with_value v w c h = elim (Bool-cases (has_value w c.examples)) [
  | inl old ↦ rw old h
  | inr new ↦ rw new (ground (arith, has_value-append v c.examples (w ∷ [])))
]

mutual
  unfolding same_value same_items same_fields

  same_value_refl : (v : Value) → same_value v v ≡ true
  same_value_refl null = refl
  same_value_refl (boolean true) = refl
  same_value_refl (boolean false) = refl
  same_value_refl (int n) = (nat_eq.beq_iff n n).1 refl
  same_value_refl (real t) = (string_eq.beq_iff t t).1 refl
  same_value_refl (string s) = (string_eq.beq_iff s s).1 refl
  same_value_refl (array xs) = same_items_refl xs
  same_value_refl (dict fs) = same_fields_refl fs

  same_items_refl : (xs : Items) → same_items xs xs ≡ true
  same_items_refl no_items = refl
  same_items_refl (item v xs) = ground (arith, same_value_refl v, same_items_refl xs)

  same_fields_refl : (fs : Fields) → same_fields fs fs ≡ true
  same_fields_refl no_fields = refl
  same_fields_refl (field k v fs) =
      ground (arith, string_eq.beq_iff k k, same_value_refl v, same_fields_refl fs)

pub with_value-shown : (v : Value) (c : ColumnInfo) → has_value v (with_value v c).examples ≡ true
unfolding with_value has_value
with_value-shown v c = elim (Bool-cases (has_value v c.examples)) [
  | inl old ↦ rw old old
  | inr new ↦ rw new (ground (arith, has_value-append v c.examples (v ∷ []), same_value_refl v))
]

-- What a later stage keeps of an earlier one.
pub record Grows (m m' : Columns) : Type 0 where
  pub ids_kept : (a : String) → contains a (ids m) ≡ true → contains a (ids m') ≡ true
  pub once_kept : NoRepeats (ids m) → NoRepeats (ids m')
  pub shown_kept : (v : ValueInfo) → Shows m v → Shows m' v

pub Grows-refl : (m : Columns) → Grows m m
Grows-refl m = record { ids_kept = λ a h. h; once_kept = λ h. h; shown_kept = λ v h. h }

pub Grows-trans : (m n p : Columns) → Grows m n → Grows n p → Grows m p
Grows-trans m n p g h = record {
  ids_kept = λ a k. h.ids_kept a (g.ids_kept a k);
  once_kept = λ k. h.once_kept (g.once_kept k);
  shown_kept = λ v k. h.shown_kept v (g.shown_kept v k);
}

pub set_column-new :
    (k : String) (c : Option ColumnInfo) (m : Columns)
    → contains k (ids m) ≡ false
    → Grows m (set_column k c m)
set_column-new k c m n = record {
  ids_kept = λ a h. ground (arith, ids-set_column a k c m);
  once_kept = NoRepeats-set_column k c m;
  shown_kept = λ v h.
      let known = find_column-known v.column_id h.column m h.found in
      let other : (k == v.column_id) ≡ false = ground (arith, string_eq.beq_iff k v.column_id) in
      record {
        column = h.column;
        found = find_column-other v.column_id k c m other ∙ h.found;
        shown = h.shown;
      };
}

pub set_column-value :
    (k : String) (w : Value) (c : ColumnInfo) (m : Columns)
    → find_column k m ≡ some c
    → Grows m (set_column k (some (with_value w c)) m)
set_column-value k w c m e = record {
  ids_kept = λ a h. ground (arith, ids-set_column a k (some (with_value w c)) m);
  once_kept = NoRepeats-set_column k (some (with_value w c)) m;
  shown_kept = λ v h. elim (Bool-cases (k == v.column_id)) [
    | inr other ↦ record {
      column = h.column;
      found = find_column-other v.column_id k (some (with_value w c)) m other ∙ h.found;
      shown = h.shown;
    }
    | inl same ↦
        let q : k ≡ v.column_id = (string_eq.beq_iff k v.column_id).0 same in
        let own : h.column ≡ c =
          some-injective (sym h.found ∙ subst (λ i. find_column i m ≡ some c) q e) in
        record {
          column = with_value w c;
          found =
              subst
                (λ i.
                  find_column i (set_column k (some (with_value w c)) m) ≡ some (with_value w c))
                q (find_column-same k (some (with_value w c)) m);
          shown =
              has_value-with_value v.value w c
                (subst (λ (x : ColumnInfo). has_value v.value x.examples ≡ true) own h.shown);
        }
  ];
}
