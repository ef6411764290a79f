-- ===== src/Query/Merge/Joins.antt =====
-- The completion of a table by its key columns.
use incident_desk.Prelude.{
  Bool-cases, Exc, List, Result, Result-cases, String, [], and_then, ap, arith, contains,
  contains-append, err, false, included, included_append_left, included_of_contains, inl, inr,
  nat_eq, not, ok, ok-injective, refl, select, string_eq, subst, sym, true, ◌++◌, ◌==◌, ◌∙◌, ◌∷◌,
  ◌≡◌,
}
use incident_desk.Query.Merge.{ColumnInfo, Repository, column_ids, complete_table, with_keys}
use incident_desk.Worker.Contracts.{object_eq, source_eq}

true-false : {P : Type 0} → true ≡ false → P
true-false h = cc

differ :
    (a b : String) (known : List String)
    → contains a known ≡ false
    → contains b known ≡ true
    → (a == b) ≡ false
differ a b known n h = elim (Bool-cases (a == b)) [
  | inr other ↦ other
  | inl same ↦
      true-false (sym h ∙ subst (λ x. contains x known ≡ false) ((string_eq.beq_iff a b).0 same) n)
]

module _ (repo : Repository) where
  no_keys :
      {P : Type 0} {e : Exc} (table : String) (done : List ColumnInfo)
      → ◌≡◌ {A = Result (String × List ColumnInfo)} (err e) (ok (table, done))
      → P
  no_keys table done h = cc

  column_ids-append :
      (xs ys : List ColumnInfo)
      → column_ids repo (xs ++ ys) ≡ column_ids repo xs ++ column_ids repo ys
  column_ids-append [] ys = refl
  column_ids-append (x ∷ xs) ys = ap (λ l. x.id ∷ l) (column_ids-append xs ys)

  contains-missing :
      (a : String) (known : List String) (keys : List ColumnInfo)
      → contains a (column_ids repo keys) ≡ true
      → contains a known ≡ false
      → contains a (column_ids repo (select (λ k. not (contains k.id known)) keys)) ≡ true
  contains-missing a known [] h n = cc
  contains-missing a known (k ∷ keys) h n = elim (Bool-cases (contains k.id known)) [
    | inl old ↦
        let other : (a == k.id) ≡ false = differ a k.id known n old in
        rw old (contains-missing a known keys (ground arith) n)
    | inr new ↦ elim (Bool-cases (a == k.id)) [
      | inl same ↦ rw new (ground arith)
      | inr other ↦ rw new (ground (arith, contains-missing a known keys (ground arith) n))
    ]
  ]

  -- Every key column is there after the completion, and no column has gone.
  pub record IsComplete (table : String) (cs done : List ColumnInfo) : Type 0 where
    pub keys : List ColumnInfo
    pub are_keys : repo.key_columns table ≡ ok keys
    pub has_keys : included (column_ids repo keys) (column_ids repo done) ≡ true
    pub has_columns : included (column_ids repo cs) (column_ids repo done) ≡ true

  with_keys-contains :
      (a : String) (keys cs : List ColumnInfo)
      → contains a (column_ids repo keys) ≡ true
      → contains a (column_ids repo (with_keys repo keys cs)) ≡ true
  unfolding with_keys
  with_keys-contains a keys cs h =
      let missing = select (λ (k : ColumnInfo). not (contains k.id (column_ids repo cs))) keys in
      rw (column_ids-append cs missing) (
        ground (
          arith,
          contains-append a (column_ids repo cs) (column_ids repo missing),
          contains-missing a (column_ids repo cs) keys h,
        ))

  -- A table that the completion returns has all of its columns, and every column that is part of a
  -- primary or foreign key of it.
  pub complete_table-IsComplete :
      (table table' : String) (cs done : List ColumnInfo)
      → complete_table repo (table, cs) ≡ ok (table', done)
      → IsComplete table cs done
  unfolding complete_table
  complete_table-IsComplete table table' cs done h = elim (Result-cases (repo.key_columns table)) [
    | inr (e, q) ↦ no_keys table' done (
        sym (
          ap
            (λ (r : Result (List ColumnInfo)).
              and_then r (λ keys. ok (table, with_keys repo keys cs)))
            q)
        ∙ h)
    | inl (keys, q) ↦
        let e : with_keys repo keys cs ≡ done =
          ap (λ (p : String × List ColumnInfo). p.1)
            (ok-injective (
              sym (
                ap
                  (λ (r : Result (List ColumnInfo)).
                    and_then r (λ keys. ok (table, with_keys repo keys cs)))
                  q)
              ∙ h)) in
        subst (IsComplete table cs) e (record {
          keys = keys;
          are_keys = q;
          has_keys =
              included_of_contains (column_ids repo keys) _ (λ a m. with_keys-contains a keys cs m);
          has_columns =
              subst (λ l. included (column_ids repo cs) l ≡ true)
                (sym (
                  column_ids-append cs
                    (select (λ (k : ColumnInfo). not (contains k.id (column_ids repo cs))) keys)))
                (included_append_left (column_ids repo cs) _);
        })
  ]
