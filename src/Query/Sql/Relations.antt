-- ===== src/Query/Sql/Relations.antt =====
-- What accepted joins are like, described without the checks.
use incident_desk.Prelude.{
  All, Bool, Bool-cases, List, Option, Result, Result-cases, String, [], ap, arith, false, inl, inr,
  map, none, not, ok, refl, some, some-injective, string_eq, subst, sym, true, ◌&&◌, ◌||◌, ◌↔◌, ◌∷◌,
  ◌≡◌,
}
use incident_desk.Query.Sql.{
  SqlTree, by_key, check_columns, check_eq, check_join, check_on, check_select, check_sides,
  check_using, find_all, for_each, is_empty_list, is_known, key_of, names_only, shared_key,
  table_alias, uses_key, validate_relations,
}

pub for_each_iff :
    {A : Type 0} (check : A → Result (Unit {0})) (P : A → Type 0) (xs : List A)
    → ((x : A) → (check x ≡ ok tt) ↔ P x)
    → (for_each check xs ≡ ok tt) ↔ All P xs
unfolding for_each
for_each_iff check P [] f = ((λ h. tt), (λ h. refl))
for_each_iff check P (x ∷ xs) f = elim (Result-cases (check x)) [
  | inl (u, e) ↦
      rw (e, for_each)
        (
          (λ h. ((f x).0 e, (for_each_iff check P xs f).0 h)),
          (λ a. (for_each_iff check P xs f).1 a.1),
        )
  | inr (x', e) ↦ (
    (λ h. let q = (rw (e, for_each) at h) in cc q),
    (λ a. let h : check x ≡ ok tt = (f x).1 a.0 in cc),
  )
]

module _ {T : Type 0} (g : SqlTree T) where
  -- The two sides of an equation between columns of fact_order and of a dimension are its key.
  abbrev pub EqIsKeyed : T → T → Type 0
  EqIsKeyed sel q =
      (a b : T) (k : String)
      → g.this q ≡ some a
      → g.expression q ≡ some b
      → (g.is_column a && g.is_column b) ≡ true
      → shared_key (table_alias g sel a) (table_alias g sel b) ≡ some k
      → (g.name a ≡ k) × (g.name b ≡ k)

  -- USING has a column, and for a dimension its key only.
  abbrev pub UsesKey : T → Type 0
  UsesKey j =
      (is_empty_list g (g.args "using" j) ≡ false)
      × ((t : T) (k : String)
          → g.this j ≡ some t
          → g.is_table t ≡ true
          → key_of (g.name t) ≡ some k
          → map g.name (g.args "using" j) ≡ k ∷ [])

  -- A join has ON or USING, with the warehouse's keys.
  abbrev pub JoinIsKeyed : T → T → Type 0
  JoinIsKeyed sel j =
      ((on : T) → g.arg "on" j ≡ some on → All (EqIsKeyed sel) (find_all g g.is_eq on))
      × (g.arg "on" j ≡ none → UsesKey j)

  by_key_iff :
      (o : Option String) (a b : T)
      → (by_key g o a b ≡ ok tt) ↔ ((k : String) → o ≡ some k → (g.name a ≡ k) × (g.name b ≡ k))
  unfolding by_key
  by_key_iff none a b = ((λ h k e. cc), (λ h. refl))
  by_key_iff (some key) a b = (
    (λ h k e. ground (arith, string_eq.beq_iff (g.name a) key, string_eq.beq_iff (g.name b) key)),
    (λ f.
        ground
          (arith, f key refl, string_eq.beq_iff (g.name a) key, string_eq.beq_iff (g.name b) key)),
  )

  check_columns_iff :
      (sel a b : T)
      → (check_columns g sel a b ≡ ok tt) ↔ (
          (k : String)
          → (g.is_column a && g.is_column b) ≡ true
          → shared_key (table_alias g sel a) (table_alias g sel b) ≡ some k
          → (g.name a ≡ k) × (g.name b ≡ k))
  unfolding check_columns
  check_columns_iff sel a b =
      let keyed = by_key_iff (shared_key (table_alias g sel a) (table_alias g sel b)) a b in
      (
        (λ h k both. keyed.0 (ground arith) k),
        (λ f. elim (Bool-cases (g.is_column a && g.is_column b)) [
          | inl both ↦ ground (arith, keyed.1 (λ k e. f k both e))
          | inr other ↦ ground arith
        ]),
      )

  check_sides_iff :
      (sel : T) (o1 o2 : Option T)
      → (check_sides g sel o1 o2 ≡ ok tt)
        ↔ ((a b : T) → o1 ≡ some a → o2 ≡ some b → check_columns g sel a b ≡ ok tt)
  unfolding check_sides
  check_sides_iff sel (some x) (some y) = (
    (λ h a b p q.
        subst (λ c. check_columns g sel a c ≡ ok tt) (some-injective q)
          (subst (λ c. check_columns g sel c y ≡ ok tt) (some-injective p) h)),
    (λ f. f x y refl refl),
  )
  check_sides_iff sel none o2 = ((λ h a b p q. cc), (λ f. refl))
  check_sides_iff sel (some x) none = ((λ h a b p q. cc), (λ f. refl))

  check_eq_iff : (sel q : T) → (check_eq g sel q ≡ ok tt) ↔ EqIsKeyed sel q
  unfolding check_eq
  check_eq_iff sel q =
      let sides = check_sides_iff sel (g.this q) (g.expression q) in
      (
        (λ h a b k p r both e. (check_columns_iff sel a b).0 (sides.0 h a b p r) k both e),
        (λ f. sides.1 (λ a b p r. (check_columns_iff sel a b).1 (λ k both e. f a b k p r both e))),
      )

  names_only_iff :
      (xs : List String) (o : Option String)
      → (names_only g xs o ≡ true) ↔ ((k : String) × (o ≡ some k) × (xs ≡ k ∷ []))
  unfolding names_only
  names_only_iff [] o = ((λ h. cc), (λ r. cc (r.2)))
  names_only_iff (x ∷ []) none = ((λ h. cc), (λ r. cc (r.1)))
  names_only_iff (x ∷ []) (some k) = (
    (λ h. (k, refl, ap (λ y. y ∷ []) ((string_eq.beq_iff x k).0 h))),
    (λ r. (string_eq.beq_iff x k).1 (cc (r.1, r.2))),
  )
  names_only_iff (x ∷ y ∷ xs) none = ((λ h. cc), (λ r. cc (r.1)))
  names_only_iff (x ∷ y ∷ xs) (some k) = ((λ h. cc), (λ r. cc (r.2)))

  named_by_key :
      (b : Bool) (o : Option String) (xs : List String)
      → ((not b || not (is_known o) || names_only g xs o) ≡ true)
        ↔ ((k : String) → b ≡ true → o ≡ some k → xs ≡ k ∷ [])
  named_by_key false o xs = ((λ h k p q. cc), (λ f. refl))
  named_by_key true none xs = ((λ h k p q. cc), (λ f. refl))
  named_by_key true (some key) xs = (
    (λ h k p q. let r = (names_only_iff xs (some key)).0 h in cc (r.1, r.2, q)),
    (λ f. (names_only_iff xs (some key)).1 (key, refl, f key refl refl)),
  )

  uses_key_iff :
      (j : T) (o : Option T)
      → (uses_key g j o ≡ true) ↔ (
          (t : T) (k : String)
          → o ≡ some t
          → g.is_table t ≡ true
          → key_of (g.name t) ≡ some k
          → map g.name (g.args "using" j) ≡ k ∷ [])
  unfolding uses_key
  uses_key_iff j none = ((λ h t k e. cc), (λ f. refl))
  uses_key_iff j (some t) =
      let xs = map g.name (g.args "using" j) in
      (
        (λ h t' k e p q.
            let same = sym (some-injective e) in
            (named_by_key (g.is_table t) (key_of (g.name t)) xs).0 h k
              (subst (λ y. g.is_table y ≡ true) same p)
              (subst (λ y. key_of (g.name y) ≡ some k) same q)),
        (λ f. (named_by_key (g.is_table t) (key_of (g.name t)) xs).1 (λ k. f t k refl)),
      )

  check_using_iff : (j : T) → (check_using g j ≡ ok tt) ↔ UsesKey j
  unfolding check_using
  check_using_iff j =
      let uses = uses_key_iff j (g.this j) in
      ((λ h. (ground arith, uses.0 (ground arith))), (λ u. ground (arith, u.0, uses.1 u.1)))

  check_on_iff :
      (sel j : T) (o : Option T)
      → (check_on g sel j o ≡ ok tt) ↔ (
          ((on : T) → o ≡ some on → All (EqIsKeyed sel) (find_all g g.is_eq on))
          × (o ≡ none → UsesKey j))
  unfolding check_on
  check_on_iff sel j none = (
    (λ h. ((λ on e. cc), (λ e. (check_using_iff j).0 h))),
    (λ r. (check_using_iff j).1 (r.1 refl)),
  )
  check_on_iff sel j (some on) =
      let eqs =
        for_each_iff (check_eq g sel) (EqIsKeyed sel) (find_all g g.is_eq on) (check_eq_iff sel) in
      (
        (λ h. (
          (λ on' e.
              subst (λ y. All (EqIsKeyed sel) (find_all g g.is_eq y)) (some-injective e) (eqs.0 h)),
          (λ e. cc),
        )),
        (λ r. eqs.1 (r.0 on refl)),
      )

  -- Every join of the SELECT has the warehouse's keys.
  abbrev pub IsKeyed : T → Type 0
  IsKeyed sel = All (JoinIsKeyed sel) (g.args "joins" sel)

  check_select_iff : (sel : T) → (check_select g sel ≡ ok tt) ↔ IsKeyed sel
  unfolding check_select check_join
  check_select_iff sel =
      for_each_iff (check_join g sel) (JoinIsKeyed sel) (g.args "joins" sel)
        (λ j. check_on_iff sel j (g.arg "on" j))

  -- SQL is accepted exactly if it parses and every join of every SELECT in it has ON or USING: where
  -- ON equates a column of fact_order and one of a dimension, both are the dimension's key, and where
  -- there is USING only, on a dimension, it is that key.
  pub validate_relations_iff :
      (sql : String)
      → (validate_relations g sql ≡ ok tt)
        ↔ ((tree : T) × (g.parse_one sql ≡ ok tree) × All IsKeyed (find_all g g.is_select tree))
  unfolding validate_relations
  validate_relations_iff sql = (
    (λ h. elim (Result-cases (g.parse_one sql)) [
      | inl (tree, e) ↦ (
        tree,
        e,
        (for_each_iff (check_select g) IsKeyed (find_all g g.is_select tree) check_select_iff).0
            (rw e at h),
      )
      | inr (x, e) ↦ let q = (rw e at h) in cc q
    ]),
    (λ r. rw (r.1) (
        (for_each_iff (check_select g) IsKeyed (find_all g g.is_select r.0) check_select_iff).1
          r.2)),
  )
