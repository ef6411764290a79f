-- ===== src/Worker/Artifacts/Integrity.antt =====
-- What is stored under a ready row is what was hashed, whatever fails and when.
use incident_desk.Prelude.{
  All, All-map, All-of-select, Bool-cases, List, NoRepeats, Result, String, [], ap, arith, contains,
  err, false, if◌then◌else◌, inl, inr, nat_eq, not, ok, refl, some, some-injective, string_eq,
  subst, sym, true, ℕ, ◌==◌, ◌∙◌, ◌∷◌, ◌≡◌,
}
use incident_desk.Json.Defs.{Value}
use incident_desk.Worker.Artifacts.{
  Artifact, CleanupCalls, Store, after_query, clean_up, cleanup, committed, delete_objects,
  expired_rows, find_object, insert_artifact, is_expired, is_ready, keys_of, mark_ready, put,
  put_key, put_object, put_scoped, raw_of, ready, set_ready, staged_row, without_object,
}
use incident_desk.Worker.Artifacts.Objects.{
  NoRepeats-select, delete_objects-shrink, find_object-without, mark_ready-absent,
}
use incident_desk.Worker.Contracts.{RunContext, object_eq, source_eq}
use incident_desk.Worker.Session.{Answer}

module _ (sha256 : String → String) where
  -- The object of a ready row, if it is still there, has the digest of the row.
  unfoldable pub IsIntact : List (String × String) → Artifact → Type 0
  IsIntact objects r =
      is_ready r.state ≡ true
      → (raw : String) → find_object r.key objects ≡ some raw
      → sha256 raw ≡ r.digest

  pub record Intact (s : Store) : Type 0 where
    pub objects : All (IsIntact s.objects) s.rows
    pub unique : NoRepeats (keys_of s.rows)

  IsIntact-put_object :
      (k raw : String) (objects : List (String × String)) (rows : List Artifact)
      → contains k (keys_of rows) ≡ false
      → All (IsIntact objects) rows
      → All (IsIntact ((k, raw) ∷ without_object k objects)) rows
  unfolding IsIntact find_object
  IsIntact-put_object k raw objects [] c a = tt
  IsIntact-put_object k raw objects (r ∷ rows) c a =
      let other : (k == r.key) ≡ false = ground arith in
      let back : (r.key == k) ≡ false =
        ground (arith, string_eq.beq_iff r.key k, string_eq.beq_iff k r.key) in
      (
        λ p raw' h. a.0 p raw' (
            sym (find_object-without r.key k objects back)
            ∙ subst
                (λ b.
                  (if b then some raw else find_object r.key (without_object k objects))
                  ≡ some raw')
                other h),
        IsIntact-put_object k raw objects rows (ground arith) a.1,
      )

  IsIntact-shrink :
      (objects fewer : List (String × String)) (rows : List Artifact)
      → ((k raw : String) → find_object k fewer ≡ some raw → find_object k objects ≡ some raw)
      → All (IsIntact objects) rows
      → All (IsIntact fewer) rows
  unfolding IsIntact
  IsIntact-shrink objects fewer rows f a =
      All-map _ _ rows (λ r i p raw h. i p raw (f r.key raw h)) a

  committed-Intact :
      (done ending : Result (Unit {0})) (count : ℕ) (rolled_back new : Store)
      → Intact rolled_back
      → Intact new
      → Intact (committed done ending count rolled_back new).1
  unfolding committed
  committed-Intact (err e) ending count rolled_back new i k = i
  committed-Intact (ok _) (err e) count rolled_back new i k = i
  committed-Intact (ok _) (ok _) count rolled_back new i k = k

  clean_up-Intact :
      (calls : CleanupCalls) (now days : ℕ) (s : Store)
      → Intact s
      → Intact (clean_up calls now days s).1
  unfolding clean_up
  clean_up-Intact calls now days s i =
      let ks = keys_of (expired_rows now days s.rows) in
      let fewer : All (IsIntact (delete_objects calls ks s.objects).1) s.rows =
        IsIntact-shrink s.objects (delete_objects calls ks s.objects).1 s.rows
          (λ k raw. delete_objects-shrink calls ks k s.objects raw) i.objects in
      committed-Intact _ calls.commit _ _ _ (record { objects = fewer; unique = i.unique })
        (record {
          objects = All-of-select _ (λ r. not (is_expired now days r)) s.rows fewer;
          unique = NoRepeats-select (λ r. not (is_expired now days r)) s.rows i.unique;
        })

  after_query-Intact :
      (r : Result (Unit {0})) (s : Store) (rest : Result ℕ × Store)
      → Intact s
      → Intact rest.1
      → Intact (after_query r s rest).1
  unfolding after_query
  after_query-Intact (err e) s rest i k = i
  after_query-Intact (ok _) s rest i k = k

  cleanup-Intact :
      (calls : CleanupCalls) (now days : ℕ) (s : Store)
      → Intact s
      → Intact (cleanup calls now days s).1
  unfolding cleanup
  cleanup-Intact calls now days s i =
      after_query-Intact calls.query s _ i (clean_up-Intact calls now days s i)

  module _ (run : RunContext) (scope : Answer) (unique : String) (now : ℕ) (v : Value) where
    abbrev pub new_key : String
    new_key = put_key sha256 run scope unique

    abbrev pub new_text : String
    new_text = raw_of sha256 v

    abbrev pub new_row : Artifact
    new_row = staged_row sha256 run scope unique now v

    -- The three states that a put can leave behind, if the new_key is new.
    abbrev pub inserted : Store → Store
    inserted s = record s { rows = new_row ∷ s.rows }

    abbrev pub uploaded : Store → Store
    uploaded s = put_object new_key new_text (inserted s)

    abbrev pub updated : Store → Store
    updated s = set_ready new_key (uploaded s)

    inserted-Intact :
        (s : Store) → contains new_key (keys_of s.rows) ≡ false → Intact s → Intact (inserted s)
    unfolding IsIntact
    inserted-Intact s c i = record {
      objects = ((λ p raw' h. cc), i.objects);
      unique = (c, i.unique);
    }

    uploaded-Intact :
        (s : Store) → contains new_key (keys_of s.rows) ≡ false → Intact s → Intact (uploaded s)
    unfolding IsIntact
    uploaded-Intact s c i = record {
      objects =
          ((λ p raw' h. cc), IsIntact-put_object new_key new_text s.objects s.rows c i.objects);
      unique = (c, i.unique);
    }

    pub find_object-first :
        (objects : List (String × String))
        → find_object new_key ((new_key, new_text) ∷ objects) ≡ some new_text
    unfolding find_object
    find_object-first objects = rw ((string_eq.beq_iff new_key new_key).1 refl) refl

    pub mark_ready-first :
        (rows : List Artifact)
        → contains new_key (keys_of rows) ≡ false
        → mark_ready new_key (new_row ∷ rows) ≡ record new_row { state = ready } ∷ rows
    unfolding mark_ready
    mark_ready-first rows c =
        rw ((string_eq.beq_iff new_key new_key).1 refl, mark_ready-absent new_key rows c) refl

    updated-Intact :
        (s : Store) → contains new_key (keys_of s.rows) ≡ false → Intact s → Intact (updated s)
    unfolding IsIntact
    updated-Intact s c i =
        let objects = (new_key, new_text) ∷ without_object new_key s.objects in
        subst (λ rows. Intact (record { rows = rows; objects = objects }))
          (sym (mark_ready-first s.rows c))
          (record {
            objects = (
              λ p raw' h.
                  ap sha256
                    (some-injective (sym h ∙ find_object-first (without_object new_key s.objects))),
              IsIntact-put_object new_key new_text s.objects s.rows c i.objects,
            );
            unique = (c, i.unique);
          })

    put_new-Intact :
        (upload update : Result (Unit {0})) (s : Store)
        → contains new_key (keys_of s.rows) ≡ false
        → Intact s
        → Intact (put_scoped sha256 run scope unique now upload update v s).1
    unfolding put_scoped insert_artifact
    put_new-Intact (err e) update s c i = rw c (inserted-Intact s c i)
    put_new-Intact (ok _) (err e) s c i = rw c (uploaded-Intact s c i)
    put_new-Intact (ok _) (ok _) s c i = rw c (updated-Intact s c i)

    put_scoped-Intact :
        (upload update : Result (Unit {0})) (s : Store)
        → Intact s
        → Intact (put_scoped sha256 run scope unique now upload update v s).1
    unfolding put_scoped insert_artifact
    put_scoped-Intact upload update s i = elim (Bool-cases (contains new_key (keys_of s.rows))) [
      | inl old ↦ rw old i
      | inr new ↦ put_new-Intact upload update s new i
    ]

  put-Intact :
      (run : RunContext) (scope : Result Answer) (unique : String) (now : ℕ)
      (upload update : Result (Unit {0})) (v : Value) (s : Store)
      → Intact s
      → Intact (put sha256 run scope unique now upload update v s).1
  unfolding put
  put-Intact run (ok scope) unique now upload update v s i =
      put_scoped-Intact run scope unique now v upload update s i
  put-Intact run (err e) unique now upload update v s i = i

  -- What is done to the store, with how the calls go.
  pub data Operation : Type 0 where
    puts :
        RunContext
        → Result Answer
        → (unique : String) (now : ℕ) (upload update : Result (Unit {0})) → Value
        → Operation
    cleans : CleanupCalls → (now days : ℕ) → Operation

  pub operate : Operation → Store → Store
  operate (puts run scope unique now upload update v) s =
      (put sha256 run scope unique now upload update v s).1
  operate (cleans calls now days) s = (cleanup calls now days s).1

  -- The store after a history of operations, the newest first.
  pub stored : List Operation → Store
  unfolding operate
  stored [] = record { rows = []; objects = [] }
  stored (o ∷ older) = operate o (stored older)

  pub stored-Intact : (history : List Operation) → Intact (stored history)
  unfolding stored operate
  stored-Intact [] = record { objects = tt; unique = tt }
  stored-Intact (puts run scope unique now upload update v ∷ older) =
      put-Intact run scope unique now upload update v (stored older) (stored-Intact older)
  stored-Intact (cleans calls now days ∷ older) =
      cleanup-Intact calls now days (stored older) (stored-Intact older)
