-- ===== src/Worker/Artifacts/Serving.antt =====
-- What a request for a snapshot gets.
use incident_desk.Prelude.{
  All, Bool-cases, Exc, List, Option, Option-cases, Result, Result-cases, String, [], arith, err,
  if◌then◌else◌, inl, inr, nat_eq, none, ok, other_error, permission_error, refl, some,
  some-injective, string_eq, subst, true, ◌==◌, ◌∙◌, ◌∷◌, ◌≡◌, ◌⊎◌,
}
use incident_desk.Json.Defs.{Value}
use incident_desk.Worker.Artifacts.{
  Artifact, Store, checked_object, checked_row, find_object, find_row, get_artifact, is_available,
  is_ready,
}
use incident_desk.Worker.Artifacts.Integrity.{Intact, IsIntact, Operation, stored, stored-Intact}
use incident_desk.Worker.Contracts.{RunContext, object_eq, source_eq}
use incident_desk.Worker.Session.{Answer}

module _ (sha256 : String → String) (loads : String → Result Value) where
  find_row-found :
      (P : Artifact → Type 0) (k : String) (rows : List Artifact) (r : Artifact)
      → All P rows
      → find_row k rows ≡ some r
      → P r × (r.key ≡ k)
  unfolding find_row
  find_row-found P k [] r a h = cc
  find_row-found P k (x ∷ rows) r a h = elim (Bool-cases (x.key == k)) [
    | inl same ↦
        let e : x ≡ r =
          some-injective (subst (λ b. (if b then some x else find_row k rows) ≡ some r) same h) in
        (subst P e a.0, subst (λ y. y.key ≡ k) e ((string_eq.beq_iff x.key k).0 same))
    | inr other ↦
        find_row-found P k rows r a.1
          (subst (λ b. (if b then some x else find_row k rows) ≡ some r) other h)
  ]

  -- The row that a request finds belongs to it and is ready, and the text stored for it is as it was
  -- hashed; the request gets what the text says.
  pub record IsServed (run : RunContext) (scope : Answer) (k : String) (s : Store)
      (r : Result Value) : Type 0 where
    pub row_found : Artifact
    pub in_table : find_row k s.rows ≡ some row_found
    pub available : is_available sha256 run scope row_found ≡ true
    pub text : String
    pub in_store : find_object k s.objects ≡ some text
    pub same_digest : sha256 text ≡ row_found.digest
    pub loaded : r ≡ loads text

  -- The request fails with a call of its own, or is refused, or the object is gone, or it is served.
  abbrev pub Ends :
      RunContext
      → Answer
      → (query download : Result (Unit {0})) → String
      → Store
      → Result Value
      → Type 0
  Ends run scope query download k s r =
      ((e : Exc) × (r ≡ err e) × ((query ≡ err e) ⊎ (download ≡ err e)))
      ⊎ ((r ≡ err (permission_error "artifact_unavailable"))
          ⊎ ((r ≡ err (other_error "NoSuchKey")) ⊎ IsServed run scope k s r))

  is_available-ready :
      (run : RunContext) (scope : Answer) (r : Artifact)
      → is_available sha256 run scope r ≡ true
      → is_ready r.state ≡ true
  unfolding is_available
  is_available-ready run scope r h = ground arith

  module _ (run : RunContext) (scope : Answer) (query download : Result (Unit {0})) (k : String)
      (s : Store) where
    checked_object-Ends :
        (r : Artifact) (o : Option String)
        → find_row k s.rows ≡ some r
        → is_available sha256 run scope r ≡ true
        → r.key ≡ k
        → IsIntact sha256 s.objects r
        → find_object r.key s.objects ≡ o
        → Ends run scope query download k s (checked_object sha256 loads r download o)
    unfolding checked_object IsIntact
    checked_object-Ends r o f a e i h = elim (Result-cases download) [
      | inr (x, d) ↦ rw d (inl (x, refl, inr refl))
      | inl (u, d) ↦ elim (Option-cases o) [
        | inl gone ↦ rw (d, gone) (inr (inr (inl refl)))
        | inr (text, q) ↦
            let digest = i (is_available-ready run scope r a) text (h ∙ q) in
            rw (d, q)
              (rw ((string_eq.beq_iff (sha256 text) r.digest).1 digest) (
                inr (
                  inr (
                    inr (record {
                      row_found = r;
                      in_table = f;
                      available = a;
                      text = text;
                      in_store = subst (λ j. find_object j s.objects ≡ some text) e (h ∙ q);
                      same_digest = digest;
                      loaded = refl;
                    })))))
      ]
    ]

    checked_row-Ends :
        (o : Option Artifact)
        → find_row k s.rows ≡ o
        → Intact sha256 s
        → Ends run scope query download k s (checked_row sha256 loads run scope download s o)
    unfolding checked_row
    checked_row-Ends none f i = inr (inl refl)
    checked_row-Ends (some r) f i = elim (Bool-cases (is_available sha256 run scope r)) [
      | inr other ↦ rw other (inr (inl refl))
      | inl a ↦
          let (whole, e) = find_row-found (IsIntact sha256 s.objects) k s.rows r i.objects f in
          rw a (checked_object-Ends r (find_object r.key s.objects) f a e whole refl)
    ]

  -- After any history of puts and cleanups, whatever calls of the database or the object store failed
  -- in it and changed nothing, a request that is authorized fails with its own call of one of them, or
  -- is refused, or finds the object gone, or gets the snapshot of a row that is ready and has its task,
  -- team and watermark, with the digest that was recorded: it never finds the digest wrong.
  pub get_artifact-Ends :
      (history : List (Operation sha256)) (run : RunContext) (scope : Answer)
      (query download : Result (Unit {0})) (k : String)
      → Ends run scope query download k
          (stored sha256 history)
          (get_artifact sha256 loads run (ok scope) query download k (stored sha256 history))
  unfolding get_artifact
  get_artifact-Ends history run scope (err e) download k = inl (e, refl, inl refl)
  get_artifact-Ends history run scope (ok u) download k =
      checked_row-Ends run scope (ok u) download k (stored sha256 history)
        (find_row k (stored sha256 history).rows) refl (stored-Intact sha256 history)
