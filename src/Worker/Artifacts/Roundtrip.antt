-- ===== src/Worker/Artifacts/Roundtrip.antt =====
-- What a put has stored, a get reads back.
use incident_desk.Prelude.{
  Bool-cases, Exc, Exec, Result, String, contains, err, false, inl, inr, nat_eq, ok, other_error,
  refl, string_eq, subst, sym, true, ℕ, ◌∙◌, ◌≡◌,
}
use incident_desk.Json.Defs.{Value}
use incident_desk.Json.Text.{dumps, sort_keys}
use incident_desk.Worker.Artifacts.{
  Pointer, Store, checked_object, checked_row, find_row, get_artifact, insert_artifact,
  is_available, keys_of, put, put_scoped, without_object,
}
use incident_desk.Worker.Artifacts.Integrity.{
  find_object-first, mark_ready-first, new_key, new_text, updated,
}
use incident_desk.Worker.Contracts.{RunContext, object_eq, source_eq}
use incident_desk.Worker.Session.{Answer}

module _ (sha256 : String → String) (run : RunContext) (scope : Answer) (unique : String) (now : ℕ)
    (v : Value) where
  abbrev pointer_key : Result Pointer → String
  pointer_key (ok p) = p.key
  pointer_key (err e) = ""

  put_raised :
      {P : Type 0} {e : Exc} (p : Pointer) (s s' : Store)
      → ◌≡◌ {A = Result Pointer × Store} (err e, s) (ok p, s')
      → P
  put_raised p s s' h = cc

  abbrev put_now : Exec Store Pointer
  put_now = put sha256 run (ok scope) unique now (ok tt) (ok tt) v

  put-old :
      (s : Store)
      → contains (new_key sha256 run scope unique now v) (keys_of s.rows) ≡ true
      → put_now s ≡ (err (other_error "UniqueViolation"), s)
  unfolding put put_scoped insert_artifact
  put-old s c = rw c refl

  put-new :
      (s : Store)
      → contains (new_key sha256 run scope unique now v) (keys_of s.rows) ≡ false
      → put_now s ≡ (
        ok (record {
          key = new_key sha256 run scope unique now v;
          sha256 = sha256 (new_text sha256 run scope unique now v);
        }),
        updated sha256 run scope unique now v s,
      )
  unfolding put put_scoped insert_artifact
  put-new s c = rw c refl

  module _ (loads : String → Result Value) where
    get-updated :
        (s : Store)
        → contains (new_key sha256 run scope unique now v) (keys_of s.rows) ≡ false
        → get_artifact sha256 loads run
            (ok scope)
            (ok tt)
            (ok tt)
            (new_key sha256 run scope unique now v)
            (updated sha256 run scope unique now v s)
          ≡ loads (dumps true (sort_keys v))
    unfolding get_artifact checked_row checked_object is_available find_row
    get-updated s c = rw (mark_ready-first sha256 run scope unique now v s.rows c) (
        rw
          (
            (string_eq.beq_iff (new_key sha256 run scope unique now v)
                  (new_key sha256 run scope unique now v)).1
                refl,
            (string_eq.beq_iff run.id run.id).1 refl,
            (string_eq.beq_iff scope.team scope.team).1 refl,
            (nat_eq.beq_iff scope.watermark scope.watermark).1 refl,
            find_object-first sha256 run scope unique now v
                (without_object (new_key sha256 run scope unique now v) s.objects),
            (string_eq.beq_iff (sha256 (new_text sha256 run scope unique now v))
                  (sha256 (new_text sha256 run scope unique now v))).1
                refl,
          )
          refl)

    -- What a put that returns has stored is what the same task then gets under the key that it was
    -- given, while its scope is the same and the calls of the get do not fail: the JSON text of the data, read back.
    pub get_artifact-put :
        (s s' : Store) (p : Pointer)
        → put_now s ≡ (ok p, s')
        → get_artifact sha256 loads run (ok scope) (ok tt) (ok tt) p.key s'
          ≡ loads (dumps true (sort_keys v))
    get_artifact-put s s' p h =
        elim (Bool-cases (contains (new_key sha256 run scope unique now v) (keys_of s.rows))) [
          | inl old ↦ put_raised p s s' (sym (put-old s old) ∙ h)
          | inr new ↦
              let e = sym (put-new s new) ∙ h in
              subst
                (λ (q : Result Pointer × Store).
                  get_artifact sha256 loads run (ok scope) (ok tt) (ok tt) (pointer_key q.0) q.1
                  ≡ loads (dumps true (sort_keys v)))
                e (get-updated s new)
        ]
