-- ===== src/Worker/Artifacts/Objects.antt =====
-- The object store and the rows: what a deletion and an update leave.
use incident_desk.Prelude.{
  Bool, Bool-cases, List, NoRepeats, Result, String, [], ap, arith, contains, err, false, inl, inr,
  nat_eq, none, ok, refl, select, some, string_eq, subst, sym, ◌==◌, ◌∙◌, ◌∷◌, ◌≡◌,
}
use incident_desk.Worker.Artifacts.{
  Artifact, CleanupCalls, after_removal, delete_objects, find_object, keys_of, mark_ready,
  without_object,
}
use incident_desk.Worker.Contracts.{object_eq, source_eq}

none-some : {A P : Type 0} {a : A} → none ≡ some a → P
none-some h = cc

pub find_object-without :
    (k j : String) (objects : List (String × String))
    → (k == j) ≡ false
    → find_object k (without_object j objects) ≡ find_object k objects
unfolding find_object without_object
find_object-without k j [] e = refl
find_object-without k j ((i, raw) ∷ rest) e = elim (Bool-cases (i == j)) [
  | inl gone ↦
      let o : (i == k) ≡ false =
        ground (arith, string_eq.beq_iff i j, string_eq.beq_iff i k, string_eq.beq_iff k j) in
      rw gone (rw o (find_object-without k j rest e))
  | inr kept ↦ elim (Bool-cases (i == k)) [
    | inl same ↦ rw kept (rw same refl)
    | inr other ↦ rw kept (rw other (find_object-without k j rest e))
  ]
]

find_object-gone :
    (k : String) (objects : List (String × String))
    → find_object k (without_object k objects) ≡ none
unfolding find_object without_object
find_object-gone k [] = refl
find_object-gone k ((i, raw) ∷ rest) = elim (Bool-cases (i == k)) [
  | inl gone ↦ rw gone (find_object-gone k rest)
  | inr kept ↦ rw kept (rw kept (find_object-gone k rest))
]

-- Objects that are there after a deletion were there before it.
find_object-shrink :
    (k j : String) (objects : List (String × String)) (raw : String)
    → find_object k (without_object j objects) ≡ some raw
    → find_object k objects ≡ some raw
find_object-shrink k j objects raw h = elim (Bool-cases (k == j)) [
  | inl same ↦ none-some (
      sym (
        subst (λ i. find_object k (without_object i objects) ≡ none)
          ((string_eq.beq_iff k j).0 same) (find_object-gone k objects))
      ∙ h)
  | inr other ↦ sym (find_object-without k j objects other) ∙ h
]

-- Whatever fails, the objects after the calls for a key are those before them, or without it, or
-- those that the calls for the other keys leave.
after_removal-keeps :
    (P : List (String × String) → Type 0) (remove delete : Result (Unit {0}))
    (same fewer : List (String × String)) (rest : Result (Unit {0}) × List (String × String))
    → P same
    → P fewer
    → P rest.1
    → P (after_removal remove delete same fewer rest).1
unfolding after_removal
after_removal-keeps P (err e) delete same fewer rest a b c = a
after_removal-keeps P (ok _) (err e) same fewer rest a b c = b
after_removal-keeps P (ok _) (ok _) same fewer rest a b c = c

pub delete_objects-shrink :
    (calls : CleanupCalls) (ks : List String) (k : String) (objects : List (String × String))
    (raw : String)
    → find_object k (delete_objects calls ks objects).1 ≡ some raw
    → find_object k objects ≡ some raw
unfolding delete_objects
delete_objects-shrink calls [] k objects raw = λ h. h
delete_objects-shrink calls (j ∷ ks) k objects raw =
    after_removal-keeps (λ left. find_object k left ≡ some raw → find_object k objects ≡ some raw)
      (calls.remove j) (calls.delete j) objects (without_object j objects)
      (delete_objects calls ks (without_object j objects)) (λ h. h)
      (find_object-shrink k j objects raw)
      (λ h.
        find_object-shrink k j objects raw
          (delete_objects-shrink calls ks k (without_object j objects) raw h))

pub mark_ready-absent :
    (k : String) (rows : List Artifact)
    → contains k (keys_of rows) ≡ false
    → mark_ready k rows ≡ rows
unfolding mark_ready
mark_ready-absent k [] h = refl
mark_ready-absent k (r ∷ rows) h =
    let other : (r.key == k) ≡ false =
      ground (arith, string_eq.beq_iff r.key k, string_eq.beq_iff k r.key) in
    rw other (ap (λ l. r ∷ l) (mark_ready-absent k rows (ground arith)))

pub keys_of-select :
    (p : Artifact → Bool) (k : String) (rows : List Artifact)
    → contains k (keys_of rows) ≡ false
    → contains k (keys_of (select p rows)) ≡ false
keys_of-select p k [] h = refl
keys_of-select p k (r ∷ rows) h = elim (Bool-cases (p r)) [
  | inl kept ↦ rw kept (ground (arith, keys_of-select p k rows))
  | inr gone ↦ rw gone (keys_of-select p k rows (ground arith))
]

pub NoRepeats-select :
    (p : Artifact → Bool) (rows : List Artifact)
    → NoRepeats (keys_of rows)
    → NoRepeats (keys_of (select p rows))
NoRepeats-select p [] h = tt
NoRepeats-select p (r ∷ rows) h = elim (Bool-cases (p r)) [
  | inl kept ↦ rw kept (keys_of-select p r.key rows h.0, NoRepeats-select p rows h.1)
  | inr gone ↦ rw gone (NoRepeats-select p rows h.1)
]
