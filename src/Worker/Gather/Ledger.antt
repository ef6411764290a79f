-- ===== src/Worker/Gather/Ledger.antt =====
-- What the loop has gathered at any moment, also after an exception that a step has caught.
use incident_desk.Prelude.{
  All, All-append, All-map, Bool, Bool-cases, Exec, List, String, [], arith, contains,
  contains-append, continue_keeps, false, included, included_append_left, included_trans, inl, inr,
  map, nat_eq, ok, refl, string_eq, true, ◌++◌, ◌<>◌, ◌>>◌, ◌∷◌, ◌≡◌, ◌≢◌,
}
use incident_desk.Json.Defs.{Value, hashable, index, method_get, truthy}
use incident_desk.Worker.Contracts.{
  Evidence, Fact, PlanStep, Source, cluster, deployments, git, logs, object_eq, runbook, source_eq,
  source_name,
}
use incident_desk.Worker.Gather.Base.{Gather, Tools, add_missing, on_session, when_true}
use incident_desk.Worker.Gather.Row.{
  add_deployment_version, add_evidence, add_fact, add_log_version, add_row, add_rows, add_versions,
  check_owner, describe, evidence_of, fact_of, is_long, record_row,
}
use incident_desk.Worker.Session.{SourceRow}

abbrev pub evidence_ids : List Evidence → List String
evidence_ids = map (λ (e : Evidence). e.id)

-- An evidence with these ids is cited, and at least one is.
pub record Cites (ids : List String) (cited : List String) : Type 0 where
  pub some_cited : cited ≢ []
  pub all_known : included cited ids ≡ true

module _ {S : Type 0} (t : Tools S) where
  -- The evidence is what the loop makes of a row that passed the scope check.
  pub record IsBacked (e : Evidence) : Type 0 where
    pub row : SourceRow
    pub observed_at : String
    pub made : e ≡ evidence_of t e.source observed_at row
    pub own : check_owner t.run e.source row.content ≡ ok tt

  pub record Ledger (g : Gather S) : Type 0 where
    pub backed : All IsBacked g.evidence
    pub cited : All (λ (f : Fact). Cites (evidence_ids g.evidence) f.evidence) g.facts

  pub Ledger-same :
      (g h : Gather S) → h.evidence ≡ g.evidence → h.facts ≡ g.facts → Ledger g → Ledger h
  Ledger-same g h e f l = record { backed = rw e l.backed; cited = rw (e, f) l.cited }

  pub on_session-Ledger :
      {A : Type 0} (m : Exec S A) (g : Gather S) → Ledger g → Ledger (on_session m g).1
  unfolding on_session
  on_session-Ledger m g l = Ledger-same g _ refl refl l

  pub add_missing-Ledger : (text : String) (g : Gather S) → Ledger g → Ledger (add_missing text g).1
  unfolding add_missing
  add_missing-Ledger text g l = Ledger-same g _ refl refl l

  pub when_true_keeps :
      (P : Gather S → Type 0) (b : Bool) (m : Exec (Gather S) (Unit {0})) (g : Gather S)
      → P g
      → P (m g).1
      → P (when_true b m g).1
  unfolding when_true
  when_true_keeps P true m g h k = k
  when_true_keeps P false m g h k = h

  Cites-grow : (ids more cited : List String) → Cites ids cited → Cites (ids ++ more) cited
  Cites-grow ids more cited c = record {
    some_cited = c.some_cited;
    all_known = included_trans cited ids (ids ++ more) c.all_known (included_append_left ids more);
  }

  evidence_ids-append :
      (xs ys : List Evidence) → evidence_ids (xs ++ ys) ≡ evidence_ids xs ++ evidence_ids ys
  evidence_ids-append [] ys = refl
  evidence_ids-append (x ∷ xs) ys = rw (evidence_ids-append xs ys)

  -- A ledger in which the id is that of an evidence.
  abbrev Holds : String → Gather S → Type 0
  Holds id g = Ledger g × (contains id (evidence_ids g.evidence) ≡ true)

  add_evidence-Holds :
      (e : Evidence) (g : Gather S) → IsBacked e → Ledger g → Holds e.id (add_evidence t e g).1
  unfolding add_evidence
  add_evidence-Holds e g b l = (
    record {
      backed = All-append IsBacked g.evidence (e ∷ []) l.backed (b, tt);
      cited = rw (evidence_ids-append g.evidence (e ∷ [])) (
          All-map _ _ g.facts (λ f. Cites-grow (evidence_ids g.evidence) (e.id ∷ []) f.evidence)
            l.cited);
    },
    rw (evidence_ids-append g.evidence (e ∷ [])) (
        ground (
          arith,
          contains-append e.id (evidence_ids g.evidence) (e.id ∷ []),
          string_eq.beq_iff e.id e.id,
        )),
  )

  add_fact-Holds :
      (id : String) (f : Fact) (g : Gather S)
      → f.evidence ≡ id ∷ []
      → Holds id g
      → Holds id (add_fact t f g).1
  unfolding add_fact
  add_fact-Holds id f g e (l, m) = (
    record {
      backed = l.backed;
      cited =
          All-append _ g.facts (f ∷ []) l.cited
            (record { some_cited = rw e (λ p. cc); all_known = rw e (rw m refl) }, tt);
    },
    m,
  )

  add_log_version-Ledger : (v : Value) (g : Gather S) → Ledger g → Ledger (add_log_version t v g).1
  unfolding add_log_version
  add_log_version-Ledger v g l = elim (Bool-cases (hashable v)) [
    | inl e ↦ rw (e, add_log_version) (Ledger-same g _ refl refl l)
    | inr e ↦ rw (e, add_log_version) l
  ]

  add_deployment_version-Ledger :
      (v : Value) (g : Gather S) → Ledger g → Ledger (add_deployment_version t v g).1
  unfolding add_deployment_version
  add_deployment_version-Ledger v g l = elim (Bool-cases (hashable v)) [
    | inl e ↦ rw (e, add_deployment_version) (Ledger-same g _ refl refl l)
    | inr e ↦ rw (e, add_deployment_version) l
  ]

  add_versions-Ledger :
      (src : Source) (content : Value) (g : Gather S)
      → Ledger g
      → Ledger (add_versions t src content g).1
  unfolding add_versions
  add_versions-Ledger logs content g l =
      continue_keeps Ledger (method_get "release" content)
        (λ release. when_true (truthy release) (add_log_version t release)) g l
        (λ v _.
          when_true_keeps Ledger (truthy v) (add_log_version t v) g l
            (add_log_version-Ledger v g l))
  add_versions-Ledger deployments content g l =
      continue_keeps Ledger (index "version" content) (λ version. add_deployment_version t version)
        g l (λ v _. add_deployment_version-Ledger v g l)
  add_versions-Ledger git content g l = l
  add_versions-Ledger runbook content g l = l
  add_versions-Ledger cluster content g l = l

  evidence_of-IsBacked :
      (src : Source) (observed_at : String) (row : SourceRow)
      → check_owner t.run src row.content ≡ ok tt
      → IsBacked (evidence_of t src observed_at row)
  unfolding evidence_of
  evidence_of-IsBacked src observed_at row own = record {
    row = row;
    observed_at = observed_at;
    made = refl;
    own = own;
  }

  fact_of_cites :
      (step : PlanStep) (observed_at : String) (row : SourceRow) (text : String)
      → (fact_of t step row text).evidence ≡ (evidence_of t step.source observed_at row).id ∷ []
  unfolding fact_of evidence_of
  fact_of_cites step observed_at row text = refl

  record_row-Ledger :
      (step : PlanStep) (observed_at : String) (row : SourceRow) (g : Gather S)
      → check_owner t.run step.source row.content ≡ ok tt
      → Ledger g
      → Ledger (record_row t step observed_at row g).1
  unfolding record_row
  record_row-Ledger step observed_at row g own l =
      let e = evidence_of t step.source observed_at row in
      let h = add_evidence-Holds e g (evidence_of-IsBacked step.source observed_at row own) l in
      let g₁ = (add_evidence t e g).1 in
      continue_keeps Ledger (describe t.repr step.source row.content)
        (λ text. add_fact t (fact_of t step row text) >> add_versions t step.source row.content) g₁
        h.0
        λ text _.
          add_versions-Ledger step.source row.content (add_fact t (fact_of t step row text) g₁).1
            (add_fact-Holds e.id (fact_of t step row text) g₁
              (fact_of_cites step observed_at row text) h).0

  add_row-Ledger :
      (step : PlanStep) (observed_at : String) (row : SourceRow) (g : Gather S)
      → Ledger g
      → Ledger (add_row t step observed_at row g).1
  unfolding add_row
  add_row-Ledger step observed_at row g l =
      let note =
        when_true (is_long t row)
          (add_missing {S = S} (source_name step.source <> ": evidence snippet truncated")) in
      let l' = when_true_keeps Ledger (is_long t row) _ g l (add_missing-Ledger _ g l) in
      continue_keeps Ledger (check_owner t.run step.source row.content)
        (λ _. note >> record_row t step observed_at row) g l
        λ _ own.
          continue_keeps Ledger (note g).0 (λ _. record_row t step observed_at row) (note g).1 l'
            λ _ _. record_row-Ledger step observed_at row (note g).1 own l'

  pub add_rows-Ledger :
      (step : PlanStep) (observed_at : String) (rows : List SourceRow) (g : Gather S)
      → Ledger g
      → Ledger (add_rows t step observed_at rows g).1
  unfolding add_rows
  add_rows-Ledger step observed_at [] g l = l
  add_rows-Ledger step observed_at (row ∷ rest) g l =
      let l' = add_row-Ledger step observed_at row g l in
      continue_keeps Ledger (add_row t step observed_at row g).0
        (λ _. add_rows t step observed_at rest) (add_row t step observed_at row g).1 l'
        λ _ _. add_rows-Ledger step observed_at rest _ l'
