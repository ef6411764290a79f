-- ===== src/Worker/Report/Status.antt =====
-- The status under which a report is delivered.
-- There is a log, or an answer that cites evidence of the report.
use incident_desk.Prelude.{
  Bool, Bool-cases, List, String, [], any, contains, false, if◌then◌else◌, inl, inr, nat_eq, not,
  refl, string_eq, true, ◌&&◌, ◌==◌, ◌||◌, ◌↔◌, ◌∷◌, ◌≡◌,
}
use incident_desk.Worker.Assemble.Relations.{ids_of}
use incident_desk.Worker.Contracts.{Evidence, logs, object_eq, source_eq}
use incident_desk.Worker.Report.{by_gaps, report_status}

abbrev pub is_answered : List Evidence → List String → Bool
is_answered evidence answer_evidence =
    any (λ (e : Evidence). e.source == logs) evidence
    || any (λ id. contains id (ids_of evidence)) answer_evidence

cons-nil : {P : Type 0} {x : String} {xs : List String} → x ∷ xs ≡ [] → P
cons-nil h = cc

-- A report is completed if it has a log or a grounded answer and nothing is missing, partial if
-- something is missing, and waits for information if it has neither a log nor a grounded answer.
pub report_status_cases :
    (evidence : List Evidence) (answer_evidence missing : List String)
    → ((report_status evidence answer_evidence missing ≡ "completed")
        ↔ ((is_answered evidence answer_evidence ≡ true) × (missing ≡ [])))
      × ((report_status evidence answer_evidence missing ≡ "waiting_information")
          ↔ (is_answered evidence answer_evidence ≡ false))
unfolding report_status by_gaps
report_status_cases evidence answer_evidence [] =
    elim (Bool-cases (any (λ (e : Evidence). e.source == logs) evidence)) [
      | inl l ↦ rw l ((λ h. (refl, refl), λ h. refl), (λ h. cc, λ h. cc))
      | inr l ↦ elim (Bool-cases (any (λ id. contains id (ids_of evidence)) answer_evidence)) [
        | inl a ↦ rw (l, a) ((λ h. (refl, refl), λ h. refl), (λ h. cc, λ h. cc))
        | inr a ↦ rw (l, a) ((λ h. cc, λ h. cc), (λ h. refl, λ h. refl))
      ]
    ]
report_status_cases evidence answer_evidence (x ∷ missing) =
    elim (Bool-cases (any (λ (e : Evidence). e.source == logs) evidence)) [
      | inl l ↦ rw l ((λ h. cc, λ h. cons-nil h.1), (λ h. cc, λ h. cc))
      | inr l ↦ elim (Bool-cases (any (λ id. contains id (ids_of evidence)) answer_evidence)) [
        | inl a ↦ rw (l, a) ((λ h. cc, λ h. cons-nil h.1), (λ h. cc, λ h. cc))
        | inr a ↦ rw (l, a) ((λ h. cc, λ h. cc), (λ h. refl, λ h. refl))
      ]
    ]

abbrev pub statuses : List String
statuses = "completed" ∷ "partial" ∷ "waiting_information" ∷ []

by_either :
    (b : Bool) (missing : List String)
    → contains (if b then "waiting_information" else by_gaps missing) statuses ≡ true
unfolding by_gaps
by_either true missing = refl
by_either false [] = refl
by_either false (x ∷ missing) = refl

pub report_status-statuses :
    (evidence : List Evidence) (answer_evidence missing : List String)
    → contains (report_status evidence answer_evidence missing) statuses ≡ true
unfolding report_status
report_status-statuses evidence answer_evidence missing =
    by_either
      (not (any (λ (e : Evidence). e.source == logs) evidence)
        && not (any (λ id. contains id (ids_of evidence)) answer_evidence))
      missing
