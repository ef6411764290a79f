-- ===== src/Query/Routing/Decisions.antt =====
-- What a decision says.
-- Only the field of its kind is filled, and it is not blank.
use incident_desk.Prelude.{
  Bool, Bool-cases, Result, String, Yields, Yields-ok, err, false, inl, inr, nat_eq, ok, refl,
  string_eq, ◌==◌, ◌≡◌, ◌⊎◌,
}
use incident_desk.Json.Text.{strip}
use incident_desk.Query.Routing.{
  Decision, ModelDecision, ModelKind, RouteRequest, answer, chosen, clarification, filled,
  final_decision, investigation, meaningful, route_question, to_answer, to_clarification,
  to_context, to_investigation, to_warehouse, warehouse,
}
use incident_desk.Worker.Contracts.{object_eq, source_eq}

pub record IsMeaningful (d : Decision) : Type 0 where
  pub said : (strip (chosen d) == "") ≡ false
  pub only_answer : d.kind ≡ answer → (d.clarification ≡ "") × (d.question ≡ "")
  pub only_clarification : d.kind ≡ clarification → (d.answer ≡ "") × (d.question ≡ "")
  pub only_question :
      (d.kind ≡ warehouse) ⊎ (d.kind ≡ investigation) → (d.answer ≡ "") × (d.clarification ≡ "")

filled-IsMeaningful :
    (k : ModelKind) (content : String) (reset : Bool)
    → (strip (chosen (filled k content reset)) == "") ≡ false
    → IsMeaningful (filled k content reset)
unfolding filled
filled-IsMeaningful to_warehouse content reset h = record {
  said = h;
  only_answer = λ e. cc;
  only_clarification = λ e. cc;
  only_question = λ e. (refl, refl);
}
filled-IsMeaningful to_investigation content reset h = record {
  said = h;
  only_answer = λ e. cc;
  only_clarification = λ e. cc;
  only_question = λ e. (refl, refl);
}
filled-IsMeaningful to_clarification content reset h = record {
  said = h;
  only_answer = λ e. cc;
  only_clarification = λ e. (refl, refl);
  only_question = λ e. elim e [ inl p ↦ cc | inr p ↦ cc ];
}
filled-IsMeaningful to_answer content reset h = record {
  said = h;
  only_answer = λ e. (refl, refl);
  only_clarification = λ e. cc;
  only_question = λ e. elim e [ inl p ↦ cc | inr p ↦ cc ];
}
filled-IsMeaningful to_context content reset h = record {
  said = h;
  only_answer = λ e. (refl, refl);
  only_clarification = λ e. cc;
  only_question = λ e. elim e [ inl p ↦ cc | inr p ↦ cc ];
}

meaningful-Yields :
    (d : Decision)
    → ((strip (chosen d) == "") ≡ false → IsMeaningful d)
    → Yields IsMeaningful (meaningful d)
unfolding meaningful
meaningful-Yields d k = elim (Bool-cases (strip (chosen d) == "")) [
  | inl blank ↦ rw (Yields, blank) tt
  | inr said ↦ rw (Yields, said) (k said)
]

-- If there is a decision, the chosen field is not blank, and no other field is filled.
pub route_question-IsMeaningful :
    (r : RouteRequest) (model : Result ModelDecision) (f : Decision)
    → route_question r model ≡ ok f
    → IsMeaningful f
unfolding route_question
route_question-IsMeaningful r (err e) f h = cc
route_question-IsMeaningful r (ok d) f h =
    let m = final_decision r d in
    Yields-ok IsMeaningful (meaningful (filled m.kind m.content m.reset_context)) h (
      meaningful-Yields (filled m.kind m.content m.reset_context)
        (filled-IsMeaningful m.kind m.content m.reset_context))
