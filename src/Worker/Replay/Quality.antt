-- ===== src/Worker/Replay/Quality.antt =====
-- What the grounding check of a replayed case finds.
use incident_desk.Prelude.{
  All, Bool, List, Result, String, Yields, [], all, arith, err, false, none, ok, ok-injective, refl,
  some, subst, true, ◌∷◌, ◌≡◌,
}
use incident_desk.Worker.Assemble.Finish.{OfBundle}
use incident_desk.Worker.Assemble.Grounding.{IsGrounded, assemble-Yields-IsGrounded}
use incident_desk.Worker.Contracts.{ContextBundle, Fact, RunContext, Source}
use incident_desk.Worker.Gather.Ledger.{Cites, evidence_ids}
use incident_desk.Worker.Replay.{
  Case, Checks, Offline, Variant, assemble_offline, checks_of, current, grounding_check,
  is_grounded, judged, offline, regressed, replay, varied,
}
use incident_desk.Worker.Report.{Candidate, report}
use incident_desk.Worker.Report.Grounding.{report-candidates}
use incident_desk.Worker.Session.{Page, World}

is_grounded-Cites : (ids cited : List String) → Cites ids cited → is_grounded ids cited ≡ true
unfolding is_grounded
is_grounded-Cites ids [] h = elim (h.some_cited refl) [ ]
is_grounded-Cites ids (x ∷ xs) h = h.all_known

all_grounded :
    {A : Type 0} (cited : A → List String) (ids : List String) (xs : List A)
    → All (λ x. Cites ids (cited x)) xs
    → all (λ x. is_grounded ids (cited x)) xs ≡ true
all_grounded cited ids [] h = refl
all_grounded cited ids (x ∷ xs) h =
    rw (is_grounded-Cites ids (cited x) h.0) (all_grounded cited ids xs h.1)

abbrev is_current : Variant → Bool
is_current current = true
is_current regressed = false

grounding_check-IsGrounded :
    (w : World) (run : RunContext) (b : ContextBundle) (variant : Variant)
    → IsGrounded (offline w run) b
    → grounding_check (varied variant (report w.repr b)) ≡ is_current variant
unfolding grounding_check varied report
grounding_check-IsGrounded w run b current h =
    rw (all_grounded (λ (f : Fact). f.evidence) (evidence_ids b.evidence) b.facts h.facts) (
      all_grounded (λ (c : Candidate). c.evidence) (evidence_ids b.evidence) _
        (report-candidates w.repr b))
grounding_check-IsGrounded w run b regressed h = ground arith

judged-grounding :
    (w : World) (c : Case) (variant : Variant) (r : Result (ContextBundle × List (Source × Page)))
    (s : Offline) (checks : Checks)
    → Yields (OfBundle (IsGrounded (offline w c.run))) r
    → judged w c variant r s ≡ ok checks
    → checks.grounding ≡ is_current variant
unfolding judged checks_of
judged-grounding w c variant (ok (b, records)) s checks h e =
    subst (λ (k : Checks). k.grounding ≡ is_current variant) (ok-injective e)
      (grounding_check-IsGrounded w c.run b variant h)
judged-grounding w c variant (err x) s checks h e = cc

-- Whatever was recorded, a replay that returns finds the report grounded in the current variant, and
-- finds the report of the regressed variant ungrounded: it tells the two variants apart.
pub replay-grounding :
    (w : World) (c : Case) (variant : Variant) (checks : Checks)
    → replay w c variant ≡ ok checks
    → checks.grounding ≡ is_current variant
unfolding replay assemble_offline
replay-grounding w c variant checks e =
    judged-grounding w c variant (assemble_offline w c).0 (assemble_offline w c).1 checks
      (assemble-Yields-IsGrounded (offline w c.run) none (some c.recording)
        (record { calls = 0; events = [] }))
      e
