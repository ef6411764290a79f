-- ===== src/Worker/Report/Grounding.antt =====
-- What the deterministic report says cites the evidence of its bundle.
use incident_desk.Prelude.{
  All, All-append, All-of-select, List, String, [], included, nat_eq, select, string_eq, true, ◌++◌,
  ◌∷◌, ◌≡◌,
}
use incident_desk.Json.Defs.{Value}
use incident_desk.Worker.Assemble.Relations.{of_source}
use incident_desk.Worker.Assemble.Relations.Citations.{Known, Known-self, ids_of-included}
use incident_desk.Worker.Contracts.{
  ContextBundle, Evidence, Source, cluster, logs, object_eq, source_eq,
}
use incident_desk.Worker.Gather.Ledger.{Cites, evidence_ids}
use incident_desk.Worker.Report.{
  Candidate, candidate_if, candidates_of, log_candidates, log_terms, mentions, oom_candidate,
  probe_candidate, report,
}

module _ (ids : List String) where
  abbrev AreCited : List Candidate → Type 0
  AreCited = All (λ (c : Candidate). Cites ids c.evidence)

  candidate_if-AreCited :
      (text rule : String) (es : List String)
      → included es ids ≡ true
      → AreCited (candidate_if text rule es)
  unfolding candidate_if
  candidate_if-AreCited text rule [] h = tt
  candidate_if-AreCited text rule (id ∷ es) h = (record { some_cited = λ p. cc; all_known = h }, tt)

  mentions-included :
      (term : String) (es : List Evidence) → Known ids es → included (mentions term es) ids ≡ true
  unfolding mentions Known
  mentions-included term es k = ids_of-included ids (select _ es) (All-of-select _ _ es k)

  log_candidates-AreCited :
      (terms : List (String × String)) (es : List Evidence)
      → Known ids es
      → AreCited (log_candidates terms es)
  unfolding log_candidates
  log_candidates-AreCited [] es k = tt
  log_candidates-AreCited ((term, text) ∷ rest) es k =
      All-append _ (candidate_if text "日志直接观测支持候选；时间相关不证明因果。" (mentions term es))
        (log_candidates rest es)
        (candidate_if-AreCited text _ (mentions term es) (mentions-included term es k))
        (log_candidates-AreCited rest es k)

  candidates_of-AreCited : (es : List Evidence) → Known ids es → AreCited (candidates_of es)
  unfolding candidates_of oom_candidate probe_candidate Known
  candidates_of-AreCited es k =
      let part : (src : Source) → Known ids (of_source src es) = λ src. All-of-select _ _ es k in
      let oom = mentions "OOMKilled" (of_source cluster es) in
      let probe = mentions "Unhealthy" (of_source cluster es) in
      let terms = log_candidates log_terms (of_source logs es) in
      All-append _ (terms ++ oom_candidate oom) (probe_candidate probe)
        (All-append _ terms (oom_candidate oom)
          (log_candidates-AreCited log_terms (of_source logs es) (part logs))
          (candidate_if-AreCited _ _ oom (mentions-included "OOMKilled" _ (part cluster))))
        (candidate_if-AreCited _ _ probe (mentions-included "Unhealthy" _ (part cluster)))

-- Every candidate of a report cites evidence of its bundle, at least one.
pub report-candidates :
    (repr : Value → String) (b : ContextBundle)
    → All (λ (c : Candidate). Cites (evidence_ids b.evidence) c.evidence) (report repr b).candidates
unfolding report
report-candidates repr b =
    candidates_of-AreCited (evidence_ids b.evidence) b.evidence (Known-self b.evidence)
