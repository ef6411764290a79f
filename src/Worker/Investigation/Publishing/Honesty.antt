-- ===== src/Worker/Investigation/Publishing/Honesty.antt =====
-- What an investigation publishes cites evidence, and denies no hits.
use incident_desk.Prelude.{
  All, All-append, All-of-select, All-take, Bool, Bool-cases, List, Result-cases, String, Yields,
  [], all, arith, continue-Yields, false, included, included_trans, inl, inr, leb, length, map,
  nat_eq, ok, ok-injective, refl, string_eq, subst, take, true, ℕ, ◌<>◌, ◌∷◌, ◌≡◌, ◌≢◌, ◌⊎◌,
}
use incident_desk.Json.Defs.{Value}
use incident_desk.Worker.Assemble.Relations.{ids_of}
use incident_desk.Worker.Assemble.Relations.Citations.{Known, Known-self, ids_of-included}
use incident_desk.Worker.Contracts.{ContextBundle, object_eq, source_eq}
use incident_desk.Worker.Gather.Ledger.{Cites, evidence_ids}
use incident_desk.Worker.Investigation.{
  Claim, Model, ModelAnswer, allowed, chat_request, complete, fit,
}
use incident_desk.Worker.Investigation.Publishing.{
  Investigation, answer_ok, by_evidence, by_model, candidate_of, checked_answer, cites_only,
  claim_ok, contradicts, first_logs, grounded, guard_payload, investigate, joined, messages_of,
  model_call_left, publish, validated,
}
use incident_desk.Worker.Report.{Candidate, report}
use incident_desk.Worker.Report.Grounding.{report-candidates}
use incident_desk.Worker.Session.{Session, World, authorize, event}

module _ (w : World) (m : Model) (b : ContextBundle) where
  -- The answer denies no hits, or it is the report's with the messages of the first logs.
  abbrev pub IsTruthful : Investigation → Type 0
  IsTruthful r =
      (contradicts b r.answer ≡ ok false)
      ⊎ ((texts : List String) × (messages_of w.repr (first_logs b) ≡ ok texts)
          × (r.answer ≡ (report w.repr b).answer <> " 代表日志：" <> joined texts)
          × (r.answer_evidence ≡ ids_of (first_logs b))
          × (r.candidates ≡ (report w.repr b).candidates))

  -- All that is cited is evidence of the bundle, and every candidate cites some.
  pub record IsHonest (r : Investigation) : Type 0 where
    pub known : included r.answer_evidence (evidence_ids b.evidence) ≡ true
    pub cited : All (λ (c : Candidate). Cites (evidence_ids b.evidence) c.evidence) r.candidates
    pub truthful : IsTruthful r

  allowed-Known : Known (evidence_ids b.evidence) (allowed b)
  unfolding allowed Known
  allowed-Known =
      let known = Known-self b.evidence in
      All-append _ (take 10 _) (take 30 _) (All-take _ 10 _ (All-of-select _ _ b.evidence known))
        (All-take _ 30 _ (All-of-select _ _ b.evidence known))

  ids_known : (n : ℕ) → included (ids_of (take n (allowed b))) (evidence_ids b.evidence) ≡ true
  unfolding Known
  ids_known n =
      ids_of-included (evidence_ids b.evidence) (take n (allowed b))
        (All-take _ n (allowed b) allowed-Known)

  not_empty : (c : Claim) → claim_ok c ≡ true → c.evidence ≢ []
  unfolding claim_ok
  not_empty c h p =
      let k : leb 1 (length c.evidence) ≡ true = ground arith in let q = (rw p at k) in cc q

  candidates_of_claims :
      (cs : List Claim) (ids : List String)
      → all claim_ok cs ≡ true
      → all (λ (c : Claim). included c.evidence ids) cs ≡ true
      → included ids (evidence_ids b.evidence) ≡ true
      → All (λ (c : Candidate). Cites (evidence_ids b.evidence) c.evidence) (map candidate_of cs)
  unfolding claim_ok candidate_of
  candidates_of_claims [] ids h k i = tt
  candidates_of_claims (c ∷ cs) ids h k i = (
    record {
      some_cited = λ p. not_empty c (ground arith) p;
      all_known = included_trans c.evidence ids (evidence_ids b.evidence) (ground arith) i;
    },
    candidates_of_claims cs ids (ground arith) (ground arith) i,
  )

  publish-IsHonest :
      (n : ℕ) (a : ModelAnswer) (usage : Value) (d : Bool) (s : Session)
      → answer_ok a ≡ true
      → cites_only (ids_of (take n (allowed b))) a ≡ true
      → contradicts b a.answer ≡ ok d
      → Yields IsHonest (publish w m b n a usage d s).0
  unfolding publish by_model by_evidence joined cites_only answer_ok event Known
  publish-IsHonest n a usage true s p c d =
      continue-Yields IsHonest (messages_of w.repr (first_logs b)) _ s λ texts e.
        let (r, s') = event w "model_answer_guard" (guard_payload b) s in
        continue-Yields IsHonest r _ s' λ u k. record {
          known =
              ids_of-included (evidence_ids b.evidence) (first_logs b)
                (All-take _ 3 _ (All-of-select _ _ b.evidence (Known-self b.evidence)));
          cited = report-candidates w.repr b;
          truthful = inr (texts, e, refl, refl, refl);
        }
  publish-IsHonest n a usage false s p c d = record {
    known =
        included_trans a.answer_evidence (ids_of (take n (allowed b))) (evidence_ids b.evidence)
          (ground arith) (ids_known n);
    cited =
        candidates_of_claims a.claims (ids_of (take n (allowed b))) (ground arith) (ground arith)
          (ids_known n);
    truthful = inl d;
  }

  validated_ok : (v : Value) (a : ModelAnswer) → validated m v ≡ ok a → answer_ok a ≡ true
  unfolding validated
  validated_ok v a h = elim (Result-cases (m.decode v)) [
    | inr (x, e) ↦ let q = (rw e at h) in cc q
    | inl (a', e) ↦ elim (Bool-cases (answer_ok a')) [
      | inr k ↦ let q = (rw (e, k) at h) in cc q
      | inl k ↦
          let q : ok a' ≡ ok a = (rw (e, k) at h) in
          subst (λ x. answer_ok x ≡ true) (ok-injective q) k
    ]
  ]

  grounded_ok :
      (ids : List String) (a u : ModelAnswer) → grounded ids a ≡ ok u → cites_only ids a ≡ true
  unfolding grounded
  grounded_ok ids a u h = elim (Bool-cases (cites_only ids a)) [
    | inl k ↦ k
    | inr k ↦ let q = (rw k at h) in cc q
  ]

  checked_answer-IsHonest :
      (n : ℕ) (value usage : Value) (s : Session)
      → Yields IsHonest (checked_answer w m b n value usage s).0
  unfolding checked_answer
  checked_answer-IsHonest n value usage s = continue-Yields IsHonest (validated m value) _ s λ a p.
      continue-Yields IsHonest (grounded (ids_of (take n (allowed b))) a) _ s λ u c.
        let (r, s') = event w "model_usage" usage s in
        continue-Yields IsHonest r _ s' λ x k.
          continue-Yields IsHonest (contradicts b a.answer) _ s'
            λ d e. publish-IsHonest n a usage d s' (validated_ok value a p) (grounded_ok _ a u c) e

  -- Whatever the model answers, what an investigation publishes cites only evidence of the bundle, each
  -- candidate some; and its answer does not deny hits where the logs have them, or it has been replaced
  -- by the answer of the report followed by the messages of the first three logs, which it then cites,
  -- with the candidates of the report.
  pub investigate-IsHonest : (s : Session) → Yields IsHonest (investigate w m b s).0
  unfolding investigate
  investigate-IsHonest s =
      let (r, s') = authorize w "context" s in
      continue-Yields IsHonest r _ s' λ u e.
        continue-Yields IsHonest (model_call_left s.run) _ s' λ v f.
          continue-Yields IsHonest (fit w.repr m s.run b (length (allowed b))) _ s' λ n g.
            continue-Yields IsHonest (complete m (chat_request w.repr m s.run b n)) _ s'
              λ x h. checked_answer-IsHonest n x.0 x.1 s'
