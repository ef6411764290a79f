-- ===== src/Worker/Assemble/Relations/Citations.antt =====
-- What the loops of `assemble` add to a bundle cites the evidence of the bundle.
use incident_desk.Prelude.{
  All, All-append, All-of-select, Bool, List, Result, Result-cases, String, Yields, [], arith,
  contains, err, false, included, included_of_contains, inl, inr, map, nat_eq, ok, refl, string_eq,
  subst, true, ◌&&◌, ◌==◌, ◌∷◌, ◌≡◌,
}
use incident_desk.Json.Defs.{Value, index, method_get, same_value, truthy}
use incident_desk.Worker.Assemble.Relations.{
  Links, all_links, commit_fact, ids_of, join, join_ok, keep_if, label_fact, link_matched,
  link_observation, link_observations, link_release, link_releases, matched_commits, matching,
  of_source, unmatched_conflict,
}
use incident_desk.Worker.Contracts.{
  Conflict, Evidence, Fact, RunContext, Source, cluster, deployments, git, object_eq, source_eq,
}
use incident_desk.Worker.Gather.Ledger.{Cites, evidence_ids}

module _ (ids : List String) where
  -- The ids of these evidences are known.
  unfoldable pub Known : List Evidence → Type 0
  Known = All (λ (e : Evidence). contains e.id ids ≡ true)

  -- What the links say cites known evidence.
  pub record AreGrounded (l : Links) : Type 0 where
    pub facts : All (λ (f : Fact). Cites ids f.evidence) l.facts
    pub conflicts : All (λ (c : Conflict). included c.evidence ids ≡ true) l.conflicts

  pub ids_of-included : (es : List Evidence) → Known es → included (ids_of es) ids ≡ true
  unfolding Known
  ids_of-included [] k = refl
  ids_of-included (e ∷ es) k = ground (arith, ids_of-included es k.1)

  Cites-pair :
      (a b : String) → contains a ids ≡ true → contains b ids ≡ true → Cites ids (a ∷ b ∷ [])
  Cites-pair a b h k = record { some_cited = λ p. cc; all_known = ground arith }

  keep_if-Known :
      (e : Evidence) (b : Bool) (r : Result (List Evidence))
      → contains e.id ids ≡ true
      → Yields Known r
      → Yields Known (keep_if e b r)
  unfolding Known
  keep_if-Known e true (ok es) h k = (h, k)
  keep_if-Known e true (err x) h k = tt
  keep_if-Known e false r h k = k

  matching-Known :
      (key : String) (wanted : Value) (also : Bool) (es : List Evidence)
      → Known es
      → Yields Known (matching key wanted also es)
  unfolding matching Known
  matching-Known key wanted also [] k = tt
  matching-Known key wanted also (e ∷ es) k = elim (Result-cases (method_get key e.snippet)) [
    | inl (v, q) ↦
        rw (Yields, q)
          (keep_if-Known e (same_value v wanted && also) _ k.0
            (matching-Known key wanted also es k.1))
    | inr (x, q) ↦ rw (Yields, q) tt
  ]

  matched_commits-Known :
      (release : Evidence) (cs : List Evidence)
      → Known cs
      → Yields Known (matched_commits release cs)
  unfolding matched_commits Known
  matched_commits-Known release [] k = tt
  matched_commits-Known release (c ∷ cs) k = elim (Result-cases (method_get "commit" c.snippet)) [
    | inr (x, q) ↦ rw (Yields, q) tt
    | inl (v, q) ↦
        rw (Yields, q)
          (elim (Result-cases (method_get "commit_sha" release.snippet)) [
            | inr (x, p) ↦ rw (Yields, p) tt
            | inl (sha, p) ↦ rw (Yields, p) (matching-Known "commit" sha true (c ∷ cs) k)
          ])
  ]

  join-AreGrounded : (a b : Links) → AreGrounded a → AreGrounded b → AreGrounded (join a b)
  join-AreGrounded a b g h = record {
    facts = All-append _ a.facts b.facts g.facts h.facts;
    conflicts = All-append _ a.conflicts b.conflicts g.conflicts h.conflicts;
  }

  join_ok-AreGrounded :
      (a : Links) (r : Result Links)
      → AreGrounded a
      → Yields AreGrounded r
      → Yields AreGrounded (join_ok a r)
  join_ok-AreGrounded a (ok b) g h = join-AreGrounded a b g h
  join_ok-AreGrounded a (err e) g h = tt

  link_matched-AreGrounded :
      (run : RunContext) (release : Evidence) (commits found : List Evidence)
      → contains release.id ids ≡ true
      → Known commits
      → Known found
      → Yields AreGrounded (link_matched run release commits found)
  unfolding link_matched commit_fact unmatched_conflict Known
  link_matched-AreGrounded run release commits (found ∷ _) r k f =
      elim (Result-cases (index "commit" found.snippet)) [
        | inr (x, q) ↦ rw (Yields, q) tt
        | inl (sha, q) ↦
            rw (Yields, q)
              (record { facts = (Cites-pair release.id found.id r f.0, tt); conflicts = tt })
      ]
  link_matched-AreGrounded run release [] [] r k f = record { facts = tt; conflicts = tt }
  link_matched-AreGrounded run release (c ∷ cs) [] r k f = record {
    facts = tt;
    conflicts = (ground (arith, ids_of-included (c ∷ cs) k), tt);
  }

  link_release-AreGrounded :
      (run : RunContext) (commits : List Evidence) (release : Evidence)
      → contains release.id ids ≡ true
      → Known commits
      → Yields AreGrounded (link_release run commits release)
  unfolding link_release
  link_release-AreGrounded run commits release r k =
      elim (Result-cases (matched_commits release commits)) [
        | inr (x, q) ↦ rw (Yields, q) tt
        | inl (found, q) ↦
            rw (Yields, q)
              (link_matched-AreGrounded run release commits found r k
                (subst (Yields Known) q (matched_commits-Known release commits k)))
      ]

  link_releases-AreGrounded :
      (run : RunContext) (commits releases : List Evidence)
      → Known commits
      → Known releases
      → Yields AreGrounded (link_releases run commits releases)
  unfolding link_releases Known
  link_releases-AreGrounded run commits [] k r = record { facts = tt; conflicts = tt }
  link_releases-AreGrounded run commits (release ∷ rest) k r =
      elim (Result-cases (link_release run commits release)) [
        | inr (x, q) ↦ rw (Yields, q) tt
        | inl (links, q) ↦
            rw (Yields, q)
              (join_ok-AreGrounded links _
                (subst (Yields AreGrounded) q (link_release-AreGrounded run commits release r.0 k))
                (link_releases-AreGrounded run commits rest k r.1))
      ]

  label_facts-Cites :
      (o : Evidence) (found : List Evidence)
      → contains o.id ids ≡ true
      → Known found
      → All (λ (f : Fact). Cites ids f.evidence) (map (label_fact o) found)
  unfolding label_fact Known
  label_facts-Cites o [] h k = tt
  label_facts-Cites o (e ∷ es) h k = (Cites-pair o.id e.id h k.0, label_facts-Cites o es h k.1)

  link_observation-AreGrounded :
      (releases : List Evidence) (o : Evidence)
      → contains o.id ids ≡ true
      → Known releases
      → Yields AreGrounded (link_observation releases o)
  unfolding link_observation
  link_observation-AreGrounded releases o h k =
      elim (Result-cases (method_get "release" o.snippet)) [
        | inr (x, q) ↦ rw (Yields, q) tt
        | inl (version, q) ↦
            rw (Yields, q)
              (elim (Result-cases (matching "version" version (truthy version) releases)) [
                | inr (x, p) ↦ rw (Yields, p) tt
                | inl (found, p) ↦
                    rw (Yields, p)
                      (record {
                        facts = label_facts-Cites o found h (
                            subst (Yields Known) p
                              (matching-Known "version" version (truthy version) releases k));
                        conflicts = tt;
                      })
              ])
      ]

  link_observations-AreGrounded :
      (releases observations : List Evidence)
      → Known releases
      → Known observations
      → Yields AreGrounded (link_observations releases observations)
  unfolding link_observations Known
  link_observations-AreGrounded releases [] k o = record { facts = tt; conflicts = tt }
  link_observations-AreGrounded releases (x ∷ rest) k o =
      elim (Result-cases (link_observation releases x)) [
        | inr (e, q) ↦ rw (Yields, q) tt
        | inl (links, q) ↦
            rw (Yields, q)
              (join_ok-AreGrounded links _
                (subst (Yields AreGrounded) q (link_observation-AreGrounded releases x o.0 k))
                (link_observations-AreGrounded releases rest k o.1))
      ]

  pub all_links-AreGrounded :
      (run : RunContext) (evidence : List Evidence)
      → Known evidence
      → Yields AreGrounded (all_links run evidence)
  unfolding all_links Known
  all_links-AreGrounded run evidence k =
      let part : (src : Source) → Known (of_source src evidence) =
        λ src. All-of-select _ (λ (e : Evidence). e.source == src) evidence k in
      elim (Result-cases
        (link_releases run (of_source git evidence) (of_source deployments evidence))) [
          | inr (e, q) ↦ rw (Yields, q) tt
          | inl (links, q) ↦
              rw (Yields, q)
                (join_ok-AreGrounded links _
                  (subst (Yields AreGrounded) q (
                    link_releases-AreGrounded run (of_source git evidence)
                      (of_source deployments evidence) (part git) (part deployments)))
                  (link_observations-AreGrounded (of_source deployments evidence)
                    (of_source cluster evidence) (part deployments) (part cluster)))
        ]

Known-included :
    (ids : List String) (es : List Evidence) → included (evidence_ids es) ids ≡ true → Known ids es
unfolding Known
Known-included ids [] h = tt
Known-included ids (e ∷ es) h = (ground arith, Known-included ids es (ground arith))

pub Known-self : (es : List Evidence) → Known (evidence_ids es) es
Known-self es =
    Known-included (evidence_ids es) es (included_of_contains _ (evidence_ids es) (λ a m. m))
