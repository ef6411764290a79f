-- ===== src/Worker/Assemble/Relations.antt =====
-- worker/incident_worker/context.py, `assemble` after the loop: how releases, commits and cluster
-- observations are related. Nothing here is inside a `try`, so an exception ends the assembly.
pub mod Citations
use incident_desk.Prelude.{
  Bool, List, Result, String, [], err, false, map, nat_eq, ok, select, string_eq, true, ◌&&◌, ◌++◌,
  ◌<>◌, ◌==◌, ◌∷◌,
}
use incident_desk.Json.Defs.{
  Value, dict, field, index, method_get, no_fields, same_value, string, truthy,
}
use incident_desk.Worker.Contracts.{
  Conflict, Evidence, Fact, Object, RunContext, Source, cluster, commit_object, deployment_object,
  deployments, git, object_eq, service, source_eq,
}

abbrev pub of_source : Source → List Evidence → List Evidence
of_source src = select (λ e. e.source == src)

abbrev pub ids_of : List Evidence → List String
ids_of = map (λ (e : Evidence). e.id)

abbrev cons_ok {ℓ} : {A : Type ℓ} → A → Result (List A) → Result (List A)
cons_ok a (ok rest) = ok (a ∷ rest)
cons_ok a (err e) = err e

abbrev keep_if {ℓ} : {A : Type ℓ} → A → Bool → Result (List A) → Result (List A)
keep_if a true rest = cons_ok a rest
keep_if a false rest = rest

-- [e for e in es if e.snippet.get(key) == wanted], with a further test on `wanted`
pub matching : String → Value → Bool → List Evidence → Result (List Evidence)
matching key wanted also [] = ok []
matching key wanted also (e ∷ es) = elim (method_get key e.snippet) [
  | err x ↦ err x
  | ok v ↦ keep_if e (same_value v wanted && also) (matching key wanted also es)
]

-- `release.snippet.get("commit_sha")` is evaluated only where there is a commit to compare.
pub matched_commits : Evidence → List Evidence → Result (List Evidence)
unfolding matching
matched_commits release [] = ok []
matched_commits release (c ∷ cs) = elim (method_get "commit" c.snippet) [
  | err x ↦ err x
  | ok _ ↦ elim (method_get "commit_sha" release.snippet) [
    | err x ↦ err x
    | ok sha ↦ matching "commit" sha true (c ∷ cs)
  ]
]

-- What the loops add to the bundle.
pub record Links : Type 0 where
  pub objects : List Object
  pub facts : List Fact
  pub conflicts : List Conflict

abbrev pub no_links : Links
no_links = record { objects = []; facts = []; conflicts = [] }

abbrev pub join : Links → Links → Links
join a b = record {
  objects = a.objects ++ b.objects;
  facts = a.facts ++ b.facts;
  conflicts = a.conflicts ++ b.conflicts;
}

abbrev join_ok : Links → Result Links → Result Links
join_ok a (ok b) = ok (join a b)
join_ok a (err e) = err e

release_object : RunContext → Evidence → Object
release_object run release =
    deployment_object release.source_record run.service (release.id ∷ []) release.event_time

relation_json : String → Value
relation_json name = dict (field "relation" (string name) no_fields)

commit_fact : Evidence → Evidence → Fact
unfolding relation_json
commit_fact release found = record {
  id = "fact:relation:" <> release.id;
  kind = "computed";
  text = "发布记录与 Git 提交标识一致；这只确认变更归属，不证明故障因果。";
  evidence = release.id ∷ found.id ∷ [];
  transform = "commit-equality-v1";
  query_step = relation_json "Deployment.commit";
}

unmatched_conflict : Evidence → List Evidence → Conflict
unmatched_conflict release commits = record {
  text = "发布指向的提交未匹配已读取的 Git 记录。";
  evidence = release.id ∷ ids_of commits;
}

-- One release, given the commits that match it.
link_matched : RunContext → Evidence → List Evidence → List Evidence → Result Links
unfolding release_object commit_fact unmatched_conflict
link_matched run release commits (found ∷ _) = elim (index "commit" found.snippet) [
  | err e ↦ err e
  | ok sha ↦ ok record {
    objects =
        release_object run release
        ∷ commit_object sha release.source_record (release.id ∷ found.id ∷ [])
        ∷ [];
    facts = commit_fact release found ∷ [];
    conflicts = [];
  }
]
link_matched run release [] [] =
    ok record { objects = release_object run release ∷ []; facts = []; conflicts = [] }
link_matched run release (c ∷ cs) [] = ok record {
  objects = release_object run release ∷ [];
  facts = [];
  conflicts = unmatched_conflict release (c ∷ cs) ∷ [];
}

link_release : RunContext → List Evidence → Evidence → Result Links
unfolding link_matched matched_commits
link_release run commits release = elim (matched_commits release commits) [
  | err e ↦ err e
  | ok found ↦ link_matched run release commits found
]

pub link_releases : RunContext → List Evidence → List Evidence → Result Links
unfolding link_release
link_releases run commits [] = ok no_links
link_releases run commits (release ∷ rest) = elim (link_release run commits release) [
  | err e ↦ err e
  | ok links ↦ join_ok links (link_releases run commits rest)
]

label_fact : Evidence → Evidence → Fact
unfolding relation_json
label_fact observation release = record {
  id = "fact:cluster-release:" <> observation.id <> ":" <> release.id;
  kind = "computed";
  text = "集群工作负载的发布标签与结构化发布版本一致；因果关系仍需验证。";
  evidence = observation.id ∷ release.id ∷ [];
  transform = "release-label-equality-v1";
  query_step = relation_json "Incident.service.deployments";
}

link_observation : List Evidence → Evidence → Result Links
unfolding matching label_fact
link_observation releases observation = elim (method_get "release" observation.snippet) [
  | err e ↦ err e
  | ok version ↦ elim (matching "version" version (truthy version) releases) [
    | err e ↦ err e
    | ok found ↦
        ok record { objects = []; facts = map (label_fact observation) found; conflicts = [] }
  ]
]

pub link_observations : List Evidence → List Evidence → Result Links
unfolding link_observation
link_observations releases [] = ok no_links
link_observations releases (o ∷ rest) = elim (link_observation releases o) [
  | err e ↦ err e
  | ok links ↦ join_ok links (link_observations releases rest)
]

-- The two loops, one after the other.
unfoldable pub all_links : RunContext → List Evidence → Result Links
unfolding link_releases link_observations
all_links run evidence =
    elim (link_releases run (of_source git evidence) (of_source deployments evidence)) [
      | err e ↦ err e
      | ok links ↦
          join_ok links
            (link_observations (of_source deployments evidence) (of_source cluster evidence))
    ]
