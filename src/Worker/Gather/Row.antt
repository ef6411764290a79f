-- ===== src/Worker/Gather/Row.antt =====
-- One row of a source: the scope check, the evidence, the fact and the versions.
use Prim.Native.String.{count}
use incident_desk.Prelude.{
  Bool, Exec, List, Option, Result, String, [], err, false, if◌then◌else◌, leb, lift, ltb, nat_eq,
  none, ok, other_error, permission_error, pure, some, string_eq, true, value_error, ℕ, ◌++◌, ◌<>◌,
  ◌==◌, ◌>>=◌, ◌>>◌, ◌∷◌,
}
use incident_desk.Json.Defs.{Value, hashable, index, method_get, string, truthy}
use incident_desk.Json.Text.{dumps, take_chars}
use incident_desk.Worker.Contracts.{
  Evidence, Fact, PlanStep, RunContext, Source, cluster, deployments, git, logs, object_eq, runbook,
  source_eq, source_name, step_json,
}
use incident_desk.Worker.Gather.Base.{
  Gather, Tools, add_missing, canonical_json, dumped_length, format, get_default, snippet_limit,
  when_true,
}
use incident_desk.Worker.Plan.{resolve}
use incident_desk.Worker.Session.{SourceRow}

-- `describe`
slice_text : ℕ → Value → Result String
slice_text n (string s) = ok (take_chars n s)
slice_text n _ = err (other_error "TypeError")

module _ (repr : Value → String) where
  abbrev text_of : Result Value → (String → String) → Result String
  text_of (ok v) f = ok (f (format repr v))
  text_of (err e) f = err e

  abbrev two_texts : Result Value → Result Value → (String → String → String) → Result String
  two_texts (ok v) (ok u) f = ok (f (format repr v) (format repr u))
  two_texts (err e) other f = err e
  two_texts (ok v) (err e) f = err e

  unfoldable pub describe : Source → Value → Result String
  unfolding slice_text format get_default
  describe logs c =
      two_texts (get_default "level" (string "UNKNOWN") c) (get_default "message" (string "无消息") c)
        (λ level message. "日志记录 " <> level <> ": " <> message)
  describe deployments c =
      two_texts (method_get "version" c) (method_get "commit_sha" c)
        (λ version sha. "发布版本 " <> version <> " 指向提交 " <> sha)
  describe git c =
      two_texts (method_get "commit" c) (get_default "config" (string "未提供") c)
        (λ sha config. "代码提交 " <> sha <> "，配置差异：" <> config)
  describe runbook c = elim (get_default "markdown" (string "") c) [
    | err e ↦ err e
    | ok v ↦ elim (slice_text 300 v) [ err e ↦ err e | ok s ↦ ok ("运行手册摘录：" <> s) ]
  ]
  describe cluster c = ok ("集群观测：" <> take_chars 1500 (dumps false c))

-- The key under which a source names its service, for the two sources with a mapping.
abbrev pub alias_key : Source → Option String
alias_key logs = some "service_name"
alias_key deployments = some "app_id"
alias_key _ = none

-- resolve(source, alias) for an alias of any type
resolve_value : Source → Value → Result String
resolve_value src (string alias) = resolve src alias
resolve_value src v =
    if hashable v
    then err (value_error "ambiguous_or_unmapped_service")
    else err (other_error "TypeError")

-- resolve(step.source, alias)
unfoldable pub owner_of : Source → Value → Result String
unfolding resolve_value
owner_of src content = elim (alias_key src) [
  | none ↦ err (other_error "KeyError")
  | some key ↦ elim (method_get key content) [ err e ↦ err e | ok alias ↦ resolve_value src alias ]
]

-- The scope check of a row.
unfoldable pub check_owner : RunContext → Source → Value → Result (Unit {0})
check_owner run src content = elim (alias_key src) [
  | none ↦ ok tt
  | some _ ↦ elim (owner_of src content) [
    | err e ↦ err e
    | ok id ↦ if id == run.service then ok tt else err (permission_error "source_scope_mismatch")
  ]
]

module _ {S : Type 0} (t : Tools S) where
  unfoldable pub row_digest : SourceRow → String
  row_digest row = t.sha256 (canonical_json row.content)

  unfoldable pub evidence_id : Source → SourceRow → String
  unfolding row_digest
  evidence_id src row = source_name src <> ":" <> row.id <> ":" <> take_chars 12 (row_digest row)

  abbrev pub is_long : SourceRow → Bool
  is_long row = ltb snippet_limit (count (canonical_json row.content))

  -- `raw`, cut where it is too long
  unfoldable pub snippet_text : SourceRow → String
  snippet_text row =
      if is_long row
      then take_chars snippet_limit (canonical_json row.content)
      else canonical_json row.content

  unfoldable pub evidence_of : Source → String → SourceRow → Evidence
  unfolding snippet_text
  evidence_of src observed_at row = record {
    id = evidence_id src row;
    source = src;
    locator = row.locator;
    collected_at = observed_at;
    event_time = row.event_time;
    version = row.version;
    sha256 = row_digest row;
    snippet =
        if leb (dumped_length row.content) snippet_limit
        then row.content
        else string (snippet_text row);
    team = t.run.team;
    source_record = row.id;
    available = true;
  }

  unfoldable pub fact_of : PlanStep → SourceRow → String → Fact
  fact_of step row text = record {
    id = "fact:" <> evidence_id step.source row;
    kind = "observation";
    text = text;
    evidence = evidence_id step.source row ∷ [];
    transform = "normalize-v1";
    query_step = step_json step;
  }

  unfoldable pub add_evidence : Evidence → Exec (Gather S) (Unit {0})
  add_evidence e g = (ok tt, record g { evidence = g.evidence ++ e ∷ [] })

  unfoldable pub add_fact : Fact → Exec (Gather S) (Unit {0})
  add_fact f g = (ok tt, record g { facts = g.facts ++ f ∷ [] })

  -- set.add: a version is kept by its JSON text
  unfoldable pub add_log_version : Value → Exec (Gather S) (Unit {0})
  add_log_version v g =
      if hashable v
      then (ok tt, record g { log_versions = g.log_versions ++ dumps false v ∷ [] })
      else (err (other_error "TypeError"), g)

  unfoldable pub add_deployment_version : Value → Exec (Gather S) (Unit {0})
  add_deployment_version v g =
      if hashable v
      then (ok tt, record g { deployment_versions = g.deployment_versions ++ dumps false v ∷ [] })
      else (err (other_error "TypeError"), g)

  unfoldable pub add_versions : Source → Value → Exec (Gather S) (Unit {0})
  unfolding add_log_version add_deployment_version
  add_versions logs content = do
    release ← lift (method_get "release" content)
    when_true (truthy release) (add_log_version release)
  add_versions deployments content = do
    version ← lift (index "version" content)
    add_deployment_version version
  add_versions _ content = pure tt

  -- The row as evidence, as a fact and in the versions.
  unfoldable pub record_row : PlanStep → String → SourceRow → Exec (Gather S) (Unit {0})
  unfolding add_evidence add_fact
  record_row step observed_at row = do
    add_evidence (evidence_of step.source observed_at row)
    text ← lift (describe t.repr step.source row.content)
    add_fact (fact_of step row text)
    add_versions step.source row.content

  -- The body of `for row in available`.
  unfoldable pub add_row : PlanStep → String → SourceRow → Exec (Gather S) (Unit {0})
  add_row step observed_at row = do
    lift (check_owner t.run step.source row.content)
    when_true (is_long row)
        (add_missing (source_name step.source <> ": evidence snippet truncated"))
    record_row step observed_at row

  unfoldable pub add_rows : PlanStep → String → List SourceRow → Exec (Gather S) (Unit {0})
  add_rows step observed_at [] = pure tt
  add_rows step observed_at (row ∷ rest) = do
    add_row step observed_at row
    add_rows step observed_at rest
