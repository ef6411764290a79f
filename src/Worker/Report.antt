-- ===== src/Worker/Report.antt =====
-- worker/incident_worker/context.py, `report`, and worker/incident_worker/main.py, `report_status`:
-- the deterministic report of a bundle, and the status under which it is delivered.
pub mod Grounding
pub mod Status
use incident_desk.Prelude.{
  List, Option, String, [], any, contains, if◌then◌else◌, length, nat_eq, none, not, select, some,
  string_eq, true, ◌&&◌, ◌++◌, ◌<>◌, ◌==◌, ◌∷◌,
}
use incident_desk.Json.Defs.{Value, get, int, texts}
use incident_desk.Json.Text.{dumps, has_substring, show}
use incident_desk.Worker.Assemble.Relations.{ids_of, of_source}
use incident_desk.Worker.Contracts.{
  Conflict, ContextBundle, Evidence, Fact, Freshness, Retrieval, cluster, logs, object_eq, service,
  source_eq,
}
use incident_desk.Worker.Gather.Base.{format}

pub record Candidate : Type 0 where
  pub text : String
  pub label : String
  pub rule : String
  pub evidence : List String

-- The dictionary that `report` returns, less its constant texts; `context` is the bundle itself.
pub record ReportData : Type 0 where
  pub impact : String
  pub retrieval : Option Retrieval
  pub answer : String
  pub facts : List Fact
  pub candidates : List Candidate
  pub conflicts : List Conflict
  pub missing : List String
  pub evidence : List Evidence
  pub freshness : List Freshness
  pub context : ContextBundle
  pub historical_memory : Value
  pub mode : String

-- The terms that are looked for in the logs, each with the text of its candidate.
pub log_terms : List (String × String)
log_terms =
    ("pool", "连接池耗尽可能导致请求等待；核对活跃连接、池上限和等待时间。")
    ∷ ("timed out", "上游依赖延迟可能超过超时阈值；核对依赖耗时与阈值变更。")
    ∷ ("invalid", "配置值可能不合法；对照运行时配置与发布提交。")
    ∷ ("after release", "发布与异常时间相关；需要对照变更和实例指标验证因果。")
    ∷ []

-- [e.id for e in es if term in json.dumps(e.snippet)]
pub mentions : String → List Evidence → List String
mentions term es = ids_of (select (λ (e : Evidence). has_substring term (dumps true e.snippet)) es)

-- A candidate, if there is evidence for it.
candidate_if : String → String → List String → List Candidate
candidate_if text rule [] = []
candidate_if text rule (id ∷ ids) =
    record { text = text; label = "有待验证"; rule = rule; evidence = id ∷ ids } ∷ []

log_candidates : List (String × String) → List Evidence → List Candidate
unfolding candidate_if mentions
log_candidates [] es = []
log_candidates ((term, text) ∷ rest) es =
    candidate_if text "日志直接观测支持候选；时间相关不证明因果。" (mentions term es) ++ log_candidates rest es

oom_candidate : List String → List Candidate
unfolding candidate_if
oom_candidate oom =
    candidate_if "观测到 OOMKilled 退出；内存为何超限仍需工作集、限制值及请求分布验证。" "退出原因是观测事实，应用层原因仍是待验证解释。" oom

probe_candidate : List String → List Candidate
unfolding candidate_if
probe_candidate probe =
    candidate_if "观测到探针失败事件；对照对应发布的探针路径与应用启动状态。" "集群事件支持探针失败，尚不能单独确定应用故障根因。" probe

pub candidates_of : List Evidence → List Candidate
unfolding log_candidates oom_candidate probe_candidate mentions log_terms
candidates_of evidence =
    log_candidates log_terms (of_source logs evidence)
    ++ oom_candidate (mentions "OOMKilled" (of_source cluster evidence))
    ++ probe_candidate (mentions "Unhealthy" (of_source cluster evidence))

-- bundle.retrieval.get(key, 0)
count_of : String → Retrieval → Value
count_of key r = elim (get key r.summary) [ none ↦ int 0 | some v ↦ v ]

answer_text : (Value → String) → ContextBundle → String
unfolding count_of format
answer_text repr b = elim b.retrieval [
  | none ↦ "以下为检索到的证据；候选原因需要进一步验证。"
  | some r ↦
      "检索范围内共 "
      <> format repr (count_of "total_in_query" r)
      <> " 条日志，匹配 "
      <> format repr (count_of "matched" r)
      <> " 条；以下展示 "
      <> show (length (of_source logs b.evidence))
      <> " 条可追溯证据。"
]

unfoldable pub report : (Value → String) → ContextBundle → ReportData
unfolding candidates_of answer_text
report repr b = record {
  impact = b.scope.service;
  retrieval = b.retrieval;
  answer = answer_text repr b;
  facts = b.facts;
  candidates = candidates_of b.evidence;
  conflicts = b.conflicts;
  missing = b.missing;
  evidence = b.evidence;
  freshness = b.freshness;
  context = b;
  historical_memory = b.memories;
  mode = "deterministic-baseline";
}

-- "partial" if missing else "completed"
by_gaps : List String → String
by_gaps [] = "completed"
by_gaps (text ∷ texts) = "partial"

-- report_status; `answer_evidence` is the list under that key, empty where there is none.
unfoldable pub report_status : List Evidence → (answer_evidence missing : List String) → String
unfolding by_gaps
report_status evidence answer_evidence missing =
    let has_logs = any (λ (e : Evidence). e.source == logs) evidence in
    let has_answer = any (λ id. contains id (ids_of evidence)) answer_evidence in
    if not has_logs && not has_answer then "waiting_information" else by_gaps missing
