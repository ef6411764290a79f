-- ===== src/Worker/Investigation/Publishing.antt =====
-- worker/incident_worker/mistral.py, `investigate` after the model's answer: the checks of what it
-- cites and claims, and what is published.
pub mod Honesty
use incident_desk.Prelude.{
  Bool, Exec, List, Option, Result, String, [], all, and_then, any, err, false, if◌then◌else◌,
  included, leb, length, lift, ltb, map, nat_eq, none, not, ok, other_error, pure, runtime_error,
  some, string_eq, suc, take, true, value_error, zero, ℕ, ◌&&◌, ◌<>◌, ◌==◌, ◌>>=◌, ◌>>◌, ◌||◌, ◌∷◌,
}
use incident_desk.Json.Defs.{Value, boolean, dict, field, get, int, no_fields, real, string, texts}
use incident_desk.Json.Text.{after_prefix, rest_after, take_chars, text_length}
use incident_desk.Worker.Assemble.Relations.{ids_of, of_source}
use incident_desk.Worker.Contracts.{
  ContextBundle, Evidence, Retrieval, RunContext, logs, object_eq, source_eq,
}
use incident_desk.Worker.Gather.Base.{format, get_default}
use incident_desk.Worker.Investigation.{
  Claim, Model, ModelAnswer, allowed, chat_request, complete, fit,
}
use incident_desk.Worker.Report.{Candidate, ReportData, report}
use incident_desk.Worker.Session.{Session, World, authorize, event}

-- The dictionary that `investigate` returns: the report, and the keys that it sets. Its mode is
-- "mistral".
pub record Investigation : Type 0 where
  pub base : ReportData
  pub answer : String
  pub answer_evidence : List String
  pub candidates : List Candidate
  pub next_steps : List String
  pub usage : Value
  pub model_evidence_count : ℕ
  pub answer_validation : Option String

-- The limits of the classes `Answer` and `Claim`.
claim_ok : Claim → Bool
unfolding text_length
claim_ok c = leb (text_length c.text) 1000 && leb 1 (length c.evidence) && leb (length c.evidence) 5

answer_ok : ModelAnswer → Bool
unfolding text_length claim_ok
answer_ok a =
    leb (text_length a.answer) 1800
    && leb (length a.answer_evidence) 10
    && leb (length a.claims) 4
    && leb (length a.next_steps) 4
    && all claim_ok a.claims

-- Answer.model_validate
validated : Model → Value → Result ModelAnswer
unfolding answer_ok
validated m v =
    and_then (m.decode v) (λ a. if answer_ok a then ok a else err (other_error "ValidationError"))

cites_only : List String → ModelAnswer → Bool
cites_only ids a =
    included a.answer_evidence ids && all (λ (c : Claim). included c.evidence ids) a.claims

grounded : List String → ModelAnswer → Result ModelAnswer
unfolding cites_only
grounded ids a = if cites_only ids a then ok a else err (value_error "ungrounded_mistral_claim")

begins_any : List String → String → Bool
unfolding after_prefix
begins_any words s = any (λ w. elim (after_prefix w s) [ none ↦ false | some _ ↦ true ]) words

-- One of the words behind at most n characters that end no sentence.
soon : List String → ℕ → String → Bool
unfolding begins_any
soon words n String.[] = false
soon words zero (String.◌∷◌ c s) = begins_any words (String.◌∷◌ c s)
soon words (suc n) (String.◌∷◌ c s) =
    begins_any words (String.◌∷◌ c s)
    || not (begins_any ("。" ∷ "；" ∷ "\n" ∷ []) (String.◌∷◌ c s)) && soon words n s

denies_here : String → Bool
unfolding soon rest_after begins_any
denies_here s =
    begins_any ("未" ∷ []) s && soon ("查到" ∷ "检索到" ∷ []) 50 (rest_after 1 s)
    || begins_any ("没有" ∷ []) s
      && (soon ("查到" ∷ "检索到" ∷ []) 50 (rest_after 2 s) || soon ("日志" ∷ []) 15 (rest_after 2 s))
    || begins_any ("无" ∷ []) s && soon ("日志" ∷ []) 15 (rest_after 1 s)

-- re.search(denies_hits, answer)
unfoldable pub denies_hits : String → Bool
unfolding denies_here
denies_hits String.[] = false
denies_hits (String.◌∷◌ c s) = denies_here (String.◌∷◌ c s) || denies_hits s

-- v > 0
positive : Value → Result Bool
unfolding begins_any
positive (int n) = ok (ltb 0 n)
positive (boolean x) = ok x
positive (real t) = ok (not (begins_any ("-" ∷ []) t || t == "0.0" || t == "nan"))
positive _ = err (other_error "TypeError")

-- bundle.retrieval.get("matched", 0); an empty dictionary is none
matched : Option Retrieval → Value
matched none = int 0
matched (some r) = elim (get "matched" r.summary) [ none ↦ int 0 | some v ↦ v ]

abbrev has_any_logs : List Evidence → Bool
has_any_logs [] = false
has_any_logs (e ∷ es) = true

-- logs and bundle.retrieval.get("matched", 0) > 0 and denies_hits
unfoldable pub contradicts : ContextBundle → String → Result Bool
unfolding positive matched denies_hits
contradicts b answer =
    if not (has_any_logs (of_source logs b.evidence))
    then ok false
    else and_then (positive (matched b.retrieval)) (λ hits. ok (hits && denies_hits answer))

-- str(e.snippet.get("message", ""))[:300]
message_of : (Value → String) → Value → Result String
unfolding get_default format take_chars
message_of repr snippet =
    and_then (get_default "message" (string "") snippet) (λ v. ok (take_chars 300 (format repr v)))

-- "；".join(texts)
pub joined : List String → String
joined [] = ""
joined (x ∷ []) = x
joined (x ∷ y ∷ xs) = x <> "；" <> joined (y ∷ xs)

pub messages_of : (Value → String) → List Evidence → Result (List String)
unfolding message_of
messages_of repr [] = ok []
messages_of repr (e ∷ es) =
    and_then (message_of repr e.snippet) (λ x. and_then (messages_of repr es) (λ xs. ok (x ∷ xs)))

-- The next steps of `report`.
abbrev pub default_steps : List String
default_steps = "核对实际部署版本与日志时间窗口。" ∷ "检查连接池和依赖延迟指标，补齐缺失来源后确认原因。" ∷ []

candidate_of : Claim → Candidate
candidate_of c = record {
  text = c.text;
  label = "有待验证";
  rule = "Mistral 基于引用证据提出候选，需进一步验证";
  evidence = c.evidence;
}

-- The result of the model's answer, of which n pieces of evidence were shown.
by_model : (Value → String) → ContextBundle → ℕ → ModelAnswer → Value → Investigation
unfolding candidate_of report
by_model repr b n a usage = record {
  base = report repr b;
  answer = a.answer;
  answer_evidence = a.answer_evidence;
  candidates = map candidate_of a.claims;
  next_steps = a.next_steps;
  usage = usage;
  model_evidence_count = n;
  answer_validation = none;
}

-- The first three logs.
abbrev pub first_logs : ContextBundle → List Evidence
first_logs b = take 3 (of_source logs b.evidence)

-- The result in place of an answer that denies the hits.
by_evidence : (Value → String) → ContextBundle → ℕ → Value → List String → Investigation
unfolding report joined
by_evidence repr b n usage texts = record {
  base = report repr b;
  answer = (report repr b).answer <> " 代表日志：" <> joined texts;
  answer_evidence = ids_of (first_logs b);
  candidates = (report repr b).candidates;
  next_steps = default_steps;
  usage = usage;
  model_evidence_count = n;
  answer_validation = some "检索已有命中；模型回答与统计不一致，已改为展示原始证据。";
}

guard_payload : ContextBundle → Value
unfolding matched
guard_payload b = dict (
    field "reason" (string "contradicts_log_hits")
      (field "matched" (matched b.retrieval) no_fields))

abbrev model_call_left : RunContext → Result (Unit {0})
model_call_left run =
    if ltb run.budget.model_calls 1
    then err (runtime_error "model_call_budget_exhausted")
    else ok tt

module _ (w : World) (m : Model) (b : ContextBundle) where
  -- The result, given whether the answer contradicts the hits.
  publish : ℕ → ModelAnswer → Value → Bool → Exec Session Investigation
  unfolding by_model by_evidence messages_of guard_payload event
  publish n a usage false = pure (by_model w.repr b n a usage)
  publish n a usage true = do
    texts ← lift (messages_of w.repr (first_logs b))
    event w "model_answer_guard" (guard_payload b)
    pure (by_evidence w.repr b n usage texts)

  -- What follows the answer of the service.
  unfoldable pub checked_answer : ℕ → Value → Value → Exec Session Investigation
  unfolding validated grounded publish contradicts event allowed
  checked_answer n value usage = do
    a ← lift (validated m value)
    lift (grounded (ids_of (take n (allowed b))) a)
    event w "model_usage" usage
    denied ← lift (contradicts b a.answer)
    publish n a usage denied

  unfoldable pub investigate : Exec Session Investigation
  unfolding authorize fit chat_request complete checked_answer allowed
  investigate s =
      (do
        authorize w "context"
        lift (model_call_left s.run)
        n ← lift (fit w.repr m s.run b (length (allowed b)))
        answered ← lift (complete m (chat_request w.repr m s.run b n))
        checked_answer n answered.0 answered.1)
        s
