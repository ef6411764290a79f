-- ===== src/Query/Routing.antt =====
-- query/app/api/routers/routing.py: what a question of a conversation is taken for. The answer of the
-- language model is an argument; the patterns are alternations of words, in any case of A to Z.
pub mod Decisions
use Prim.Native.Char.{code}
use incident_desk.Prelude.{
  Bool, List, Option, Result, String, [], any, err, false, if◌then◌else◌, leb, nat_eq, not, ok,
  some, string_eq, true, value_error, ℕ, ◌&&◌, ◌-◌, ◌==◌, ◌||◌, ◌∷◌,
}
use incident_desk.Json.Text.{strip}
use incident_desk.Worker.Contracts.{object_eq, source_eq}

pub data ModelKind : Type 0 where
  to_warehouse to_investigation to_clarification to_answer to_context : ModelKind

pub data RouteKind : Type 0 where
  warehouse investigation clarification answer : RouteKind

-- ModelDecision
pub record ModelDecision : Type 0 where
  pub kind : ModelKind
  pub content : String
  pub reset_context : Bool

pub record Decision : Type 0 where
  pub kind : RouteKind
  pub clarification : String
  pub answer : String
  pub question : String
  pub reset_context : Bool

-- What is read of a RouteRequest: the text, whether there is a history, and `has_query_anchor`.
pub record RouteRequest : Type 0 where
  pub text : String
  pub has_history : Bool
  pub has_query_anchor : Option Bool

upper_code : ℕ → ℕ
upper_code n = if leb 97 n && leb n 122 then n - 32 else n

unfoldable pub starts_with : String → String → Bool
unfolding upper_code
starts_with String.[] s = true
starts_with (String.◌∷◌ w ws) String.[] = false
starts_with (String.◌∷◌ w ws) (String.◌∷◌ c s) = code w == upper_code (code c) && starts_with ws s

-- A word, written in upper case, somewhere in the text.
mentions_word : String → String → Bool
unfolding starts_with
mentions_word word String.[] = starts_with word ""
mentions_word word (String.◌∷◌ c s) = starts_with word (String.◌∷◌ c s) || mentions_word word s

unfoldable pub mentions_any : List String → String → Bool
unfolding mentions_word
mentions_any words text = any (λ word. mentions_word word text) words

pub begins_with_any : List String → String → Bool
unfolding starts_with
begins_with_any words text = any (λ word. starts_with word text) words

abbrev back_words : List String
back_words = "那" ∷ "那么" ∷ "改成" ∷ "换成" ∷ "继续" ∷ "再来" ∷ "这个" ∷ "那个" ∷ "上面" ∷ []

abbrev subject_words : List String
subject_words =
    "销售" ∷ "销量" ∷ "金额" ∷ "客单价" ∷ "订单" ∷ "客户" ∷ "商品" ∷ "日志" ∷ "服务" ∷ "配置" ∷ "文件" ∷ "GMV" ∷ "AOV" ∷ []

abbrev data_words : List String
data_words = "销售" ∷ "订单" ∷ "GMV" ∷ "AOV" ∷ "客单价" ∷ []

abbrev log_words : List String
log_words = "日志" ∷ "故障" ∷ "报错" ∷ []

abbrev joint_words : List String
joint_words = "同时" ∷ "以及" ∷ "和" ∷ "并且" ∷ []

abbrev pub no_context_text : String
no_context_text = "还没有上文可供参考。你想查询什么指标或内容、哪个时间范围？例如“2025年第一季度华东地区销售额”。"

abbrev two_queries_text : String
two_queries_text = "这个问题包含业务数据和日志两项查询。你希望先查业务数据，还是先查服务日志？选定后我会继续确认需要的时间和范围。"

abbrev lacks_anchor : Option Bool → Bool
lacks_anchor (some false) = true
lacks_anchor _ = false

abbrev is_tool : ModelKind → Bool
is_tool to_warehouse = true
is_tool to_investigation = true
is_tool _ = false

abbrev is_question : ModelKind → Bool
is_question to_clarification = true
is_question _ = false

-- The question refers to something that was not said.
unfoldable pub dangles : RouteRequest → Bool
unfolding begins_with_any mentions_any strip
dangles r =
    (not r.has_history || lacks_anchor r.has_query_anchor)
    && begins_with_any back_words (strip r.text)
    && not (mentions_any subject_words r.text)

pub asks_two : RouteRequest → Bool
unfolding mentions_any
asks_two r =
    mentions_any data_words r.text
    && mentions_any log_words r.text
    && mentions_any joint_words r.text

-- Managing the conversation is an answer.
as_answer : ModelDecision → ModelDecision
as_answer d = elim d.kind [
  | to_context ↦ record d { kind = to_answer }
  | to_warehouse ↦ d
  | to_investigation ↦ d
  | to_clarification ↦ d
  | to_answer ↦ d
]

ask_for_context : RouteRequest → ModelDecision → ModelDecision
unfolding dangles
ask_for_context r d =
    if is_tool d.kind && dangles r
    then record { kind = to_clarification; content = no_context_text; reset_context = false }
    else d

ask_which_first : RouteRequest → ModelDecision → ModelDecision
unfolding asks_two
ask_which_first r d =
    if is_question d.kind && asks_two r then record d { content = two_queries_text } else d

-- The fields of the decision; after `as_answer` there is no `to_context`.
filled : ModelKind → String → Bool → Decision
filled to_warehouse content reset = record {
  kind = warehouse;
  clarification = "";
  answer = "";
  question = content;
  reset_context = reset;
}
filled to_investigation content reset = record {
  kind = investigation;
  clarification = "";
  answer = "";
  question = content;
  reset_context = reset;
}
filled to_clarification content reset = record {
  kind = clarification;
  clarification = content;
  answer = "";
  question = "";
  reset_context = reset;
}
filled to_answer content reset = record {
  kind = answer;
  clarification = "";
  answer = content;
  question = "";
  reset_context = reset;
}
filled to_context content reset = record {
  kind = answer;
  clarification = "";
  answer = content;
  question = "";
  reset_context = reset;
}

-- The field that belongs to the kind.
abbrev pub chosen : Decision → String
chosen d = elim d.kind [
  | warehouse ↦ d.question
  | investigation ↦ d.question
  | clarification ↦ d.clarification
  | answer ↦ d.answer
]

-- Decision.meaningful
meaningful : Decision → Result Decision
unfolding strip
meaningful d =
    if strip (chosen d) == ""
    then err (value_error "The chosen route requires nonempty content")
    else ok d

pub final_decision : RouteRequest → ModelDecision → ModelDecision
unfolding as_answer ask_for_context ask_which_first
final_decision r d = ask_which_first r (ask_for_context r (as_answer d))

unfoldable pub route_question : RouteRequest → Result ModelDecision → Result Decision
unfolding final_decision filled meaningful
route_question r (ok d) =
    let f = final_decision r d in meaningful (filled f.kind f.content f.reset_context)
route_question r (err e) = err e
