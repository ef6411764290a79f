-- ===== src/Query/Agent/Graph.antt =====
-- query/app/agent/graph.py: the graph, as LangGraph runs it. In each round all nodes that are due
-- run at once on the same state, and their messages interleave; then their updates are applied, and the nodes that their edges lead to are
-- next, each once. After 25 rounds LangGraph raises; services/query_service.py: `query`.
pub mod Course
pub mod Rounds
pub mod Checked
pub mod Final
use incident_desk.Prelude.{
  Exc, Exec, List, Option, Result, String, [], and_then, any, drop, err, if◌then◌else◌, lift,
  nat_eq, none, ok, other_error, pure, raise, reverse, some, string_eq, suc, zero, ℕ, ◌++◌, ◌==◌,
  ◌>>=◌, ◌>>◌, ◌∷◌,
}
use incident_desk.Query.Agent.{
  AgentState, DbCall, Message, Services, SqlChecks, Trace, Update, apply_update, emit, gave_up,
  tell,
}
use incident_desk.Query.Agent.Nodes.{
  add_extra_context, correct_sql, extract_keywords, filter_metric_node, filter_table_node,
  generate_sql, merge_node, recall_column, recall_metric, recall_value, run_sql, validate_sql,
}
use incident_desk.Query.Sql.Periods.Searches.{following}
use incident_desk.Worker.Contracts.{object_eq, source_eq}

pub data Node : Type 0 where
  extracting recalling_columns recalling_values recalling_metrics merging filtering_metrics : Node
  filtering_tables adding_context generating validating correcting running_sql : Node

abbrev number : Node → ℕ
number extracting = 0
number recalling_columns = 1
number recalling_values = 2
number recalling_metrics = 3
number merging = 4
number filtering_metrics = 5
number filtering_tables = 6
number adding_context = 7
number generating = 8
number validating = 9
number correcting = 10
number running_sql = 11

-- The condition after validate_sql: state["error"] is None
abbrev after_validation : Option (Option String) → Result (List Node)
after_validation none = err (other_error "KeyError")
after_validation (some none) = ok (running_sql ∷ [])
after_validation (some (some e)) = ok (correcting ∷ [])

-- The edges; END is no node.
pub successors : AgentState → Node → Result (List Node)
successors s extracting = ok (recalling_columns ∷ recalling_values ∷ recalling_metrics ∷ [])
successors s recalling_columns = ok (merging ∷ [])
successors s recalling_values = ok (merging ∷ [])
successors s recalling_metrics = ok (merging ∷ [])
successors s merging = ok (filtering_tables ∷ filtering_metrics ∷ [])
successors s filtering_tables = ok (adding_context ∷ [])
successors s filtering_metrics = ok (adding_context ∷ [])
successors s adding_context = ok (generating ∷ [])
successors s generating = ok (validating ∷ [])
successors s validating = after_validation s.error
successors s correcting = ok (running_sql ∷ [])
successors s running_sql = ok []

add_node : Node → List Node → List Node
add_node n ns = if any (λ m. number m == number n) ns then ns else n ∷ ns

add_nodes : List Node → List Node → List Node
unfolding add_node
add_nodes [] ns = ns
add_nodes (m ∷ ms) ns = add_node m (add_nodes ms ns)

pub next_nodes : AgentState → List Node → Result (List Node)
unfolding successors add_nodes
next_nodes s [] = ok []
next_nodes s (n ∷ ns) =
    and_then (successors s n) λ ms. and_then (next_nodes s ns) (λ rest. ok (add_nodes ms rest))

abbrev pub recursion_limit : ℕ
recursion_limit = 25

pub recursion_error : Exc
recursion_error = other_error "GraphRecursionError"

pub apply_updates : List Update → AgentState → AgentState
unfolding apply_update
apply_updates [] s = s
apply_updates (u ∷ us) s = apply_updates us (apply_update u s)

-- A node of a round on its way: the messages that it has still to send, and how it then ends.
pub record Branch : Type 0 where
  pub messages : List Message
  pub result : Result Update

branch_at : ℕ → List Branch → Option Branch
branch_at k [] = none
branch_at zero (b ∷ bs) = some b
branch_at (suc k) (b ∷ bs) = branch_at k bs

-- The k-th node has sent its next message.
advanced : ℕ → List Branch → List Branch
advanced k [] = []
advanced zero (b ∷ bs) = record b { messages = drop 1 b.messages } ∷ bs
advanced (suc k) (b ∷ bs) = b ∷ advanced k bs

-- What a node does when it is resumed: it sends its next message, or ends.
resume : List Message → Result Update → Exec Trace (Unit {0})
resume (m ∷ ms) r = tell m
resume [] (ok u) = pure tt
resume [] (err e) = raise e

turn : Option Branch → Exec Trace (Unit {0})
unfolding resume
turn none = pure tt
turn (some b) = resume b.messages b.result

send_all : List Message → Exec Trace (Unit {0})
send_all [] = pure tt
send_all (m ∷ ms) = do tell m; send_all ms

finish_round : List Branch → Exec Trace (List Update)
unfolding send_all
finish_round [] = pure []
finish_round (b ∷ bs) = do
  send_all b.messages
  u ← lift b.result
  us ← finish_round bs
  pure (u ∷ us)

-- The nodes of a round take these turns, and then end one after another. The first that fails ends
-- the round, and what the others have not sent by then is lost.
pub interleaved : List ℕ → List Branch → Exec Trace (List Update)
unfolding turn branch_at advanced finish_round
interleaved [] bs = finish_round bs
interleaved (k ∷ ks) bs = do turn (branch_at k bs); interleaved ks (advanced k bs)

module _ {V F : Type 0} (o : Services V F) (checks : SqlChecks) where
  pub run_node : Node → AgentState → Exec Trace Update
  run_node extracting s = extract_keywords o s
  run_node recalling_columns s = recall_column o s
  run_node recalling_values s = recall_value o s
  run_node recalling_metrics s = recall_metric o s
  run_node merging s = merge_node o s
  run_node filtering_metrics s = filter_metric_node o s
  run_node filtering_tables s = filter_table_node o s
  run_node adding_context s = add_extra_context o s
  run_node generating s = generate_sql o s
  run_node validating s = validate_sql o checks s
  run_node correcting s = correct_sql o s
  run_node running_sql s = run_sql o checks s

  -- What a node does on its own.
  abbrev alone : Node → AgentState → Result Update × Trace
  alone n s = run_node n s (record { events = []; calls = [] })

  branches : AgentState → List Node → List Branch
  unfolding run_node
  branches s [] = []
  branches s (n ∷ ns) =
      record { messages = reverse (alone n s).1.events; result = (alone n s).0 } ∷ branches s ns

  calls_of : AgentState → List Node → List DbCall
  unfolding run_node
  calls_of s [] = []
  calls_of s (n ∷ ns) = (alone n s).1.calls ++ calls_of s ns

  -- Nodes of one round run at once, each on the state before the round. (None of those that share a
  -- round calls the warehouse.)
  together : List Node → AgentState → Exec Trace (List Update)
  unfolding branches calls_of interleaved
  together ns s t =
      interleaved (o.turns t) (branches s ns) (record t { calls = calls_of s ns ++ t.calls })

  -- One round.
  pub run_nodes : List Node → AgentState → Exec Trace (List Update)
  unfolding run_node together
  run_nodes [] s = pure []
  run_nodes (n ∷ []) s = do u ← run_node n s; pure (u ∷ [])
  run_nodes (n ∷ m ∷ ns) s = together (n ∷ m ∷ ns) s

  pub run_graph : ℕ → List Node → AgentState → Exec Trace AgentState
  unfolding run_nodes next_nodes recursion_error apply_updates
  run_graph left [] s = pure s
  run_graph zero (n ∷ ns) s = raise recursion_error
  run_graph (suc left) (n ∷ ns) s = do
    us ← run_nodes (n ∷ ns) s
    following ← lift (next_nodes (apply_updates us s) (n ∷ ns))
    run_graph left following (apply_updates us s)

  abbrev pub asked : String → AgentState
  asked question = record {
    query = question;
    keywords = none;
    column_infos = none;
    metric_candidates = none;
    value_infos = none;
    table_infos = none;
    metric_infos = none;
    date_info = none;
    db_info = none;
    sql = none;
    error = none;
  }

  -- graph.astream(state)
  unfoldable pub ask_graph : String → Exec Trace AgentState
  unfolding run_graph
  ask_graph question = run_graph recursion_limit (extracting ∷ []) (asked question)

  closed_by : Result AgentState → Trace → Trace
  closed_by (ok s) t = t
  closed_by (err e) t = emit (gave_up (o.message e)) t

  -- QueryService.query: the whole stream
  unfoldable pub answer_query : String → Trace → Trace
  unfolding ask_graph closed_by
  answer_query question t = let (r, t') = ask_graph question t in closed_by r t'
