-- ===== src/Lib.antt =====
-- IncidentDesk. The parts of the program that decide what an investigation may read, what it keeps,
-- and what it says.
--
-- The worker (worker/incident_worker) takes a task from the control plane, checks a query plan,
-- queries the sources of the task's service, turns the rows into evidence and facts, and reports.
--
--   Worker/Contracts    contracts.py: the data, and the constraints that pydantic checks.
--   Worker/Plan         context.py, `resolve`, `default_plan`, `validate_plan`.
--   Worker/Circuit      resilience.py, `Circuit`: one function per region under the lock, the retries
--                       of `call`, and histories of interleaved regions (Circuit/History).
--   Worker/Redaction    redaction.py: the patterns as matchers over characters, `redact` on JSON.
--   Worker/Session      runtime.py, `Runtime`: the budget, the requests, the delivery of a result.
--   Worker/Connectors   connectors.py: the queries of `HTTPSource` and `DeploymentSource`.
--   Worker/Gather       context.py, `assemble`, the loop over the steps of the plan, over the interface
--                       `Tools` of its runtime; the rows are in Gather/Row.
--   Worker/Assemble     context.py, `assemble`, before and after the loop.
--   Worker/Api          context_api.py, `query`.
--   Worker/Report       context.py, `report`; main.py, `report_status`.
--   Worker/Investigation  mistral.py: the request of `investigate`, and in Investigation/Publishing what
--                       it makes of the answer.
--   Worker/Replay       evaluation.py, `OfflineRuntime`, `replay`.
--   Worker/Live         main.py: the assembly of a live task.
--   Worker/Process      main.py, `process`, and harness.py, `gather`: a task from its claim to its end.
--   Worker/Artifacts    artifacts.py: the table and the object store, whose calls may fail.
--   Worker/Cache        cache.py, `ContextCache`: the key, and the transactions of get and put.
--
-- The query service (query/app) answers questions about a warehouse.
--
--   Query/Guard         core/sql_guard.py, over the interface `Sqlglot` of the SQL parser.
--   Query/Retrieval     core/retrieval.py; Retrieval/Requests: the tasks of `bounded_map`, as steps.
--   Query/Merge         agent/nodes/merge_retrieved_info.py, over the interface `Repository` of the
--                       metadata database.
--   Query/Filters       agent/nodes/filter_table.py and filter_metric.py.
--   Query/Routing       api/routers/routing.py, what follows the answer of the language model.
--
--   Query/Sql           core/relations.py, and in Sql/Metrics core/metrics.py and in Sql/Periods
--                       core/periods.py, over the interface `SqlTree` of the SQL parser.
--   Query/Agent         agent/state.py; Agent/Nodes: agent/nodes; Agent/Graph: agent/graph.py, and
--                       services/query_service.py, over the interface `SqlChecks` of the checks,
--                       which Agent/Warehouse fills with those of the program.
--   Query/Knowledge     services/meta_knowledge_service.py: the stages of the construction, over the
--                       stores of the metadata; their batches are those of repositories/qdrant and
--                       repositories/es.
--
--   Json                JSON values and the functions of Python's `json` that the worker uses.
--   Prelude             exceptions as values, state passing, lists.
--
-- A method that changes an object and may raise is a function from the state to a result and the
-- state, so that what was written before a raise stays written (Prelude/Errors). What lies outside
-- the repository is a parameter: the answers of the control plane and of the sources, the rows of
-- the database, the clock and the digest are the fields of the record `World` of Worker/Session, and
-- a theorem holds for every one of them. Loops are structural recursion: the attempts of a call, the
-- attempts of a delivery, the pages of a query and the rounds of the agent's graph count down from the
-- bound that the code has, the loop that shortens a request to the model from the number of its pieces
-- of evidence, and the loop that unwraps an expression from the height of its tree, with the theorem
-- that this is enough; all other loops are over lists and texts. What runs concurrently is a relation on
-- states, whose steps come in any order; the nodes that share a round of the agent's graph send their
-- messages in turns, by a list that is a parameter. Times are natural numbers, on one clock; counters are natural
-- numbers, as Python's integers do not wrap.
--
-- Not modelled: the control plane (backend, in Go), the demonstration servers, the interpretation of
-- questions (natural.py), the agent of harness.py, which a framework runs, the loop that claims tasks
-- (main.py), and the database and network clients. The texts of HTTP requests and of SQL
-- are not: a request is the data that is sent, and the selection that the SQL text makes is written
-- out.
pub mod Prelude
pub mod Json
pub mod Worker
pub mod Query
