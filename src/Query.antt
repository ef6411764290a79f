-- ===== src/Query.antt =====
-- query/app: the data agent, which answers questions about the warehouse.
pub mod Guard
pub mod Knowledge
pub mod Merge
pub mod Agent
pub mod Filters
pub mod Retrieval
pub mod Routing
pub mod Sql
pub mod Samples
