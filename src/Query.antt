-- ===== src/Query.antt =====
-- TQueryOp::BindParamsAndRun of query.cpp: what a query asks of the Redis server.
pub mod Run
pub mod Keys
pub mod Select
pub mod Execute
pub mod Script
