-- ===== src/Plan.antt =====
-- internal/plan: the nodes, the graph and the executor.
pub mod Node
pub mod Dag
pub mod Executor
mod Tests
