-- ===== src/Workflow.antt =====
-- Edge/Model: the workflows of functions that a client invokes, as chains and as graphs, with the
-- application states that their functions need.
pub mod States
pub mod Chain
pub mod Dag
mod Tests
