-- ===== src/Eval.antt =====
-- The evaluation client: what a sample does with the controller and a model, and the tokens it uses.
pub mod Types
pub mod Workflow
pub mod Runner
pub mod Tokens
pub mod Convert
