-- ===== src/Trainer.antt =====
-- The trainer: the sample buffer, the task manager that fills it, the lock, the agent loop, and datasets.
pub mod Buffer
pub mod RwLock
pub mod TaskManager
pub mod AgentLoop
pub mod Balanced
