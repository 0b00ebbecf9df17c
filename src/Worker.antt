-- ===== src/Worker.antt =====
-- The worker: sessions of a task, the map of running samples, the use of containers, configurations.
pub mod Session
pub mod TaskWorker
pub mod Provider
pub mod State
pub mod Docker
pub mod Etcd
pub mod K8s
pub mod Config
