-- ===== src/Planner.antt =====
-- pkg/planner: the planner.
pub mod Entry
pub mod Collect
pub mod Messages
pub mod Store
pub mod Drain
pub mod Change
pub mod JoinUrl
pub mod Concurrency
pub mod Conditions
pub mod Reconcile
pub mod InitNode
pub mod FullReconcile
pub mod EtcdCreate
pub mod Args
pub mod Taints
pub mod Probes
pub mod Idempotent
pub mod Instructions
pub mod CapiCluster
pub mod S3Args
pub mod Desired
pub mod EtcdRestore
pub mod Certificates
pub mod EncryptionKeys
