-- ===== src/Tests.antt =====
-- Concrete clusters on which the theorems about the planner are applied.
mod Base
mod Store
mod Planner
mod Reconcile
mod Etcd
mod Args
mod Probes
mod MachineDrain
mod Restore
mod Certificates
mod EncryptionKeys
