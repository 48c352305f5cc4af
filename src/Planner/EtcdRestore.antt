-- ===== src/Planner/EtcdRestore.antt =====
-- pkg/planner/etcdrestore.go: the restore of an etcd snapshot.
pub mod Scripts
pub mod State
pub mod Plans
pub mod Stop
pub mod Phases
pub mod Steps
pub mod Stopped
pub mod Restored
pub mod Finished
