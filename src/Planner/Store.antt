-- ===== src/Planner/Store.antt =====
-- pkg/planner/store.go: the plans of the nodes, kept in secrets of the API server.
pub mod Decode
pub mod Update
pub mod Assign
pub mod Threshold
pub mod Copying
pub mod Delivered
pub mod Assigned
