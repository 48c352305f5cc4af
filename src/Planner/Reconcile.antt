-- ===== src/Planner/Reconcile.antt =====
-- pkg/planner/planner.go: `reconcile`, which brings one tier of nodes to the plans wanted for them.
pub mod Pass
pub mod Step
pub mod Tier
pub mod Budget
