-- ===== src/Controllers.antt =====
-- pkg/controllers: the controllers beside the planner.
pub mod MachineDrain
