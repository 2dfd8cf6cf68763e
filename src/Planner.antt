-- ===== src/Planner.antt =====
-- The planners around the runtime.
pub mod Admission
