-- ===== src/Harness.antt =====
-- src: the harness around the sessions of agents.
pub mod RunBudgets
mod Tests
