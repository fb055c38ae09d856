-- ===== src/Suppression.antt =====
-- src/suppression.rs: reviewed findings that no longer fail a run.
pub mod RuleIds
