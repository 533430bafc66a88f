-- ===== src/Report/Tests.antt =====
-- The theorem about src/record.rs at a change that failed.
