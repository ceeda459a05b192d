-- ===== src/Models/Tests.antt =====
-- Witnesses of the rows.
