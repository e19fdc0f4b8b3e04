-- ===== src/Status/Tests.antt =====
-- The status codes at concrete values.
