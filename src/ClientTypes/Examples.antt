-- ===== src/ClientTypes/Examples.antt =====
-- A name that only the server reads.
