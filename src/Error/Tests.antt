-- ===== src/Error/Tests.antt =====
-- An example of an error that may be retried.
