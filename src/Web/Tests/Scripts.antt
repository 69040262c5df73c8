-- ===== src/Web/Tests/Scripts.antt =====
-- A POST for a script of the stand-alone server, at a concrete request.
