-- ===== src/Zebra/Script/Post.antt =====
-- A POST for a script: what the server goes on with, and what the script is told.
