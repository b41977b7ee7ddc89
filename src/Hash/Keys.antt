-- ===== src/Hash/Keys.antt =====
-- The hash and the comparison of keys together.
