-- ===== src/Ifaces/Tests.antt =====
-- The theorems on the states and the difficulties, at numbers outside the range.
