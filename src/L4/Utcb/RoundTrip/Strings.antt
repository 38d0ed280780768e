-- ===== src/L4/Utcb/RoundTrip/Strings.antt =====
-- Strings written to the registers are read back from them, without a 0 at their end.
