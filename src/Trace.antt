-- ===== src/Trace.antt =====
-- The tables of FuzzerTracePC.h.
pub mod Counters
pub mod Recent
