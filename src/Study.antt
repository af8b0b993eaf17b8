-- ===== src/Study.antt =====
-- study/market-reference/algorithms.ts: the sampling algorithms of the event study.
pub mod Bootstrap
mod Tests
