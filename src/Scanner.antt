-- ===== src/Scanner.antt =====
-- The class `Scanner` of tx-runtime/include/tx/scanner.hxx and scanner_inl.hxx: its state and steps,
-- the keywords, the literals, and `scan_token`, which dispatches over them.
pub mod State
pub mod Keyword
pub mod Number
pub mod Text
pub mod Scan
pub mod Progress
pub mod Stuck
