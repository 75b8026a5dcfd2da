-- ===== src/Accounting.antt =====
-- internal/accounting: what a request costs, and the queue of the records.
pub mod Cost
pub mod Recorder
pub mod Tests
