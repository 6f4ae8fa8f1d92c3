-- ===== src/Reports.antt =====
-- backend/src/tradeschool/reports: questions that a learner reports as wrong.
pub mod Answers
pub mod Filing
pub mod Limits
pub mod Delivery
