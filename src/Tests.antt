-- ===== src/Tests.antt =====
-- Runs of the model on a small course, and the theorems at inputs that meet their hypotheses.
mod Sample
mod Content
mod Attempts
mod Exams
mod Stats
mod Quiz
mod Enrollment
mod Sync
mod Auth
mod Reports
