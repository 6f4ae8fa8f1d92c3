-- ===== src/Exercises.antt =====
-- backend/src/tradeschool/exercises: the generators of exercises, and the reading of their solutions.
pub mod Generator
pub mod Random
pub mod Quiz
pub mod Reveal
