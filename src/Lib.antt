-- ===== src/Lib.antt =====
-- A model of the server of a trading school: courses that are read from manifests, exercises that a
-- learner practises, and exams that draw one question from each module.
--
-- The parts of the program and their files, paths from the root of the repository:
--
-- * Content/Schema.antt is the manifest of a course, backend/src/tradeschool/content/schema.py:
--   blocks hold modules, modules hold lessons, lessons hold exercises. `iter_modules`, `iter_lessons`
--   and `iter_exercises` are the methods of these names, `validate_structure` is the validator.
-- * Content/Registry.antt is the registry of one course, content/registry.py: `build` is the
--   constructor with the loops of `__post_init__`, which fills the maps between display ids, which may
--   change, and keys, which are permanent. All further operations are the methods of the same names.
--   The pages of a course, a module and a lesson are in Registry/Tree.antt; the reading times that
--   they show are an argument there.
-- * Exercises/Generator.antt is the contract of a generator, exercises/base.py. The services know a
--   generator by this contract only; to them the generators are a parameter, the record `Platform`,
--   which also holds the rounding of a score. A score is in ten-thousandths.
-- * Exercises/Quiz.antt and its children are exercises/quiz.py: the validation of a variant, `generate` in
--   Quiz/Instance.antt and `grade` in Quiz/Grade.antt. Exercises/Random.antt is what it uses of Python's
--   random generator, for a sequence of numbers that a seed stands for. Exercises/Reveal.antt is
--   exercises/reveal.py: the solution of an instance, read without a learner and checked.
-- * Store.antt is the tables, attempts/models.py and exams/models.py: a table is a list of rows in the
--   order of insertion, a uuid a number, and a time a number.
-- * Attempts.antt is attempts/service.py: `open_attempt`, `submit_answer`, `review_attempt` and
--   `user_attempts`.
-- * Exams.antt and its children are exams/service.py: `start_exam`, `answer_question`, `submit_exam`,
--   `abandon_exam`, `render_exam`, `review_exam`, `open_exams` and `exam_history`. Exams/Steps.antt has each
--   request on practice and exams as a step; where one adds rows, the primary key accepts them.
-- * Stats.antt and its children are stats/service.py: `roll_by_exercise` of the attempts, the page of one
--   learner in Stats/Me.antt (`me_stats`) and that about all in Stats/Global.antt (`global_stats`).
-- * Enrollment.antt and its children are enrollment/service.py, enrollment/reading.py, content/collation.py
--   and the catalogue of content/registry.py: `load_state`, `save_state`, `enroll_at_signup`.
-- * Content/Sync.antt and its children are content/sync.py and content/models.py: `upsert` of one skeleton
--   table in Sync/Upsert.antt, the rows of a manifest in Sync/Models.antt, `reconcile` and
--   `reconcile_catalog` over the five tables in Sync.antt. The flushes and the foreign keys are left out.
-- * Auth.antt and its children are auth/email_tokens.py (Auth/Tokens.antt), auth/email_verification.py
--   (Auth/Verification.antt), auth/password_reset.py (Auth/Reset.antt), auth/manager.py and the names of
--   auth/schemas.py (Auth/Manager.antt). The hashes, the case of letters and whether mail is configured are
--   the record `Services`; a mail that is handed over stands in `outbox`. Auth/Steps.antt has each request
--   as a step, and the states that steps reach.
-- * Reports/Answers.antt is reports/answers.py, and Reports/Filing.antt is reports/service.py and
--   reports/models.py: `file_report`, and `deliver_pending`, for a mail server that accepts or refuses.
-- * Base.antt holds what they share, and Tests the witnesses and runs on a small course.
--
-- An operation takes the tables and returns what the code returns or raises, with the tables as the
-- commit leaves them: what raises before the commit changes nothing. What the code draws from outside,
-- the numbers of `secrets`, the time and the ids of new rows, are arguments; the clock of the
-- application and that of the database are one. The services reach the
-- generators and the tables through the registry, which they only read. All loops are
-- over lists; only the decimal text of a number runs on fuel, the number itself, which is more than
-- its digits. A seed is below 2^62, by `%`.
--
-- Not modelled: the web layer, sign-in (a library) and the texts of mails, the loading of files, the
-- checks of prose, the generators of calculations and of charts; the message texts of errors, which
-- only go to the log; and concurrent requests, since a request runs to its commit here.
pub mod Base
pub mod Content
pub mod Exercises
pub mod Store
pub mod Attempts
pub mod Exams
pub mod Stats
pub mod Enrollment
pub mod Auth
pub mod Reports
mod Tests
