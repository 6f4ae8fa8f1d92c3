-- ===== src/Exams/Steps.antt =====
-- The requests that change attempts, backend/src/tradeschool/attempts/service.py and exams/service.py, as
-- steps, and what no sequence of them changes.
use tradeschool.Base.{ℕ, String, ◌≡◌, true, Option, some, ok}
use tradeschool.Base.Json.{Object}
use tradeschool.Content.Registry.{CourseRegistry}
use tradeschool.Exercises.Generator.{Platform}
use tradeschool.Store.{Attempt, is_answered, is_practice, ExamSession, Db, get_attempt}
use tradeschool.Attempts.{open_attempt, submit_answer}
use tradeschool.Exams.Start.{Draws, assemble}
use tradeschool.Exams.Submit.{submit_exam}
use tradeschool.Exams.Handlers.{answer_question, abandon_exam}
use tradeschool.Exams.Final.{HasSingleIds, IsKept}
use tradeschool.Exams.Kept.{
  opened-IsKept, submitted-IsKept, question_answered-IsKept, exam_abandoned-IsKept,
  exam_started-IsKept,
}
use tradeschool.Exams.Graded.{exam_submitted-IsKept}

module _ {Config : Type 0} (platform : Platform Config) (registry : CourseRegistry Config) where
  -- One request, whatever it ends in. Where it adds rows, the primary key accepts them.
  pub data Step (db : Db) : Db → Type 0 where
    opened :
        (user_id : ℕ) (exercise_id locale : String) (random new_id now : ℕ)
        → HasSingleIds
            (open_attempt platform registry db user_id exercise_id locale random new_id
              now).1.attempts
        → Step db (open_attempt platform registry db user_id exercise_id locale random new_id now).1
    submitted :
        (user_id attempt_id : ℕ) (answer : Object) (locale : String) (now : ℕ)
        → Step db (submit_answer platform registry db user_id attempt_id answer locale now).1
    exam_started :
        (draws : Draws) (user_id : ℕ) (course_id locale scope : String) (block_id : Option String)
        {exam : ExamSession} {db' : Db}
        → assemble platform registry draws user_id course_id locale db scope block_id
          ≡ ok (exam, db')
        → HasSingleIds db'.attempts
        → Step db db'
    question_answered :
        (user_id exam_id : ℕ) (course_id : String) (attempt_id : ℕ) (answer : Object)
        → Step db (answer_question db user_id exam_id course_id attempt_id answer).1
    exam_submitted :
        (locale : String) (now user_id exam_id : ℕ) (course_id : String)
        → Step db (submit_exam platform registry locale now db user_id exam_id course_id).1
    exam_abandoned :
        (user_id exam_id : ℕ) (course_id : String) (now : ℕ)
        → Step db (abandon_exam db user_id exam_id course_id now).1

  -- Any number of requests.
  pub data Later (db : Db) : Db → Type 0 where
    now_there : Later db db
    next : {s t : Db} → Later db s → Step s t → Later db t

  module _ (b : Attempt) (practice : is_practice b ≡ true) (done : is_answered b.state ≡ true) where
    Step-IsKept : {db db' : Db} → Step db db' → IsKept b db.attempts → IsKept b db'.attempts
    Step-IsKept {db} (opened user_id exercise_id locale random new_id now single) kept =
        opened-IsKept platform registry b practice done db user_id exercise_id locale random new_id
          now single kept
    Step-IsKept {db} (submitted user_id attempt_id answer locale now) kept =
        submitted-IsKept platform registry b practice done db user_id attempt_id answer locale now
          kept
    Step-IsKept {db}
          (exam_started draws user_id course_id locale scope block_id {exam} {db'} h single) kept =
        exam_started-IsKept platform registry b practice done draws user_id course_id locale db db'
          scope block_id exam h single kept
    Step-IsKept {db} (question_answered user_id exam_id course_id attempt_id answer) kept =
        question_answered-IsKept platform registry b practice done db user_id exam_id course_id
          attempt_id answer kept
    Step-IsKept {db} (exam_submitted locale now user_id exam_id course_id) kept =
        exam_submitted-IsKept platform registry b practice done locale now db user_id exam_id
          course_id kept
    Step-IsKept {db} (exam_abandoned user_id exam_id course_id now) kept =
        exam_abandoned-IsKept platform registry b practice done db user_id exam_id course_id now
          kept

    -- An answered practice attempt is final: whatever requests follow, on practice and exams, in any
    -- order and by anyone, it is found as it was; where ids are distinct.
    pub Later-answered :
        {db db' : Db}
        → Later db db'
        → HasSingleIds db.attempts
        → get_attempt db b.id ≡ some b
        → get_attempt db' b.id ≡ some b
    Later-answered later single found = (after later (single, found)).1
      where
        after : {db db' : Db} → Later db db' → IsKept b db.attempts → IsKept b db'.attempts
        after now_there kept = kept
        after (next l step) kept = Step-IsKept step (after l kept)
