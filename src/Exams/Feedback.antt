-- ===== src/Exams/Feedback.antt =====
-- backend/src/tradeschool/attempts/service.py and exams/service.py: the practice endpoint on a question
-- of an exam that is in progress.
use tradeschool.Base.{ℕ, String, ◌≡◌, true, arith, ok}
use tradeschool.Base.Json.{Object}
use tradeschool.Content.Schema.{ExerciseType}
use tradeschool.Content.Registry.{CourseRegistry, slug}
use tradeschool.Exercises.Generator.{Platform, GradeResult}
use tradeschool.Store.{
  Attempt, is_open, is_open_exam, ExamSession, Db, in_session, find-put_attempt,
}
use tradeschool.Attempts.{resolve, display_id, resolved, submit_answer, grade_open}
use tradeschool.Attempts.Answer.{load_owned_iff}
use tradeschool.Exams.Handlers.{answer_question}
use tradeschool.Attempts
use tradeschool.Exams

module _ {Config : Type 0} (platform : Platform Config) (registry : CourseRegistry Config) (db : Db)
    (user_id attempt_id : ℕ) (answer : Object) (locale : String) (now : ℕ) where
  -- A question of the user's own exam in progress, sent to the practice endpoint with an answer that can
  -- be graded, is graded at once, and the exam goes on: another answer to it is still accepted.
  pub submit_answer-answer_question :
      (a : Attempt) (exam : ExamSession) (exercise_type : ExerciseType) (config : Config)
      (result : GradeResult) (answer₂ : Object)
      → Attempts.load_owned registry db user_id attempt_id ≡ ok a
      → is_open a.state ≡ true
      → in_session exam.id a ≡ true
      → Exams.load_owned db user_id exam.id (slug registry) ≡ ok exam
      → is_open_exam exam.rules.status ≡ true
      → resolve registry (display_id registry a) ≡ ok (exercise_type, config)
      → (platform.get_generator exercise_type).grade config a.seed answer locale ≡ ok result
      → ((submit_answer platform registry db user_id attempt_id answer locale now).0
          ≡ ok (resolved a answer result.correct now, result))
        × ((answer_question
              (submit_answer platform registry db user_id attempt_id answer locale now).1
              user_id
              exam.id
              (slug registry)
              attempt_id
              answer₂).0
            ≡ ok tt)
  unfolding submit_answer answer_question Exams.load_owned
  submit_answer-answer_question a exam exercise_type config result answer₂ owned unanswered member
        mine running playable graded =
      let (found, _, _) = (load_owned_iff registry db user_id attempt_id a).0 owned in
      let kept = find-put_attempt (resolved a answer result.correct now) attempt_id db.attempts in
      (ground arith, ground arith)
