-- ===== src/Exams/Handlers.antt =====
-- backend/src/tradeschool/exams/service.py: the other handlers of an exam.
use tradeschool.Base.{
  ℕ, ◌==◌, String, Bool, true, false, not, ◌&&◌, none, some, List, reverse, select, str_eq,
  if◌then◌else◌, traverse, Result, ok, err, app, ◌>>=◌, ◌>>◌, raise_if, or_raise,
}
use tradeschool.Base.Json.{Object}
use tradeschool.Base.Sort.{sort_by}
use tradeschool.Content.Registry.{CourseRegistry}
use tradeschool.Exercises.Generator.{Platform}
use tradeschool.Store.{
  is_open_exam, is_submitted, ExamSession, Db, get_attempt, put_attempt, in_session, commit,
}
use tradeschool.Exams.{load_owned, attempts_of, open_sessions, abandon}
use tradeschool.Exams.View.{ExamView, build_view}

-- `answer_question`: stored or replaced; nothing is graded.
unfoldable pub store_answer :
    Db
    → (user_id exam_id : ℕ) (course_id : String) (attempt_id : ℕ) (answer : Object)
    → Result (Unit {0} × Db)
store_answer db user_id exam_id course_id attempt_id answer = do
  exam ← load_owned db user_id exam_id course_id
  raise_if (not (is_open_exam exam.rules.status)) (app "EXAM_NOT_OPEN" 409)
  a ← or_raise (get_attempt db attempt_id) (app "EXAM_QUESTION_NOT_FOUND" 404)
  raise_if (not (in_session exam_id a)) (app "EXAM_QUESTION_NOT_FOUND" 404)
  ok (
    tt,
    record db { attempts = put_attempt (record a { given_answer = some answer }) db.attempts },
  )

unfoldable pub answer_question :
    Db
    → (user_id exam_id : ℕ) (course_id : String) (attempt_id : ℕ) (answer : Object)
    → Result (Unit {0}) × Db
unfolding store_answer
answer_question db user_id exam_id course_id attempt_id answer =
    commit db (store_answer db user_id exam_id course_id attempt_id answer)

-- Abandoning an exam that is not open does nothing.
unfoldable pub abandon_exam :
    Db → (user_id exam_id : ℕ) (course_id : String) (now : ℕ) → Result (Unit {0}) × Db
abandon_exam db user_id exam_id course_id now = elim (load_owned db user_id exam_id course_id) [
  | err e ↦ (err e, db)
  | ok exam ↦ (ok tt, if is_open_exam exam.rules.status then abandon now db exam else db)
]

module _ {Config : Type 0} (platform : Platform Config) (registry : CourseRegistry Config)
    (locale : String) where
  pub render_exam : Db → (user_id exam_id : ℕ) (course_id : String) → Result ExamView
  render_exam db user_id exam_id course_id = do
    exam ← load_owned db user_id exam_id course_id
    raise_if (not (is_open_exam exam.rules.status)) (app "EXAM_NOT_OPEN" 409)
    build_view platform registry exam (attempts_of db exam.id) locale false

  pub review_exam : Db → (user_id exam_id : ℕ) (course_id : String) → Result ExamView
  review_exam db user_id exam_id course_id = do
    exam ← load_owned db user_id exam_id course_id
    raise_if (not (is_submitted exam.rules.status)) (app "EXAM_NOT_SUBMITTED" 409)
    build_view platform registry exam (attempts_of db exam.id) locale true

  pub open_exams : Db → (user_id : ℕ) (course_id : String) → Result (List ExamView)
  open_exams db user_id course_id =
      traverse (λ exam. build_view platform registry exam (attempts_of db exam.id) locale false)
        (open_sessions db user_id course_id)

abbrev pub finished_time : ExamSession → ℕ
finished_time s = elim s.finished_at [ none ↦ 0 | some t ↦ t ]

abbrev pub is_finished_of : ℕ → String → ExamSession → Bool
is_finished_of user_id course_id s =
    s.user_id == user_id
    && str_eq s.course_id course_id
    && (elim s.finished_at [ none ↦ false | some _ ↦ true ])

-- Submitted sessions, the last finished first.
pub exam_history : Db → (user_id : ℕ) (course_id : String) → List ExamSession
exam_history db user_id course_id =
    select (λ s. is_submitted s.rules.status)
      (reverse (sort_by finished_time (select (is_finished_of user_id course_id) db.exam_sessions)))
