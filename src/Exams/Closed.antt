-- ===== src/Exams/Closed.antt =====
-- backend/src/tradeschool/exams/service.py: an exam after its submission.
use tradeschool.Base.{
  ℕ, ◌==◌, String, ◌≡◌, true, false, some, arith, str_eq_iff, find_holds, inl, inr, ok, err,
  Result-cases, app,
}
use tradeschool.Base.Json.{Object}
use tradeschool.Base.Sort.{sort_by}
use tradeschool.Content.Registry.{CourseRegistry}
use tradeschool.Exercises.Generator.{Platform}
use tradeschool.Store.{
  is_open_exam, is_submitted, ExamStatus, ExamSession, Db, get_session, put_session,
  find-put_session,
}
use tradeschool.Exams.{load_owned, attempts_of, canonical_place}
use tradeschool.Exams.Submit.{empty_tally, tally_all, exam_result, grade_exam, submit_exam}
use tradeschool.Exams.Handlers.{answer_question}

module _ {Config : Type 0} (platform : Platform Config) (registry : CourseRegistry Config)
    (locale : String) (now : ℕ) (db db' : Db) (user_id exam_id : ℕ) (course_id : String)
    (exam : ExamSession) where
  -- The session as it was, and as it is stored.
  closed_cases :
      grade_exam platform registry locale now db user_id exam_id course_id ≡ ok (exam, db')
      → (old : ExamSession) × (load_owned db user_id exam_id course_id ≡ ok old)
        × (exam.id ≡ old.id)
        × (exam.user_id ≡ old.user_id)
        × (exam.course_id ≡ old.course_id)
        × (is_submitted exam.rules.status ≡ true)
        × (db'.exam_sessions ≡ put_session exam db.exam_sessions)
  unfolding grade_exam
  closed_cases h = elim (Result-cases (load_owned db user_id exam_id course_id)) [
    | inr (f, e) ↦ cc (rw e at h)
    | inl (old, mine) ↦
        elim (Result-cases (
          tally_all platform registry locale now (empty_tally db.attempts)
            (sort_by (canonical_place registry) (attempts_of db exam_id)))) [
              | inr (f, e) ↦ absurd (ground arith)
              | inl (t, tally) ↦ elim (Result-cases (exam_result platform registry locale now t)) [
                | inr (f, e) ↦ absurd (ground arith)
                | inl (result, made) ↦ (
                  old,
                  mine,
                  ground arith,
                  ground arith,
                  ground arith,
                  ground arith,
                  ground arith,
                )
              ]
            ]
  ]

  load_owned-submitted :
      grade_exam platform registry locale now db user_id exam_id course_id ≡ ok (exam, db')
      → (load_owned db' user_id exam_id course_id ≡ ok exam)
        × (is_open_exam exam.rules.status ≡ false)
  unfolding load_owned
  load_owned-submitted h =
      let (old, mine, same_id, same_user, same_course, closed, rows) = closed_cases h in
      let found : get_session db exam_id ≡ some old = ground arith in
      let place : old.id ≡ exam_id =
        ground (arith, find_holds (λ s. s.id == exam_id) db.exam_sessions old found) in
      let kept = find-put_session exam exam_id db.exam_sessions in
      let there : get_session db' exam_id ≡ some exam = rw rows (ground arith) in
      (
        ground (arith, str_eq_iff old.course_id course_id, str_eq_iff exam.course_id course_id),
        ground arith,
      )

  -- What is returned is the session that is stored.
  pub get_session-graded :
      grade_exam platform registry locale now db user_id exam_id course_id ≡ ok (exam, db')
      → (get_session db' exam_id ≡ some exam) × (exam.rules.status ≡ ExamStatus.submitted)
  unfolding load_owned
  get_session-graded h =
      let (owned, _) = load_owned-submitted h in
      let (_, _, _, _, _, closed, _) = closed_cases h in (ground arith, ground arith)

  -- A submitted exam stays as it is: a further submission, in whatever language, and a further answer to
  -- any of its questions are refused as not in progress, and change nothing.
  pub grade_exam_once :
      grade_exam platform registry locale now db user_id exam_id course_id ≡ ok (exam, db')
      → (locale₂ : String) (now₂ attempt_id : ℕ) (answer : Object)
      → (submit_exam platform registry locale₂ now₂ db' user_id exam_id course_id
          ≡ (err (app "EXAM_NOT_OPEN" 409), db'))
        × (answer_question db' user_id exam_id course_id attempt_id answer
            ≡ (err (app "EXAM_NOT_OPEN" 409), db'))
  unfolding submit_exam answer_question
  grade_exam_once h locale₂ now₂ attempt_id answer =
      let (mine, closed) = load_owned-submitted h in (ground arith, ground arith)
