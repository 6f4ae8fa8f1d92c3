-- ===== src/Exams/Answer.antt =====
-- backend/src/tradeschool/exams/service.py, `answer_question`: what is accepted, and what it changes.
use tradeschool.Base.{
  ℕ, ◌==◌, String, ◌≡◌, refl, ◌↔◌, true, some, arith, if◌then◌else◌, str_eq_iff, find_holds,
  Option-cases, inl, inr, ok, Result-cases,
}
use tradeschool.Base.Json.{Object}
use tradeschool.Store.{
  Attempt, is_open_exam, ExamSession, Db, get_attempt, get_session, put_attempt, find-put_attempt,
}
use tradeschool.Exams.{load_owned}
use tradeschool.Exams.Handlers.{answer_question}

module _ (db : Db) (user_id exam_id : ℕ) (course_id : String) (attempt_id : ℕ)
    (answer : Object) where
  -- The question of an exam in progress.
  abbrev pub IsAnswerable : ExamSession → Attempt → Type 0
  IsAnswerable exam a =
      (get_session db exam_id ≡ some exam)
      × (exam.user_id ≡ user_id)
      × (exam.course_id ≡ course_id)
      × (is_open_exam exam.rules.status ≡ true)
      × (get_attempt db attempt_id ≡ some a)
      × (a.exam_session_id ≡ some exam_id)

  owned_cases :
      (exam : ExamSession)
      → load_owned db user_id exam_id course_id ≡ ok exam
      → (get_session db exam_id ≡ some exam)
        × (exam.user_id ≡ user_id)
        × (exam.course_id ≡ course_id)
  unfolding load_owned
  owned_cases exam h =
      (ground arith, ground arith, ground (arith, str_eq_iff exam.course_id course_id))

  owns :
      (exam : ExamSession)
      → get_session db exam_id ≡ some exam
      → exam.user_id ≡ user_id
      → exam.course_id ≡ course_id
      → load_owned db user_id exam_id course_id ≡ ok exam
  unfolding load_owned
  owns exam found own course = ground (arith, str_eq_iff exam.course_id course_id)

  answerable :
      (answer_question db user_id exam_id course_id attempt_id answer).0 ≡ ok tt
      → (exam : ExamSession) × (a : Attempt) × IsAnswerable exam a
  unfolding answer_question
  answerable h = elim (Result-cases (load_owned db user_id exam_id course_id)) [
    | inr (f, e) ↦ absurd (ground arith)
    | inl (exam, e) ↦ elim (Option-cases (get_attempt db attempt_id)) [
      | inl k ↦ absurd (ground arith)
      | inr (a, k) ↦
          let (there, own, course) = owned_cases exam e in
          (exam, a, (there, own, course, ground arith, k, ground arith))
    ]
  ]

  -- An answer is accepted exactly when the exam with that id belongs to the user and to the course and is
  -- open, and the attempt with that id is one of its questions.
  pub answer_question_iff :
      ((answer_question db user_id exam_id course_id attempt_id answer).0 ≡ ok tt)
      ↔ ((exam : ExamSession) × (a : Attempt) × IsAnswerable exam a)
  unfolding answer_question
  answer_question_iff = (
    answerable,
    λ (exam, a, (there, own, course, running, found, member)).
        let owned = owns exam there own course in ground arith,
  )

  -- An answer that is accepted is stored in its question; every other attempt is found as before, and no
  -- exam session changes.
  pub answer_question-get_attempt :
      (a : Attempt) (id : ℕ)
      → (answer_question db user_id exam_id course_id attempt_id answer).0 ≡ ok tt
      → get_attempt db attempt_id ≡ some a
      → let db' = (answer_question db user_id exam_id course_id attempt_id answer).1 in
        (get_attempt db' id ≡ (
          if id == attempt_id
          then some (record a { given_answer = some answer })
          else get_attempt db id))
        × (db'.exam_sessions ≡ db.exam_sessions)
  unfolding answer_question
  answer_question-get_attempt a id h found =
      let (exam, a', (there, own, course, running, found', member)) = answerable h in
      let owned = owns exam there own course in
      let a'' : Attempt = record a { given_answer = some answer } in
      let same = find-put_attempt a'' id db.attempts in
      let place : a.id ≡ attempt_id =
        ground (arith, find_holds (λ x. x.id == attempt_id) db.attempts a found) in
      let stored : (answer_question db user_id exam_id course_id attempt_id answer).1
          ≡ record db { attempts = put_attempt a'' db.attempts } =
        ground arith in
      rw stored (
        elim (Option-cases (get_attempt db id)) [
          | inl n ↦ ground (arith, same, n)
          | inr (x, n) ↦
              let there = find_holds (λ y. y.id == id) db.attempts x n in
              ground (arith, same, n, there)
        ],
        refl,
      )
