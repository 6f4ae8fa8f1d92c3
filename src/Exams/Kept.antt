-- ===== src/Exams/Kept.antt =====
-- What the requests on attempts and exams, backend/src/tradeschool/attempts/service.py and
-- exams/service.py, leave alone: all but the submission of an exam.
use tradeschool.Base.{
  ℕ, String, ◌≡◌, refl, ap, subst, true, Option, some, [], ◌∷◌, arith, Bool-cases, Option-cases,
  inl, inr, Result, ok, err, Result-cases,
}
use tradeschool.Base.Json.{Object}
use tradeschool.Content.Registry.{CourseRegistry, slug}
use tradeschool.Exercises.Generator.{Platform}
use tradeschool.Store.{
  Attempt, is_answered, is_practice, in_session, is_open_exam, ExamSession, Db, get_attempt,
  put_attempt, commit,
}
use tradeschool.Attempts
use tradeschool.Attempts.{
  open_attempt, submit_answer, grade_open, create, OpenedAttempt, resolved, supersedes,
}
use tradeschool.Attempts.Single.{create_cases}
use tradeschool.Attempts.Answer.{submit_cases, load_owned_iff}
use tradeschool.Exams
use tradeschool.Exams.{attempts_of, canonical_place, open_sessions, abandon}
use tradeschool.Exams.Start.{Draws, assemble, close_same_scope}
use tradeschool.Exams.Questions.{assemble-questions}
use tradeschool.Exams.Handlers.{store_answer, answer_question, abandon_exam}
use tradeschool.Exams.Final.{
  HasSingleIds, IsKept, put-IsKept, other-id, abandon_of-IsKept, close_same_scope-IsKept,
  append-IsKept, abandon-IsKept,
}

store_answer_cases :
    (db : Db) (user_id exam_id : ℕ) (course_id : String) (attempt_id : ℕ) (answer : Object)
    (db' : Db)
    → store_answer db user_id exam_id course_id attempt_id answer ≡ ok (tt, db')
    → (a : Attempt) × (get_attempt db attempt_id ≡ some a)
      × (in_session exam_id a ≡ true)
      × (db'.attempts ≡ put_attempt (record a { given_answer = some answer }) db.attempts)
unfolding store_answer
store_answer_cases db user_id exam_id course_id attempt_id answer db' h =
    elim (Option-cases (get_attempt db attempt_id)) [
      | inl e ↦ absurd (ground (arith, e, h))
      | inr (a, e) ↦ (a, e, ground (arith, e, h), ground (arith, e, h))
    ]

module _ {Config : Type 0} (platform : Platform Config) (registry : CourseRegistry Config) where
  module _ (b : Attempt) (practice : is_practice b ≡ true) (done : is_answered b.state ≡ true) where
    commit-IsKept :
        {A : Type 0} (db : Db) (r : Result (A × Db))
        → IsKept b db.attempts
        → ((a : A) (db' : Db) → r ≡ ok (a, db') → IsKept b db'.attempts)
        → IsKept b (commit db r).1.attempts
    commit-IsKept db (ok (a, db')) kept f = f a db' refl
    commit-IsKept db (err e) kept f = kept

    pub opened-IsKept :
        (db : Db) (user_id : ℕ) (exercise_id locale : String) (random new_id now : ℕ)
        → HasSingleIds
            (open_attempt platform registry db user_id exercise_id locale random new_id
              now).1.attempts
        → IsKept b db.attempts
        → IsKept b
            (open_attempt platform registry db user_id exercise_id locale random new_id
              now).1.attempts
    unfolding open_attempt
    opened-IsKept db user_id exercise_id locale random new_id now single kept =
        let made = create platform registry db user_id exercise_id locale random new_id now in
        commit-IsKept db made kept (λ o db' e.
          let (_, _, _, _, rows, _) =
            create_cases platform registry db user_id exercise_id locale random new_id now o db'
              e in
          let after : HasSingleIds db'.attempts =
            subst (λ z. HasSingleIds (commit db z).1.attempts) e single in
          rw rows (
            append-IsKept b practice done
              (Attempts.abandon (supersedes user_id (slug registry) o.attempt.exercise_id)
                db.attempts)
              (o.attempt ∷ [])
              (abandon-IsKept b practice done user_id (slug registry) o.attempt.exercise_id
                db.attempts kept)
              (subst HasSingleIds rows after)))

    pub submitted-IsKept :
        (db : Db) (user_id attempt_id : ℕ) (answer : Object) (locale : String) (now : ℕ)
        → IsKept b db.attempts
        → IsKept b
            (submit_answer platform registry db user_id attempt_id answer locale now).1.attempts
    unfolding submit_answer
    submitted-IsKept db user_id attempt_id answer locale now kept =
        commit-IsKept db (grade_open platform registry db user_id attempt_id answer locale now) kept
          (λ (a', result) db' e.
            let s =
              submit_cases platform registry db user_id attempt_id answer locale now a' result db'
                e in
            let (found, _, _) =
              (load_owned_iff registry db user_id attempt_id s.before).0 s.owned in
            let was_open = s.was_open in
            let after = s.after in
            let apart =
              other-id b practice done s.before db.attempts attempt_id kept found
                (λ p. ground (arith, was_open, done, ap (λ (x : Attempt). x.state) p)) in
            rw (s.stored) (
              put-IsKept b practice done a' db.attempts
                (ground (arith, apart, ap (λ (x : Attempt). x.id) after)) kept))

    pub question_answered-IsKept :
        (db : Db) (user_id exam_id : ℕ) (course_id : String) (attempt_id : ℕ) (answer : Object)
        → IsKept b db.attempts
        → IsKept b (answer_question db user_id exam_id course_id attempt_id answer).1.attempts
    unfolding answer_question
    question_answered-IsKept db user_id exam_id course_id attempt_id answer kept =
        commit-IsKept db (store_answer db user_id exam_id course_id attempt_id answer) kept
          (λ _ db' e.
            let (a, found, inside, rows) =
              store_answer_cases db user_id exam_id course_id attempt_id answer db' e in
            rw rows (
              put-IsKept b practice done (record a { given_answer = some answer }) db.attempts
                (other-id b practice done a db.attempts attempt_id kept found
                  (λ p. ground (arith, inside, practice, ap (in_session exam_id) p)))
                kept))

    abandoned-IsKept :
        (now : ℕ) (db : Db) (exam : ExamSession)
        → IsKept b db.attempts
        → IsKept b (abandon now db exam).attempts
    unfolding abandon
    abandoned-IsKept now db exam kept = abandon_of-IsKept b practice done exam.id db.attempts kept

    pub exam_abandoned-IsKept :
        (db : Db) (user_id exam_id : ℕ) (course_id : String) (now : ℕ)
        → IsKept b db.attempts
        → IsKept b (abandon_exam db user_id exam_id course_id now).1.attempts
    unfolding abandon_exam
    exam_abandoned-IsKept db user_id exam_id course_id now kept =
        elim (Result-cases (Exams.load_owned db user_id exam_id course_id)) [
          | inr (f, e) ↦ subst (IsKept b) (ground (arith, e)) kept
          | inl (exam, e) ↦ elim (Bool-cases (is_open_exam exam.rules.status)) [
            | inl t ↦ subst (IsKept b) (ground (arith, e, t)) (abandoned-IsKept now db exam kept)
            | inr t ↦ subst (IsKept b) (ground (arith, e, t)) kept
          ]
        ]

    pub exam_started-IsKept :
        (draws : Draws) (user_id : ℕ) (course_id locale : String) (db db' : Db) (scope : String)
        (block_id : Option String) (exam : ExamSession)
        → assemble platform registry draws user_id course_id locale db scope block_id
          ≡ ok (exam, db')
        → HasSingleIds db'.attempts
        → IsKept b db.attempts
        → IsKept b db'.attempts
    exam_started-IsKept draws user_id course_id locale db db' scope block_id exam h single kept =
        let (modules, qs, _, rows, _, _, _) =
          assemble-questions platform registry draws user_id course_id locale db db' scope block_id
            exam h in
        let closed =
          close_same_scope draws.now exam.rules.scope exam.rules.block_id db
            (open_sessions db user_id course_id) in
        rw rows (
          append-IsKept b practice done closed.attempts qs
            (close_same_scope-IsKept b practice done draws.now exam.rules.scope exam.rules.block_id
              db (open_sessions db user_id course_id) kept)
            (subst HasSingleIds rows single))
