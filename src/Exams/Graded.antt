-- ===== src/Exams/Graded.antt =====
-- What the submission of an exam, backend/src/tradeschool/exams/service.py, leaves alone: it writes its
-- own questions and no other row.
use tradeschool.Base.{
  ℕ, String, ◌≡◌, sym, subst, true, false, List, [], ◌∷◌, All, select, arith, inl, inr, ◌==◌, ok,
  Result-cases, bind_inverse, ok_injective,
}
use tradeschool.Base.Sort.{sort_by, sort_by-All}
use tradeschool.Content.Registry.{CourseRegistry}
use tradeschool.Exercises.Generator.{Platform}
use tradeschool.Store.{Attempt, is_answered, is_practice, in_session, ExamSession, Db, put_attempt}
use tradeschool.Exams.{attempts_of, canonical_place}
use tradeschool.Exams.Submit.{
  Tally, empty_tally, closed_attempt, tally_one, tally_all, grade_exam, submit_exam,
}
use tradeschool.Exams.Final.{IsKept, put-IsKept, in_session-id}

module _ {Config : Type 0} (platform : Platform Config) (registry : CourseRegistry Config) where
  tally_one-attempts :
      (locale : String) (now : ℕ) (t t' : Tally) (a : Attempt)
      → tally_one platform registry locale now t a ≡ ok t'
      → t'.attempts ≡ put_attempt (closed_attempt platform registry locale now a) t.attempts
  unfolding tally_one
  tally_one-attempts locale now t t' a h = ground (arith, h)

  module _ (b : Attempt) (practice : is_practice b ≡ true) (done : is_answered b.state ≡ true) where
    tally-IsKept :
        (locale : String) (now : ℕ) (t t' : Tally) (rows : List Attempt)
        → All (λ (a : Attempt). (a.id == b.id) ≡ false) rows
        → tally_all platform registry locale now t rows ≡ ok t'
        → IsKept b t.attempts
        → IsKept b t'.attempts
    unfolding tally_all
    tally-IsKept locale now t t' [] h e kept =
        subst (λ (z : Tally). IsKept b z.attempts) (ok_injective e) kept
    tally-IsKept locale now t t' (a ∷ rows) h e kept =
        let (t1, rest, first) =
          bind_inverse (λ z. tally_all platform registry locale now z rows)
            (tally_one platform registry locale now t a) e in
        tally-IsKept locale now t1 t' rows h.1 rest (
          subst (IsKept b) (sym (tally_one-attempts locale now t t1 a first)) (
            put-IsKept b practice done (closed_attempt platform registry locale now a) t.attempts
              h.0 kept))

    graded_rows :
        (locale : String) (now : ℕ) (db db' : Db) (user_id exam_id : ℕ) (course_id : String)
        (exam : ExamSession)
        → grade_exam platform registry locale now db user_id exam_id course_id ≡ ok (exam, db')
        → (t : Tally) × (tally_all platform registry locale now
              (empty_tally db.attempts)
              (sort_by (canonical_place registry) (attempts_of db exam_id))
            ≡ ok t)
          × (db'.attempts ≡ t.attempts)
    unfolding grade_exam
    graded_rows locale now db db' user_id exam_id course_id exam h =
        elim (Result-cases (
          tally_all platform registry locale now (empty_tally db.attempts)
            (sort_by (canonical_place registry) (attempts_of db exam_id)))) [
              | inr (f, e) ↦ absurd (ground (arith, e, h))
              | inl (t, e) ↦ (t, e, ground (arith, e, h))
            ]

    questions-id :
        (db : Db) (exam_id : ℕ)
        → IsKept b db.attempts
        → All
            (λ (a : Attempt). (a.id == b.id) ≡ false)
            (sort_by (canonical_place registry) (attempts_of db exam_id))
    unfolding attempts_of
    questions-id db exam_id kept =
        sort_by-All (canonical_place registry) (λ (a : Attempt). (a.id == b.id) ≡ false)
          (attempts_of db exam_id)
          (sort_by-All (λ (a : Attempt). a.id) (λ a. (a.id == b.id) ≡ false)
            (select (in_session exam_id) db.attempts)
            (in_session-id b practice done db.attempts exam_id kept))

    pub exam_submitted-IsKept :
        (locale : String) (now : ℕ) (db : Db) (user_id exam_id : ℕ) (course_id : String)
        → IsKept b db.attempts
        → IsKept b
            (submit_exam platform registry locale now db user_id exam_id course_id).1.attempts
    unfolding submit_exam
    exam_submitted-IsKept locale now db user_id exam_id course_id kept =
        elim (Result-cases (grade_exam platform registry locale now db user_id exam_id course_id)) [
          | inr (f, e) ↦ subst (IsKept b) (ground (arith, e)) kept
          | inl ((exam, db'), e) ↦
              let (t, tally, rows) =
                graded_rows locale now db db' user_id exam_id course_id exam e in
              subst (IsKept b) (ground (arith, e, rows)) (
                tally-IsKept locale now (empty_tally db.attempts) t
                  (sort_by (canonical_place registry) (attempts_of db exam_id))
                  (questions-id db exam_id kept) tally kept)
        ]
