-- ===== src/Attempts/Answer.antt =====
-- backend/src/tradeschool/attempts/service.py: answering an attempt and reviewing it.
use tradeschool.Base.{
  ℕ, ◌==◌, String, ◌≡◌, ◌↔◌, true, false, none, some, arith, str_eq_iff, find_holds, inl, inr, ok,
  err, app, Result-cases,
}
use tradeschool.Base.Json.{Object}
use tradeschool.Content.Schema.{ExerciseType}
use tradeschool.Content.Registry.{CourseRegistry, slug}
use tradeschool.Exercises.Generator.{Platform, GradeResult}
use tradeschool.Store.{
  is_open, is_answered, Attempt, Db, get_attempt, put_attempt, commit-eq-ok, find-put_attempt,
}
use tradeschool.Attempts.{
  resolve, display_id, load_owned, resolved, grade_open, submit_answer, review_attempt,
  AttemptReview,
}

module _ {Config : Type 0} (registry : CourseRegistry Config) (db : Db)
    (user_id attempt_id : ℕ) where
  -- The attempt that a user may see: theirs, in this course.
  abbrev pub Owns : Attempt → Type 0
  Owns a =
      (get_attempt db attempt_id ≡ some a) × (a.user_id ≡ user_id) × (a.course_id ≡ slug registry)

  -- The attempt that is loaded is exactly the one of that id, where it is the user's and of this course;
  -- so another's attempt is missing as an unknown id is.
  pub load_owned_iff : (a : Attempt) → (load_owned registry db user_id attempt_id ≡ ok a) ↔ Owns a
  unfolding load_owned
  load_owned_iff a = (
    (λ h. (ground arith, ground arith, ground (arith, str_eq_iff a.course_id (slug registry)))),
    (λ h. ground (arith, str_eq_iff a.course_id (slug registry))),
  )

module _ {Config : Type 0} (platform : Platform Config) (registry : CourseRegistry Config) (db : Db)
    (user_id attempt_id : ℕ) (locale : String) where
  -- A review of an answered row grades the stored answer again.
  review_regrades :
      (a : Attempt) (answer : Object) (result : GradeResult) (exercise_type : ExerciseType)
      (config : Config) (review : AttemptReview)
      → load_owned registry db user_id attempt_id ≡ ok a
      → is_answered a.state ≡ true
      → a.given_answer ≡ some answer
      → resolve registry (display_id registry a) ≡ ok (exercise_type, config)
      → (platform.get_generator exercise_type).grade config a.seed answer locale ≡ ok result
      → review_attempt platform registry db user_id attempt_id locale ≡ ok review
      → (review.attempt ≡ a) × (review.result ≡ some result)
  unfolding review_attempt
  review_regrades a answer result exercise_type config review owned closed given playable graded h =
      (ground arith, ground arith)

  -- A review shows no grading, and so no solution, of an attempt that has not been answered.
  review_hides_open :
      (review : AttemptReview)
      → review_attempt platform registry db user_id attempt_id locale ≡ ok review
      → is_answered review.attempt.state ≡ false
      → review.result ≡ none
  unfolding review_attempt
  review_hides_open review h closed =
      elim (Result-cases (load_owned registry db user_id attempt_id)) [
        | inr (f, e) ↦ cc (rw e at h)
        | inl (a, owned) ↦ elim (Result-cases (resolve registry (display_id registry a))) [
          | inr (f, e) ↦ absurd (ground arith)
          | inl ((exercise_type, config), playable) ↦ ground arith
        ]
      ]

module _ {Config : Type 0} (platform : Platform Config) (registry : CourseRegistry Config) (db : Db)
    (user_id attempt_id : ℕ) (answer : Object) (locale : String) (now : ℕ) where
  -- What a successful submission did.
  pub record Submitted (a' : Attempt) (result : GradeResult) (db' : Db) : Type 0 where
    pub before : Attempt
    pub exercise_type : ExerciseType
    pub config : Config
    pub owned : load_owned registry db user_id attempt_id ≡ ok before
    pub was_open : is_open before.state ≡ true
    pub playable : resolve registry (display_id registry before) ≡ ok (exercise_type, config)
    pub graded :
        (platform.get_generator exercise_type).grade config before.seed answer locale ≡ ok result
    pub after : a' ≡ resolved before answer result.correct now
    pub stored : db' ≡ record db { attempts = put_attempt a' db.attempts }

  pub submit_cases :
      (a' : Attempt) (result : GradeResult) (db' : Db)
      → grade_open platform registry db user_id attempt_id answer locale now
        ≡ ok ((a', result), db')
      → Submitted a' result db'
  submit_cases a' result db' h = elim (Result-cases (load_owned registry db user_id attempt_id)) [
    | inr (f, e) ↦ cc (rw e at h)
    | inl (a, owned) ↦ elim (Result-cases (resolve registry (display_id registry a))) [
      | inr (f, e) ↦ absurd (ground arith)
      | inl ((exercise_type, config), playable) ↦ record {
        before = a;
        exercise_type = exercise_type;
        config = config;
        owned = owned;
        was_open = ground arith;
        playable = playable;
        graded = ground arith;
        after = ground arith;
        stored = ground arith;
      }
    ]
  ]

  -- The row that was answered, in the table after it.
  Submitted-load_owned :
      {a' : Attempt} {result : GradeResult} {db' : Db}
      → Submitted a' result db'
      → (load_owned registry db' user_id attempt_id ≡ ok a') × (is_answered a'.state ≡ true)
  Submitted-load_owned {a'} {result} {db'} s =
      let (found, user, course) =
        (load_owned_iff registry db user_id attempt_id s.before).0 s.owned in
      let place : s.before.id ≡ attempt_id =
        ground (arith, find_holds (λ x. x.id == attempt_id) db.attempts s.before found) in
      let kept = find-put_attempt a' attempt_id db.attempts in
      let after = s.after in
      let stored = s.stored in
      (
        (load_owned_iff registry db' user_id attempt_id a').1
            (ground arith, ground arith, ground arith),
        ground arith,
      )

  -- An attempt is answered once: after a successful submission every further one, whatever the answer
  -- and the language, is refused as already resolved, and changes nothing.
  pub submit_answer_once :
      (a' : Attempt) (result : GradeResult)
      → (submit_answer platform registry db user_id attempt_id answer locale now).0
        ≡ ok (a', result)
      → (answer₂ : Object) (locale₂ : String) (now₂ : ℕ)
      → let db' = (submit_answer platform registry db user_id attempt_id answer locale now).1 in
        submit_answer platform registry db' user_id attempt_id answer₂ locale₂ now₂
        ≡ (err (app "ATTEMPT_ALREADY_RESOLVED" 409), db')
  unfolding submit_answer
  submit_answer_once a' result h answer₂ locale₂ now₂ =
      let (db', e, same) =
        commit-eq-ok db (grade_open platform registry db user_id attempt_id answer locale now)
          (a', result) h in
      let (found, closed) = Submitted-load_owned (submit_cases a' result db' e) in
      rw (same, found) (ground arith)

  -- A review after a successful submission, in the same language, shows the row as it was stored and
  -- exactly the grading that the learner was given.
  pub review-submit_answer :
      (a' : Attempt) (result : GradeResult)
      → (submit_answer platform registry db user_id attempt_id answer locale now).0
        ≡ ok (a', result)
      → (review : AttemptReview)
      → review_attempt platform registry
          (submit_answer platform registry db user_id attempt_id answer locale now).1
          user_id
          attempt_id
          locale
        ≡ ok review
      → (review.attempt ≡ a') × (review.result ≡ some result)
  unfolding submit_answer review_attempt
  review-submit_answer a' result h review shown =
      let (db', e, same) =
        commit-eq-ok db (grade_open platform registry db user_id attempt_id answer locale now)
          (a', result) h in
      let s = submit_cases a' result db' e in
      let (found, closed) = Submitted-load_owned s in
      let after = s.after in
      let playable = s.playable in
      let graded = s.graded in
      review_regrades platform registry db' user_id attempt_id locale a' answer result
        s.exercise_type s.config review found closed (ground arith) (ground arith) (ground arith)
        (rw same at shown)
