-- ===== src/Tests/Attempts.antt =====
-- Practice attempts at the small course.
use tradeschool.Base.{
  ◌≡◌, refl, ap, ok, err, app, some, none, [], ◌∷◌, not, select, count_if, arith, true,
}
use tradeschool.Base.Json.{Json}
use tradeschool.Content.Schema.{ExerciseType}
use tradeschool.Content.Registry.{slug}
use tradeschool.Exercises.Generator.{GradeResult}
use tradeschool.Store.{Attempt, Db, get_attempt, is_practice, open_state}
use tradeschool.Attempts.{
  open_attempt, submit_answer, review_attempt, OpenedAttempt, AttemptReview, supersedes, resolved,
}
use tradeschool.Attempts.Single.{IsSingle, open_attempt-IsSingle, open_attempt-once}
use tradeschool.Attempts.Answer.{submit_answer_once, review-submit_answer}
use tradeschool.Exams.Final.{HasSingleIds}
use tradeschool.Exams.Steps.{Step, Later, now_there, next, Later-answered}
use tradeschool.Tests.Sample.{registry, platform, answer, empty_db, program}

abbrev first_attempt : Attempt
first_attempt = record {
  id = 100;
  user_id = 7;
  course_id = "crypto";
  exercise_id = "k01-ex-1";
  seed = 12;
  instance_snapshot = record { type = ExerciseType.quiz; prompt = "Which?"; payload = [] };
  given_answer = none;
  is_correct = none;
  state = open_state;
  exam_session_id = none;
  created_at = 5;
  answered_at = none;
}

abbrev opened : OpenedAttempt
opened = record {
  attempt = first_attempt;
  instance_of = record { prompt = "Which?"; payload = [] };
  exercise_type = ExerciseType.quiz;
  exercise_id = "m01-ex-1";
}

abbrev one_row : Db
one_row = record { attempts = first_attempt ∷ []; exam_sessions = [] }

abbrev right : GradeResult
right = record {
  correct = true;
  correct_answer = Json.str "a";
  solution_steps = [];
  explanation = none;
}

abbrev answered_attempt : Attempt
answered_attempt = resolved first_attempt answer true 6

abbrev hidden : AttemptReview
hidden = record {
  attempt = first_attempt;
  exercise_type = ExerciseType.quiz;
  instance_of = record { prompt = "Which?"; payload = [] };
  result = none;
  exercise_id = "m01-ex-1";
}

abbrev shown : AttemptReview
shown = record hidden { attempt = answered_attempt; result = some right }

opens : open_attempt platform registry empty_db 7 "m01-ex-1" "en" 12 100 5 ≡ (ok opened, one_row)
unfolding program
opens = refl

submits :
    (submit_answer platform registry one_row 7 100 answer "en" 6).0 ≡ ok (answered_attempt, right)
unfolding program
submits = refl

reviews_open : review_attempt platform registry one_row 7 100 "en" ≡ ok hidden
unfolding program
reviews_open = refl

reviews_answered :
    review_attempt platform registry
      (submit_answer platform registry one_row 7 100 answer "en" 6).1
      7
      100
      "en"
    ≡ ok shown
unfolding program
reviews_answered = refl

abbrev empty-IsSingle : IsSingle []
empty-IsSingle u c k = omega arith

open_attempt-IsSingle_example :
    IsSingle (open_attempt platform registry empty_db 7 "m01-ex-1" "en" 12 100 5).1.attempts
open_attempt-IsSingle_example =
    open_attempt-IsSingle platform registry empty_db 7 "m01-ex-1" "en" 12 100 5 empty-IsSingle

open_attempt-once_example :
    let db' = (open_attempt platform registry empty_db 7 "m01-ex-1" "en" 12 100 5).1 in
    (count_if (supersedes 7 (slug registry) "k01-ex-1") db'.attempts ≡ 1)
    × (select (λ a. not (is_practice a)) db'.attempts ≡ [])
    × (db'.exam_sessions ≡ [])
open_attempt-once_example =
    open_attempt-once platform registry empty_db 7 "m01-ex-1" "en" 12 100 5 opened
      (ap (λ r. r.0) opens)

submit_answer_once_example :
    let db' = (submit_answer platform registry one_row 7 100 answer "en" 6).1 in
    submit_answer platform registry db' 7 100 [] "es" 9
    ≡ (err (app "ATTEMPT_ALREADY_RESOLVED" 409), db')
submit_answer_once_example =
    submit_answer_once platform registry one_row 7 100 answer "en" 6 answered_attempt right submits
      [] "es" 9

review-submit_answer_example : (shown.attempt ≡ answered_attempt) × (shown.result ≡ some right)
review-submit_answer_example =
    review-submit_answer platform registry one_row 7 100 answer "en" 6 answered_attempt right
      submits shown reviews_answered

-- The answered attempt, before the learner opens the exercise again and answers once more.
abbrev answered_db : Db
answered_db = record { attempts = answered_attempt ∷ []; exam_sessions = [] }

abbrev opened_again : Db
unfolding program
opened_again = (open_attempt platform registry answered_db 7 "m01-ex-1" "en" 12 101 7).1

single_again : HasSingleIds opened_again.attempts
unfolding program
single_again i = ground arith

abbrev answered_again : Db
unfolding program
answered_again = (submit_answer platform registry opened_again 7 101 answer "es" 8).1

requests : Later platform registry answered_db answered_again
unfolding program
requests =
    next (next now_there (Step.opened 7 "m01-ex-1" "en" 12 101 7 single_again))
      (Step.submitted 7 101 answer "es" 8)

single_before : HasSingleIds answered_db.attempts
single_before i = ground arith

Later-answered_example : get_attempt answered_again 100 ≡ some answered_attempt
unfolding program
Later-answered_example =
    Later-answered platform registry answered_attempt refl refl requests single_before refl
