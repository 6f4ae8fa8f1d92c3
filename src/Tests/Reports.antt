-- ===== src/Tests/Reports.antt =====
-- A learner reports a question that was answered, and the report is mailed at the second try.
use tradeschool.Base.{
  ◌+◌, ◌≡◌, refl, true, false, none, some, [], ◌∷◌, ◌++◌, map, find, ok, err, app, arith,
}
use tradeschool.Base.Sort.{sort_by}
use tradeschool.Content.Schema.{ExerciseType}
use tradeschool.Content.Registry.{exercise_id_for_key}
use tradeschool.Exercises.Quiz.{QuizConfig, QuizKind, variant}
use tradeschool.Store.{Attempt, answered, Db}
use tradeschool.Attempts.{load_owned}
use tradeschool.Auth.Models.{User}
use tradeschool.Reports.Answers.{describe_given, describe_correct}
use tradeschool.Reports.Filing.{
  QuestionReport, Tools, check_limits, reportable, report_of, file_report, is_quiz, config_of,
  deliver_pending,
}
use tradeschool.Reports.Limits.{IsLimited, about, file_report-IsLimited, file_report_effect}
use tradeschool.Reports.Delivery.{HasSingleIds, tried_once, deliver_pending-tried_once}
use tradeschool.Tests.Sample.{registry, platform, answer, program, text}

abbrev quiz : QuizConfig
quiz = record {
  variants =
      record {
        id = "v1";
        kind = QuizKind.true_false;
        prompt = text "Which?";
        explanation = none;
        options = [];
        answer = some true;
        items = [];
        pairs = [];
      }
      ∷ [];
}

abbrev tools : Tools (Unit {0})
tools = record {
  platform = platform;
  quiz_of = λ _. some quiz;
  draw = λ seed i. seed + i;
  render = λ _. "?";
  rstrip_slash = λ s. s;
}

abbrev learner : User
learner = record {
  id = 7;
  username = "ana";
  hashed_password = "secret";
  is_active = true;
  is_superuser = false;
  email = none;
  is_verified = false;
  locale = "en";
  created_at = 1;
}

abbrev done : Attempt
done = record {
  id = 100;
  user_id = 7;
  course_id = "crypto";
  exercise_id = "k01-ex-1";
  seed = 12;
  instance_snapshot = record { type = ExerciseType.quiz; prompt = "Which?"; payload = [] };
  given_answer = some answer;
  is_correct = some true;
  state = answered;
  exam_session_id = none;
  created_at = 5;
  answered_at = some 6;
}

abbrev db : Db
db = record { attempts = done ∷ []; exam_sessions = [] }

abbrev report : QuestionReport
report = record {
  id = 1;
  user_id = 7;
  attempt_id = 100;
  message = "It is wrong";
  course_id = "crypto";
  module_id = "m01";
  lesson_id = "m01-l1";
  exercise_id = "m01-ex-1";
  variant_id = "v1";
  seed = 12;
  reading_locale = "en";
  prompt = "Which?";
  given_answer = "a";
  correct_answer = "a";
  username = "ana";
  link = "https://x.es/courses/crypto/lessons/m01-l1#ex-m01-ex-1";
  created_at = 90000;
  emailed_at = none;
  email_attempts = 0;
}

files :
    file_report tools registry db [] learner 100 "It is wrong" "en" "https://x.es" 1 90000
    ≡ ok (report, report ∷ [])
unfolding program file_report reportable check_limits report_of load_owned describe_given
    describe_correct variant
files = refl

none_yet : IsLimited []
none_yet = record { once = λ i. omega arith; daily = λ u d. omega arith }

file_report-IsLimited_example : IsLimited (report ∷ [])
file_report-IsLimited_example =
    file_report-IsLimited tools registry db [] learner 100 "It is wrong" "en" "https://x.es" 1 90000
      report (report ∷ []) none_yet files

file_report_effect_example :
    (a : Attempt) × (load_owned registry db 7 100 ≡ ok a)
    × (a.state ≡ answered)
    × (is_quiz (config_of registry (exercise_id_for_key registry a.exercise_id)) ≡ true)
    × (report.attempt_id ≡ a.id)
    × (find (about a.id) [] ≡ none)
    × (report ∷ [] ≡ [] ++ (report ∷ []))
file_report_effect_example =
    file_report_effect tools registry db [] learner 100 "It is wrong" "en" "https://x.es" 1 90000
      report (report ∷ []) files

-- A second report about the same attempt is refused.
refused :
    file_report tools registry db (report ∷ []) learner 100 "Again" "en" "https://x.es" 2 90001
    ≡ err (app "REPORT_ALREADY_SENT" 409)
unfolding program file_report reportable check_limits load_owned
refused = refl

single : HasSingleIds (report ∷ [])
single i = ground arith

deliver_pending-tried_once_example :
    (deliver_pending true (λ _. false) 90010 (report ∷ [])).0
    ≡ map (tried_once (λ _. false) 90010) (report ∷ [])
deliver_pending-tried_once_example =
    deliver_pending-tried_once (λ _. false) 90010 (report ∷ []) single

-- Not accepted, it waits for the next run; accepted then, it is mailed and counted.
mailed_later :
    deliver_pending true (λ _. true) 90020 (deliver_pending true (λ _. false) 90010 (report ∷ [])).0
    ≡ (record report { emailed_at = some 90020; email_attempts = 2 } ∷ [], 1)
unfolding deliver_pending sort_by
mailed_later = refl
