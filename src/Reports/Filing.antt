-- ===== src/Reports/Filing.antt =====
-- backend/src/tradeschool/reports/service.py and models.py: filing a report, and mailing the stored ones.
use Prim.Native.String.{◌++◌ as ◌<>◌}
use mathlib.Core.List.{foldl}
use tradeschool.Base.{
  ℕ, ◌+◌, ◌-◌, ◌%◌, String, Bool, true, false, not, ◌&&◌, ◌||◌, Option, none, some, List, [], ◌∷◌,
  ◌++◌, map, ◌==◌, leb, find, select, count_if, is_some, or_else, or_text, str_eq, if◌then◌else◌,
  Result, ok, err, Failure, app, other, ◌>>=◌, ◌>>◌, raise_if,
}
use tradeschool.Base.Sort.{sort_by}
use tradeschool.Base.Json.{Json, Object}
use tradeschool.Content.Schema.{ExerciseType, type_eq}
use tradeschool.Content.Registry.{
  CourseRegistry, slug, exercise_id_for_key, get_exercise_config, exercise_location,
  exercise_lesson_id,
}
use tradeschool.Exercises.Generator.{Platform}
use tradeschool.Exercises.Quiz.{QuizConfig, variant}
use tradeschool.Exercises.Reveal.{dummy_answer}
use tradeschool.Store.{Attempt, is_answered, Db}
use tradeschool.Attempts.{load_owned}
use tradeschool.Auth.Models.{User}
use tradeschool.Reports.Answers.{describe_given, describe_correct}

pub record QuestionReport : Type 0 where
  pub id : ℕ
  pub user_id : ℕ
  pub attempt_id : ℕ
  pub message : String
  pub course_id : String
  pub module_id : String
  pub lesson_id : String
  pub exercise_id : String
  pub variant_id : String
  pub seed : ℕ
  pub reading_locale : String
  pub prompt : String
  pub given_answer : String
  pub correct_answer : String
  pub username : String
  pub link : String
  pub created_at : ℕ
  pub emailed_at : Option ℕ
  pub email_attempts : ℕ

-- `DAILY_LIMIT`
abbrev pub daily_limit : ℕ
daily_limit = 10

-- A day, in seconds; midnight by UTC is a multiple of it.
abbrev pub day : ℕ
day = 86400

-- `_start_of_day`
abbrev pub start_of_day : ℕ → ℕ
start_of_day now = now - now % day

-- What the code takes from outside: the generators, whether a configuration is one of a quiz, the
-- numbers behind a seed, `str` of a value, and `rstrip("/")`.
pub record Tools (Config : Type 0) : Type 0 where
  pub platform : Platform Config
  pub quiz_of : Config → Option QuizConfig
  pub draw : ℕ → ℕ → ℕ
  pub render : Json → String
  pub rstrip_slash : String → String

abbrev pub not_available : Failure
not_available = app "REPORT_NOT_AVAILABLE" 409

abbrev pub sent_today : ℕ → ℕ → QuestionReport → Bool
sent_today user_id now r = r.user_id == user_id && leb (start_of_day now) r.created_at

-- `_check_limits`
unfoldable pub check_limits : List QuestionReport → (user_id attempt_id now : ℕ) → Result (Unit {0})
check_limits reports user_id attempt_id now = do
  raise_if (is_some (find (λ (r : QuestionReport). r.attempt_id == attempt_id) reports))
      (app "REPORT_ALREADY_SENT" 409)
  raise_if (leb daily_limit (count_if (sent_today user_id now) reports))
      (app "REPORT_LIMIT_REACHED" 429)

abbrev pub module_of_location : Option (String × String) → String
module_of_location none = ""
module_of_location (some (_, module_id)) = module_id

module _ {Config : Type 0} where
  -- `registry.get_exercise_config(exercise_id) if exercise_id else None`
  abbrev pub config_of : CourseRegistry Config → Option String → Option (ExerciseType × Config)
  config_of registry none = none
  config_of registry (some exercise_id) =
      if str_eq exercise_id "" then none else get_exercise_config registry exercise_id

  abbrev pub is_quiz : Option (ExerciseType × Config) → Bool
  is_quiz none = false
  is_quiz (some (type, _)) = type_eq type ExerciseType.quiz

  -- `_reportable`
  unfoldable pub reportable : CourseRegistry Config → Db → (user_id attempt_id : ℕ) → Result Attempt
  reportable registry db user_id attempt_id = do
    a ← load_owned registry db user_id attempt_id
    raise_if
        (not (is_answered a.state)
          || not (is_quiz (config_of registry (exercise_id_for_key registry a.exercise_id))))
        not_available
    ok a

  -- `assert isinstance(config, QuizConfig)`, and the configuration itself.
  abbrev pub quiz_config :
      Tools Config → Option (ExerciseType × Config) → Result (Config × QuizConfig)
  quiz_config tools none = err (other "AssertionError")
  quiz_config tools (some (_, config)) = elim (tools.quiz_of config) [
    | none ↦ err (other "AssertionError")
    | some quiz ↦ ok (config, quiz)
  ]

  -- `attempt.given_answer or dummy_answer(instance.payload)`
  abbrev pub given_or_dummy : Tools Config → Option Object → Object → Object
  given_or_dummy tools none payload = dummy_answer tools.render payload
  given_or_dummy tools (some []) payload = dummy_answer tools.render payload
  given_or_dummy tools (some (entry ∷ rest)) payload = entry ∷ rest

  -- The report, with every field filled in by the server. The database stamps `created_at`; its clock is
  -- taken to be that of the application.
  unfoldable pub report_of :
      Tools Config
      → CourseRegistry Config
      → User
      → Attempt
      → (message locale public_url : String) (id now : ℕ) → Result QuestionReport
  report_of tools registry user a message locale public_url id now = do
    let exercise_id = or_text (exercise_id_for_key registry a.exercise_id) a.exercise_id
    (config, quiz) ← quiz_config tools (get_exercise_config registry exercise_id)
    let generator = tools.platform.get_generator ExerciseType.quiz
    instance_of ← generator.generate config a.seed locale
    graded ←
        generator.grade config a.seed (given_or_dummy tools a.given_answer instance_of.payload)
          locale
    let lesson_id = or_else (exercise_lesson_id registry exercise_id) ""
    v ← variant tools.draw quiz a.seed
    given ← describe_given tools.render instance_of.payload a.given_answer locale
    correct ← describe_correct tools.render graded.correct_answer locale
    ok (record {
      id = id;
      user_id = user.id;
      attempt_id = a.id;
      message = message;
      course_id = slug registry;
      module_id = module_of_location (exercise_location registry exercise_id);
      lesson_id = lesson_id;
      exercise_id = exercise_id;
      variant_id = v.id;
      seed = a.seed;
      reading_locale = locale;
      prompt = instance_of.prompt;
      given_answer = given;
      correct_answer = correct;
      username = user.username;
      link =
          tools.rstrip_slash public_url
          <> "/courses/"
          <> slug registry
          <> "/lessons/"
          <> lesson_id
          <> "#ex-"
          <> exercise_id;
      created_at = now;
      emailed_at = none;
      email_attempts = 0;
    })

  -- `file_report`: the report and the table with it, or what is raised with nothing stored.
  unfoldable pub file_report :
      Tools Config
      → CourseRegistry Config
      → Db
      → List QuestionReport
      → User
      → (attempt_id : ℕ) (message locale public_url : String) (id now : ℕ)
      → Result (QuestionReport × List QuestionReport)
  file_report tools registry db reports user attempt_id message locale public_url id now = do
    a ← reportable registry db user.id attempt_id
    check_limits reports user.id a.id now
    report ← report_of tools registry user a message locale public_url id now
    ok (report, reports ++ (report ∷ []))

-- `emailed_at IS NULL`
abbrev pub is_pending : QuestionReport → Bool
is_pending r = not (is_some r.emailed_at)

abbrev pub tried : Bool → ℕ → QuestionReport → QuestionReport
tried accepted now r = record r {
  emailed_at = if accepted then some now else r.emailed_at;
  email_attempts = r.email_attempts + 1;
}

abbrev pub put_report : QuestionReport → QuestionReport → QuestionReport
put_report changed r = if r.id == changed.id then changed else r

-- One round of the loop: the report is read again, and skipped if it was mailed meanwhile.
-- `accepts` is the answer of the mail server.
unfoldable pub deliver_one :
    (QuestionReport → Bool) → ℕ → List QuestionReport × ℕ → ℕ → List QuestionReport × ℕ
deliver_one accepts now (reports, delivered) report_id =
    elim (find (λ (r : QuestionReport). r.id == report_id && is_pending r) reports) [
      | none ↦ (reports, delivered)
      | some r ↦ (
        map (put_report (tried (accepts r) now r)) reports,
        if accepts r then delivered + 1 else delivered,
      )
    ]

abbrev pub pending_ids : List QuestionReport → List ℕ
pending_ids reports =
    map (λ (r : QuestionReport). r.id)
      (sort_by (λ (r : QuestionReport). r.created_at) (select is_pending reports))

-- `deliver_pending`: `ready` is `mailer.enabled and to`.
unfoldable pub deliver_pending :
    (ready : Bool) → (QuestionReport → Bool) → ℕ → List QuestionReport → List QuestionReport × ℕ
unfolding deliver_one
deliver_pending false accepts now reports = (reports, 0)
deliver_pending true accepts now reports =
    foldl (deliver_one accepts now) (reports, 0) (pending_ids reports)
