-- ===== src/Attempts.antt =====
-- backend/src/tradeschool/attempts/service.py: open, answer and review a practice attempt. An operation
-- returns what it returns or raises, and the committed tables; a time and the id of a new row are
-- arguments, and so is the number behind `secrets.randbelow`.
pub mod Single
pub mod Answer
use tradeschool.Base.{
  ℕ, ◌+◌, ◌%◌, ◌^◌, ◌==◌, String, Bool, true, false, not, ◌&&◌, ◌||◌, Option, none, some, List, [],
  ◌∷◌, ◌++◌, map, if◌then◌else◌, str_eq, or_text, any, reverse, select, is_some, Result, ok, err,
  Failure, app, app_error, invalid_answer, ◌>>=◌, ◌>>◌, raise_if, or_raise,
}
use tradeschool.Base.Json.{Object}
use tradeschool.Base.Sort.{sort_by}
use tradeschool.Content.Schema.{ExerciseType, iter_exercises}
use tradeschool.Content.Registry.{
  CourseRegistry, get_exercise_config, exercise_id_for_key, exercise_key, slug,
}
use tradeschool.Exercises.Generator.{GeneratedInstance, GradeResult, Platform}
use tradeschool.Store.{
  AttemptState, open_state, answered, abandoned, is_open, is_answered, Snapshot, Attempt, Db,
  get_attempt, put_attempt, is_practice, commit,
}

abbrev pub seed_space : ℕ
seed_space = 2 ^ 62

-- `secrets.randbelow(n)`, from an arbitrary number.
abbrev pub randbelow : ℕ → ℕ → ℕ
randbelow n random = random % n

pub record OpenedAttempt : Type 0 where
  pub attempt : Attempt
  pub instance_of : GeneratedInstance
  pub exercise_type : ExerciseType
  pub exercise_id : String

pub record AttemptReview : Type 0 where
  pub attempt : Attempt
  pub exercise_type : ExerciseType
  pub instance_of : GeneratedInstance
  pub result : Option GradeResult
  pub exercise_id : String

-- The attempts that opening one abandons: open practice of this exercise by this user.
abbrev pub supersedes : ℕ → String → String → Attempt → Bool
supersedes user_id course_id key a =
    a.user_id == user_id
    && str_eq a.course_id course_id
    && str_eq a.exercise_id key
    && is_open a.state
    && is_practice a

abbrev pub abandon : (Attempt → Bool) → List Attempt → List Attempt
abandon test = map (λ a. if test a then record a { state = abandoned } else a)

module _ {Config : Type 0} where
  abbrev pub is_declared : CourseRegistry Config → String → Bool
  is_declared registry exercise_id =
      any (λ (_, _, ex). str_eq ex.id exercise_id) (iter_exercises registry.manifest)

  -- `_resolve`
  unfoldable pub resolve : CourseRegistry Config → String → Result (ExerciseType × Config)
  resolve registry exercise_id = elim (get_exercise_config registry exercise_id) [
    | none ↦
        if is_declared registry exercise_id
        then err (app "EXERCISE_NOT_AVAILABLE" 409)
        else err (app "EXERCISE_NOT_FOUND" 404)
    | some config ↦ ok config
  ]

  -- `_display_id`
  abbrev pub display_id : CourseRegistry Config → Attempt → String
  display_id registry a = or_text (exercise_id_for_key registry a.exercise_id) a.exercise_id

  unfoldable pub load_owned : CourseRegistry Config → Db → ℕ → ℕ → Result Attempt
  load_owned registry db user_id attempt_id = do
    a ← or_raise (get_attempt db attempt_id) (app "ATTEMPT_NOT_FOUND" 404)
    raise_if (not (a.user_id == user_id) || not (str_eq a.course_id (slug registry)))
        (app "ATTEMPT_NOT_FOUND" 404)
    ok a

-- `except InvalidAnswerError`: a malformed answer becomes a 400, all else passes.
abbrev pub graded_or_400 : Result GradeResult → Result GradeResult
graded_or_400 (err invalid_answer) = err (app "INVALID_ANSWER" 400)
graded_or_400 r = r

abbrev pub resolved : Attempt → Object → Bool → ℕ → Attempt
resolved a answer correct now = record a {
  given_answer = some answer;
  is_correct = some correct;
  state = answered;
  answered_at = some now;
}

module _ {Config : Type 0} (platform : Platform Config) where
  -- Generate, abandon what this attempt supersedes, and add the new row.
  abbrev pub create :
      CourseRegistry Config
      → Db
      → (user_id : ℕ) (exercise_id locale : String) (random new_id now : ℕ)
      → Result (OpenedAttempt × Db)
  create registry db user_id exercise_id locale random new_id now = do
    (exercise_type, config) ← resolve registry exercise_id
    key ← exercise_key registry exercise_id
    let seed = randbelow seed_space random
    instance_of ← (platform.get_generator exercise_type).generate config seed locale
    let a : Attempt = record {
      id = new_id;
      user_id = user_id;
      course_id = slug registry;
      exercise_id = key;
      seed = seed;
      instance_snapshot = record {
        type = exercise_type;
        prompt = instance_of.prompt;
        payload = instance_of.payload;
      };
      given_answer = none;
      is_correct = none;
      state = open_state;
      exam_session_id = none;
      created_at = now;
      answered_at = none;
    }
    let kept = abandon (supersedes user_id (slug registry) key) db.attempts
    ok (
      record {
        attempt = a;
        instance_of = instance_of;
        exercise_type = exercise_type;
        exercise_id = exercise_id;
      },
      record db { attempts = kept ++ a ∷ [] },
    )

  unfoldable pub open_attempt :
      CourseRegistry Config
      → Db
      → (user_id : ℕ) (exercise_id locale : String) (random new_id now : ℕ)
      → Result OpenedAttempt × Db
  unfolding resolve
  open_attempt registry db user_id exercise_id locale random new_id now =
      commit db (create registry db user_id exercise_id locale random new_id now)

  abbrev pub grade_open :
      CourseRegistry Config
      → Db
      → (user_id attempt_id : ℕ) (answer : Object) (locale : String) (now : ℕ)
      → Result ((Attempt × GradeResult) × Db)
  grade_open registry db user_id attempt_id answer locale now = do
    a ← load_owned registry db user_id attempt_id
    raise_if (not (is_open a.state)) (app "ATTEMPT_ALREADY_RESOLVED" 409)
    (exercise_type, config) ← resolve registry (display_id registry a)
    result ←
        graded_or_400 ((platform.get_generator exercise_type).grade config a.seed answer locale)
    let a' = resolved a answer result.correct now
    ok ((a', result), record db { attempts = put_attempt a' db.attempts })

  unfoldable pub submit_answer :
      CourseRegistry Config
      → Db
      → (user_id attempt_id : ℕ) (answer : Object) (locale : String) (now : ℕ)
      → Result (Attempt × GradeResult) × Db
  unfolding resolve load_owned
  submit_answer registry db user_id attempt_id answer locale now =
      commit db (grade_open registry db user_id attempt_id answer locale now)

  -- The grading of a stored answer, for an answered attempt only.
  abbrev pub replay : ExerciseType → Config → Attempt → String → Result (Option GradeResult)
  replay exercise_type config a locale = elim a.given_answer [
    | none ↦ ok none
    | some answer ↦
        if is_answered a.state
        then (do
          result ← (platform.get_generator exercise_type).grade config a.seed answer locale
          ok (some result))
        else ok none
  ]

  unfoldable pub review_attempt :
      CourseRegistry Config → Db → (user_id attempt_id : ℕ) (locale : String) → Result AttemptReview
  unfolding resolve load_owned
  review_attempt registry db user_id attempt_id locale = do
    a ← load_owned registry db user_id attempt_id
    (exercise_type, config) ← resolve registry (display_id registry a)
    instance_of ← (platform.get_generator exercise_type).generate config a.seed locale
    result ← replay exercise_type config a locale
    ok (record {
      attempt = a;
      exercise_type = exercise_type;
      instance_of = instance_of;
      result = result;
      exercise_id = display_id registry a;
    })

abbrev pub of_exercise : ℕ → String → String → Attempt → Bool
of_exercise user_id course_id key a =
    a.user_id == user_id
    && str_eq a.course_id course_id
    && str_eq a.exercise_id key
    && is_practice a

-- Newest first; an unknown exercise has no history.
pub user_attempts : {Config : Type 0} → CourseRegistry Config → Db → ℕ → String → List Attempt
user_attempts registry db user_id exercise_id = elim (exercise_key registry exercise_id) [
  | err e ↦ []
  | ok key ↦
      reverse
        (sort_by (λ a. a.created_at) (select (of_exercise user_id (slug registry) key) db.attempts))
]
