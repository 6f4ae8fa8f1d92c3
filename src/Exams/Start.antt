-- ===== src/Exams/Start.antt =====
-- backend/src/tradeschool/exams/service.py, `start_exam`: one question for each module of the scope,
-- drawn at random, and the order of the questions frozen in the rules of the session.
use tradeschool.Base.{
  ℕ, suc, ◌%◌, String, Bool, true, false, not, ◌&&◌, ◌||◌, Option, none, some, List, [], ◌∷◌, ◌++◌,
  map, length, get_elem?, any, if◌then◌else◌, str_eq, opt_str_eq, Result, ok, err, Failure, app,
  ◌>>=◌, ◌>>◌, raise_if, or_raise,
}
use mathlib.Core.List.{foldl}
use tradeschool.Content.Registry.{
  CourseRegistry, get_exercise_config, exercise_key, playable_module_exercises,
}
use tradeschool.Exercises.Generator.{Platform}
use tradeschool.Store.{AttemptState, Attempt, ExamStatus, ExamSession, Db}
use tradeschool.Attempts.{seed_space, randbelow}
use tradeschool.Exams.{scope_modules, open_sessions, attempts_of, abandon}
use tradeschool.Exams.View.{ExamView, build_view}

-- What the request draws: for each question, in order, the number behind `secrets.choice`, the one
-- behind `secrets.randbelow`, and the id of the new row; the id of the session, and the time.
pub record Draws : Type 0 where
  pub choice : ℕ → ℕ
  pub seed : ℕ → ℕ
  pub attempt_id : ℕ → ℕ
  pub exam_id : ℕ
  pub now : ℕ

-- `secrets.choice(xs)`, from an arbitrary number.
abbrev pub choose : List String → ℕ → Result String
choose xs random = or_raise (get_elem? xs (random % length xs)) (Failure.other "IndexError")

-- The scope as it is stored: a global exam has no block.
pub check_scope :
    {Config : Type 0}
    → CourseRegistry Config
    → (scope : String) (block_id : Option String) → Result (Option String)
check_scope registry scope block_id =
    if not (str_eq scope "global" || str_eq scope "block")
    then err (app "EXAM_BAD_SCOPE" 400)
    else if str_eq scope "block"
    then elim block_id [
      | none ↦ err (app "EXAM_BAD_SCOPE" 400)
      | some b ↦
          if any (λ block. str_eq block.id b) registry.manifest.blocks
          then ok (some b)
          else err (app "EXAM_BAD_SCOPE" 400)
    ]
    else ok none

abbrev pub same_scope : String → Option String → ExamSession → Bool
same_scope scope block_id s = str_eq s.rules.scope scope && opt_str_eq s.rules.block_id block_id

-- Every open exam of the same scope is closed.
unfoldable pub close_same_scope : ℕ → String → Option String → Db → List ExamSession → Db
close_same_scope now scope block_id =
    foldl (λ db s. if same_scope scope block_id s then abandon now db s else db)

module _ {Config : Type 0} (platform : Platform Config) (registry : CourseRegistry Config)
    (draws : Draws) (user_id : ℕ) (course_id locale : String) where
  -- The body of the assembly loop: question `i`, for a module.
  unfoldable pub question : ℕ → String → Result Attempt
  question i module_id = do
    playable ← playable_module_exercises registry module_id
    exercise_id ← choose playable (draws.choice i)
    (exercise_type, cfg) ←
        or_raise (get_exercise_config registry exercise_id) (Failure.other "AssertionError")
    let seed = randbelow seed_space (draws.seed i)
    instance_of ← (platform.get_generator exercise_type).generate cfg seed locale
    key ← exercise_key registry exercise_id
    ok (record {
      id = draws.attempt_id i;
      user_id = user_id;
      course_id = course_id;
      exercise_id = key;
      seed = seed;
      instance_snapshot = record {
        type = exercise_type;
        prompt = instance_of.prompt;
        payload = instance_of.payload;
      };
      given_answer = none;
      is_correct = none;
      state = AttemptState.open_state;
      exam_session_id = some draws.exam_id;
      created_at = draws.now;
      answered_at = none;
    })

  unfoldable pub questions : ℕ → List (String × String) → Result (List Attempt)
  unfolding question
  questions i [] = ok []
  questions i ((_, module_id) ∷ modules) = do
    a ← question i module_id
    rest ← questions (suc i) modules
    ok (a ∷ rest)

  abbrev pub assembled : String → Option String → List Attempt → ExamSession
  assembled scope block_id qs = record {
    id = draws.exam_id;
    user_id = user_id;
    course_id = course_id;
    created_at = draws.now;
    finished_at = none;
    rules = record {
      scope = scope;
      block_id = block_id;
      status = ExamStatus.open_exam;
      result = none;
      question_order = some (map (λ a. a.exercise_id) qs);
    };
  }

  -- All that `start_exam` does up to its commit.
  unfoldable pub assemble :
      Db → (scope : String) (block_id : Option String) → Result (ExamSession × Db)
  unfolding check_scope questions close_same_scope
  assemble db scope block_id = do
    block ← check_scope registry scope block_id
    modules ← scope_modules registry scope block
    raise_if (elim modules [ [] ↦ true | _ ∷ _ ↦ false ]) (app "EXAM_EMPTY" 409)
    let closed = close_same_scope draws.now scope block db (open_sessions db user_id course_id)
    qs ← questions 0 modules
    let exam = assembled scope block qs
    ok (
      exam,
      record {
        attempts = closed.attempts ++ qs;
        exam_sessions = closed.exam_sessions ++ exam ∷ [];
      },
    )

  -- The view is built after the commit: where it raises, the exam has been started.
  pub start_exam : Db → (scope : String) (block_id : Option String) → Result ExamView × Db
  unfolding assemble
  start_exam db scope block_id = elim (assemble db scope block_id) [
    | err e ↦ (err e, db)
    | ok (exam, db') ↦
        (build_view platform registry exam (attempts_of db' exam.id) locale false, db')
  ]
